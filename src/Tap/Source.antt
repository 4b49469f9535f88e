-- ===== src/Tap/Source.antt =====
-- What the FD server calls and does not implement: the interface FDSource, the packing of file
-- descriptors into a socket control message (package syscall), and the texts of errors.
use virtlet.Prelude.{ℕ, Str, ◌≡◌, Option, List}
use virtlet.Result.{Error, Result, ok}
use virtlet.Prog.{Prog}

-- A slice of descriptors; `none` is nil.
abbrev pub Fds : Type 0
Fds = Option (List ℕ)

pub record FdSource : Type 1 where
  pub S : Type 0
  pub get_fds : Str → Str → Prog S (Fds × Str)
  pub release : Str → Prog S (Unit {0})
  pub get_info : Str → Prog S Str
  pub recover : Str → Str → Prog S (Unit {0})
  pub retrieve_fds : Str → Prog S Fds

pub record Platform : Type 0 where
  -- syscall.UnixRights, and ParseSocketControlMessage with ParseUnixRights of its only message
  pub unix_rights : List ℕ → Str
  pub parse_unix_rights : Str → Result (List ℕ)
  pub parse-rights : (fds : List ℕ) → parse_unix_rights (unix_rights fds) ≡ ok fds
  -- err.Error()
  pub text : Error → Str
