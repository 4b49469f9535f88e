-- ===== src/Tap/Server.antt =====
-- FDServer: the table of descriptors, the handlers of the four commands, and the loop that serves
-- a connection. Writing to the connection is taken to succeed.
use virtlet.Prelude.{
  ℕ, zero, suc, ◌%◌, ◌^◌, Str, Bool, true, false, none, some, List, [], ◌∷◌, ◌++◌, leb, ◌==◌,
  if◌then◌else◌, length, take, drop,
}
use virtlet.Prelude.Dict.{Dict, lookup, insert, erase}
use virtlet.Result.{Error, ok, err, fault, errorf, out_of_rounds}
use virtlet.Prog.{Prog, pure, raise, crash, get_state, attempt, annotate, ◌>>=◌, ◌>>◌}
use virtlet.Tap.Header.{
  FdHeader, eof, short, got, get_key, encode_header, read_header, fd_magic, fd_add, fd_release,
  fd_get, fd_recover, fd_error, key_size, response_to,
}
use virtlet.Tap.Source.{FdSource, Platform, Fds}

-- A response: the header's bytes, and the message that follows it, data and out-of-band data.
pub record Response : Type 0 where
  pub header : Str
  pub body : Str
  pub oob : Str

-- The server with one connection: what the client has sent and was not read yet, and what was
-- written to it.
pub record Server (S : Type 0) : Type 0 where
  pub source : S
  pub fds : Dict Fds
  pub input : Str
  pub output : List Response

abbrev pub u32 : ℕ → ℕ
u32 n = n % 2 ^ 32

-- What a handler returns: the response's header, its data and its out-of-band data.
abbrev pub Answer : Type 0
Answer = FdHeader × Str × Str

abbrev pub zeroes : ℕ → Str
zeroes zero = []
zeroes (suc n) = 0 ∷ zeroes n

abbrev pub bytes_or_nil : Fds → List ℕ
bytes_or_nil none = []
bytes_or_nil (some l) = l

module _ (src : FdSource) (os : Platform) where
  open src use {S}

  abbrev pub Srv : Type 0 → Type 0
  Srv A = Prog (Server S) A

  unfoldable pub on_source : {A : Type 0} → Prog S A → Srv A
  on_source m s = let (r, t) = m s.source in (r, record s { source = t })

  abbrev pub set_fds : Dict Fds → Srv (Unit {0})
  set_fds m s = (ok tt, record s { fds = m })

  unfoldable pub add_fds : Str → Fds → Srv Bool
  add_fds key fds s = elim (lookup key s.fds) [
    | some old ↦ (ok false, s)
    | none ↦ (ok true, record s { fds = insert key fds s.fds })
  ]

  unfoldable pub remove_fds : Str → Srv (Unit {0})
  remove_fds key s = set_fds (erase key s.fds) s

  -- The descriptors of a recovered key are nil until they are asked for.
  unfoldable pub get_fds : Str → Srv Fds
  get_fds key = do
    s ← get_state
    elim (lookup key s.fds) [
      | none ↦ raise (errorf "bad fd key")
      | some (some l) ↦ pure (some l)
      | some none ↦ (do
        fds ← on_source (src.retrieve_fds key)
        t ← get_state
        set_fds (insert key fds t.fds)
        pure fds)
    ]

  unfoldable pub mark_as_recovered : Str → Srv (Unit {0})
  mark_as_recovered key s = elim (lookup key s.fds) [
    | some old ↦ (err (errorf "fd key is already present and thus can't be properly recovered"), s)
    | none ↦ (ok tt, record s { fds = insert key none s.fds })
  ]

  -- io.ReadFull: too short an input is read to its end.
  unfoldable pub read_payload : ℕ → Srv Str
  read_payload n s =
      if leb n (length s.input)
      then (ok (take n s.input), record s { input = drop n s.input })
      else (err (errorf "error reading payload"), record s { input = [] })

  abbrev pub reply : FdHeader → ℕ → ℕ → ℕ → FdHeader
  reply h command body oob = record {
    magic = fd_magic;
    command = command;
    data_size = u32 body;
    oob_size = u32 oob;
    key = h.key;
  }

  unfoldable pub serve_add : FdHeader → Srv Answer
  serve_add h = do
    bytes ← read_payload h.data_size
    (fds, body) ← annotate "error getting fd" (on_source (src.get_fds (get_key h) bytes))
    added ← add_fds (get_key h) fds
    if added
        then pure (reply h (response_to fd_add) (length body) 0, body, [])
        else raise (errorf "fd key already exists")

  unfoldable pub serve_release : FdHeader → Srv Answer
  serve_release h = do
    annotate "error releasing fd" (on_source (src.release (get_key h)))
    remove_fds (get_key h)
    pure (reply h (response_to fd_release) 0 0, [], [])

  unfoldable pub serve_get : FdHeader → Srv Answer
  serve_get h = do
    fds ← get_fds (get_key h)
    info ← annotate "can't get key info" (on_source (src.get_info (get_key h)))
    let rights = os.unix_rights (bytes_or_nil fds)
    pure (reply h (response_to fd_get) (length info) (length rights), info, rights)

  unfoldable pub serve_recover : FdHeader → Srv Answer
  serve_recover h = do
    bytes ← read_payload h.data_size
    annotate "error recovering" (on_source (src.recover (get_key h) bytes))
    mark_as_recovered (get_key h)
    pure (reply h (response_to fd_recover) 0 0, [], [])

  -- The `switch` of serveConn.
  unfoldable pub dispatch : FdHeader → Srv Answer
  dispatch h =
      if h.command == fd_add
      then serve_add h
      else if h.command == fd_release
      then serve_release h
      else if h.command == fd_get
      then serve_get h
      else if h.command == fd_recover
      then serve_recover h
      else raise (errorf "bad command")

  -- An error is sent to the client; its header has an empty key.
  abbrev pub no_key : Str
  no_key = zeroes key_size

  abbrev pub error_answer : Error → Answer
  error_answer e = (
    record {
      magic = fd_magic;
      command = fd_error;
      data_size = u32 (length (os.text e));
      oob_size = 0;
      key = no_key;
    },
    os.text e,
    [],
  )

  abbrev pub response : Answer → Response
  response (h, body, oob) = record { header = encode_header h; body = body; oob = oob }

  abbrev pub write : Answer → Srv (Unit {0})
  write a s = (ok tt, record s { output = s.output ++ response a ∷ [] })

  unfoldable pub respond : FdHeader → Srv (Unit {0})
  respond h = do
    r ← attempt (dispatch h)
    elim r [ ok a ↦ write a | err e ↦ write (error_answer e) | fault f ↦ crash f ]

  -- The loop of serveConn. A round reads a header at least, so the length of the input bounds them.
  unfoldable pub serve_rounds : ℕ → Srv (Unit {0})
  serve_rounds zero s = (fault out_of_rounds, s)
  serve_rounds (suc rounds) s = elim (read_header s.input) [
    | eof ↦ (ok tt, s)
    | short ↦ (err (errorf "error reading the header"), record s { input = [] })
    | got h rest ↦ elim (h.magic == fd_magic) [
      | false ↦ (err (errorf "bad magic"), record s { input = rest })
      | true ↦ (respond h >> serve_rounds rounds) (record s { input = rest })
    ]
  ]

  unfoldable pub serve_conn : Srv (Unit {0})
  serve_conn s = serve_rounds (suc (length s.input)) s
