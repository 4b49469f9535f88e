-- ===== src/Tap/Fitting.antt =====
-- Keys that go through a header unchanged, and the headers that carry them.
use virtlet.Prelude.{
  ℕ, zero, suc, ◌≤◌, ◌<◌, ◌^◌, ◌≡◌, refl, ap, ◌∙◌, Str, str_eq, str_eq_refl, true, [], ◌∷◌, length,
  take, arith,
}
use virtlet.Result.{ok}
use virtlet.Tap.Header.{FdHeader, trim_space, get_key, pad, fd_key, key_size, response_to}
use virtlet.Tap.RoundTrip.{IsWellSized, get_key-fd_key}
use virtlet.Tap.Source.{FdSource, Platform}
use virtlet.Tap.Server.{Server, u32, reply}
use virtlet.Tap.Requests.{IsAnswer}
use virtlet.Tap.Client.{request_header, same_key, connect}

-- A key that the header holds whole, with no white space around it.
pub record IsFitting (key : Str) : Type 0 where
  pub trimmed : trim_space key ≡ key
  pub short : length key ≤ key_size

take-short : (n : ℕ) (s : Str) → length s ≤ n → take n s ≡ s
take-short zero [] h = refl
take-short zero (c ∷ s) h = absurd (omega (arith, h))
take-short (suc n) [] h = refl
take-short (suc n) (c ∷ s) h = rw (take-short n s (omega (arith, h)))

length-pad : (n : ℕ) (s : Str) → length (pad n s) ≡ n
unfolding pad
length-pad zero s = refl
length-pad (suc n) [] = omega (arith, length-pad n [])
length-pad (suc n) (c ∷ s) = omega (arith, length-pad n s)

pub length-fd_key : (key : Str) → length (fd_key key) ≡ key_size
unfolding fd_key
length-fd_key key = length-pad key_size key

pub u32-small : (n : ℕ) → n < 2 ^ 32 → u32 n ≡ n
u32-small n h = ground arith

u32-bound : (n : ℕ) → u32 n < 2 ^ 32
u32-bound n = ground arith

pub key-kept : (h : FdHeader) {key : Str} → IsFitting key → h.key ≡ fd_key key → get_key h ≡ key
key-kept h {key} good same =
    get_key-fd_key h key same ∙ ap trim_space (take-short key_size key good.short) ∙ good.trimmed

pub request_header-IsWellSized :
    (command size : ℕ) (key : Str) → command < 2 ^ 8 → IsWellSized (request_header command size key)
request_header-IsWellSized command size key h = record {
  magic = omega arith;
  command = h;
  data_size = u32-bound size;
  oob_size = omega arith;
  key = length-fd_key key;
}

module _ (src : FdSource) (os : Platform) where
  open src use {S}

  pub reply-IsAnswer :
      (h : FdHeader) (command : ℕ) (body oob : Str)
      → command < 127
      → length h.key ≡ key_size
      → length body < 2 ^ 32
      → length oob < 2 ^ 32
      → IsAnswer command
          (reply src os h (response_to command) (length body) (length oob), body, oob)
  reply-IsAnswer h command body oob regular whole small little = record {
    fits = record {
      magic = omega arith;
      command = omega (arith, regular);
      data_size = u32-bound (length body);
      oob_size = u32-bound (length oob);
      key = whole;
    };
    magic = refl;
    command = refl;
    regular = regular;
    data_size = u32-small (length body) small;
    oob_size = u32-small (length oob) little;
  }

  pub same_key-passes :
      (h : FdHeader) {key : Str} (t : Server S)
      → IsFitting key
      → h.key ≡ fd_key key
      → same_key os (connect src os) h key t ≡ (ok tt, t)
  same_key-passes h {key} t good same =
      let equal : str_eq (get_key h) key ≡ true = rw (key-kept h good same) (str_eq_refl key) in
      rw equal
