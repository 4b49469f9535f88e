-- ===== src/Tests/Devices.antt =====
-- Block devices as strings by their paths, with a root volume on one, and an image's translation.
use virtlet.Prelude.{
  Option, ℕ, zero, suc, Str, codes, str_eq, str_eq_refl, Bool, true, false, some, [], ◌∷◌, ◌++◌,
  drop, take, length, ltb, if◌then◌else◌, ◌≡◌, refl, sym, ap, ◌∙◌,
}
use virtlet.Result.{Result, ok, err, errorf, ok_injective}
use virtlet.Prog.{annotate, attempt, unless_err, ◌>>=◌}
use virtlet.Image.Names.{Digest}
use virtlet.Blockdev.Defs.{
  header_size, DevOs, be16, be64, check_header, claim, close_quietly, decode, encode,
  ensure_dev_header_matches, header_of, is_for, read16, read64,
}
use virtlet.Tap.Header.{be32, read32, read_bytes}
use virtlet.Blockdev.Claimed.{DevLaws, ensure_dev_header_matches-again}
use virtlet.Volumes.PersistentRoot.{PersistentRoot, RootOs, setup}

abbrev pub Devs : Type 0
Devs = Str → Str

abbrev read_dev : ℕ → Str → Devs → Bool → Result Str × Devs
read_dev n p d true = (err (errorf "unexpected EOF"), d)
read_dev n p d false = (ok (take n (d p)), d)

-- Every device has 100 sectors.
abbrev pub devs : DevOs
devs = record {
  D = Devs;
  open_device = λ p d. (ok tt, d);
  read_full = λ n p d. read_dev n p d (ltb (length (d p)) n);
  seek_start = λ p d. (ok tt, d);
  write_start = λ p s d. (ok tt, λ q. if str_eq p q then s ++ drop (length s) (d q) else d q);
  close = λ p d. (ok tt, d);
  run = λ args input d. (ok [], d);
  eval_symlinks = λ p d. (ok p, d);
  parse_uint = λ s. some 100;
}

abbrev content : Str → Devs → Str
content p d = d p

read_dev_ok :
    (n : ℕ) (p s : Str) (d d' : Devs) (short : Bool)
    → read_dev n p d short ≡ (ok s, d')
    → (s ≡ take n (d p)) × ((q : Str) → d' q ≡ d q)
read_dev_ok n p s d d' true h =
    let k : err (errorf "unexpected EOF") ≡ ok s = λ i. (h i).0 in absurd (cc)
read_dev_ok n p s d d' false h = (sym (ok_injective (λ i. (h i).0)), λ q. sym (λ i. (h i).1 q))

devs-DevLaws : DevLaws devs content
devs-DevLaws = record {
  open_keeps = λ p q d d' h. sym (λ i. (h i).1 q);
  read_start = λ p n d d' s h. read_dev_ok n p s d d' (ltb (length (d p)) n) h;
  seek_keeps = λ p q d d' h. sym (λ i. (h i).1 q);
  close_keeps = λ p q d d' h. sym (λ i. (h i).1 q);
  written = λ p s d d' h. (
    drop (length s) (d p),
    sym (λ i. (h i).1 p)
        ∙ ap (λ (t : Bool). if t then s ++ drop (length s) (d p) else d p) (str_eq_refl p),
  );
}

abbrev zeros : ℕ → Str
zeros zero = []
zeros (suc n) = 0 ∷ zeros n

abbrev blank : Devs
blank p = zeros 48

abbrev hash : Str
hash = zeros 32

abbrev check : Devs → Result Bool × Devs
check = ensure_dev_header_matches devs (codes "/dev/sdb") hash

first_check : check blank ≡ (ok false, (check blank).1)
unfolding ensure_dev_header_matches check_header claim is_for header_of close_quietly encode decode
    read64 read16 be64 be16 be32 read32 read_bytes ◌>>=◌ attempt annotate unless_err str_eq
first_check = refl

-- An image is written behind the header.
abbrev later : Devs
later p = take header_size ((check blank).1 p) ++ codes "image"

abbrev answer : Result Bool → Bool
answer (ok b) = b
answer _ = false

second_check : check later ≡ (ok (answer (check later).0), (check later).1)
unfolding ensure_dev_header_matches check_header claim is_for header_of close_quietly encode decode
    read64 read16 be64 be16 be32 read32 read_bytes ◌>>=◌ attempt annotate unless_err str_eq
second_check = refl

untouched :
    take header_size (later (codes "/dev/sdb"))
    ≡ take header_size ((check blank).1 (codes "/dev/sdb"))
unfolding ensure_dev_header_matches check_header claim is_for header_of close_quietly encode decode
    read64 read16 be64 be16 be32 read32 read_bytes ◌>>=◌ attempt annotate unless_err str_eq
untouched = refl

ensure_dev_header_matches-again_example : answer (check later).0 ≡ true
ensure_dev_header_matches-again_example =
    ensure_dev_header_matches-again devs content devs-DevLaws (codes "/dev/sdb") hash blank
      (check blank).1 later (check later).1 false (answer (check later).0) refl first_check
      untouched second_check

abbrev some_info : Str × Option Digest × ℕ
some_info = (codes "/images/a", some (record { sha256 = true; hex = codes "ab" }), 50000)

abbrev root_os : RootOs devs
root_os = record {
  image_info = λ s d. (ok some_info, d);
  hex_decode = λ s. some hash;
  sync = λ d. d;
  open_fd = λ p d. (ok 3, d);
  fsync = λ n d. (ok tt, d);
  close_fd = λ n d. (ok tt, d);
  put_files = λ p fs d. (ok tt, d);
}

abbrev volume : PersistentRoot
volume = record {
  host_path = codes "/dev/sdb";
  image = codes "cirros";
  domain_uuid = codes "u";
  injected_files = some [];
}

abbrev set_up : Result Str × Devs
set_up = setup devs root_os volume blank
