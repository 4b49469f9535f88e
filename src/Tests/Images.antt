-- ===== src/Tests/Images.antt =====
-- An image store whose digests are the content with a `d` in front.
use virtlet.Prelude.{
  ℕ, Str, str_eq, Bool, true, false, ◌≡◌, refl, Option, none, some, [], ◌∷◌, inl, if◌then◌else◌,
  ◌==◌,
}
use virtlet.Prelude.Dict.{lookup}
use virtlet.Result.{Result, ok, errorf}
use virtlet.Prog.{attempt, annotate, ◌>>=◌}
use virtlet.Image.Names.{Digest, References}
use virtlet.Image.Files.{data_path, Disk, Faults, resolve, readlink, stat, symlink, to_data}
use virtlet.Image.Store.{image_info, list_each, list_images}
use virtlet.Image.Change.{remove_image, gc, get_image_hex_digests_in_use, hex_digests, digests_of}
use virtlet.Image.Pull.{
  Downloads, pull_image, find_image, choose_path, get_image_path_digest_and_virtual_size,
}
use virtlet.Image.Found.{get_image_path_digest_and_virtual_size-asked}
use virtlet.Image.Listing.{IsReadable}
use virtlet.Image.Sound.{IsSound}
use virtlet.Image.Keeps.{remove_image-IsSound}
use virtlet.Image.Pulled.{TellsApart, pull_image-IsSound}
use virtlet.Image.Collected.{gc-collects, gc_keeps_referenced}

abbrev looks_valid : Str → Bool
looks_valid [] = false
looks_valid (c ∷ s) = c == 100

abbrev parsed_digest : Str → Option Digest
parsed_digest s = if looks_valid s then some (record { sha256 = true; hex = s }) else none

abbrev plain_refs : References
plain_refs = record {
  parse = λ s. some (record { name = some s; digest = none });
  parse_digest = parsed_digest;
  is_valid = λ d. looks_valid d.hex;
  from_bytes = λ c. record { sha256 = true; hex = 100 ∷ c };
  with_digest = λ name d. ok name;
}

abbrev no_faults : Faults
no_faults = record {
  stat = λ p. none;
  lstat = λ p. none;
  readlink = λ p. none;
  readdir = λ p. none;
  remove = λ p. none;
  rename = λ p. none;
  make_link = λ p. none;
  mkdir = λ p. none;
  temp_file = none;
  read_back = none;
}

-- Nothing can be removed or linked.
abbrev read_only : Faults
read_only = record no_faults {
  remove = λ p. some (errorf "read-only");
  make_link = λ p. some (errorf "read-only");
}

read_only-IsReadable : IsReadable read_only
read_only-IsReadable = record { stat = λ p. refl; readlink = λ p. refl }

no_faults-IsReadable : IsReadable no_faults
no_faults-IsReadable = record { stat = λ p. refl; readlink = λ p. refl }

abbrev echo : Downloads
echo = record {
  Endpoint = Str;
  translate = λ s. s;
  download = λ s. ok s;
  temp_name = λ d. 112 ∷ [];
}

echo-TellsApart : TellsApart plain_refs echo
echo-TellsApart = record { temp = λ d. refl; content = λ c. refl }

abbrev empty : Disk
empty = record { has_link_dir = false; links = []; data_files = [] }

empty-IsSound : IsSound plain_refs empty
unfolding lookup
empty-IsSound = record { linked = λ l name here. absurd (cc); dir = λ l e here. absurd (cc) }

abbrev cirros : Str
cirros = 99 ∷ 105 ∷ []

pull_image-IsSound_example :
    IsSound plain_refs (pull_image plain_refs no_faults echo none cirros empty).1
pull_image-IsSound_example =
    pull_image-IsSound plain_refs no_faults echo no_faults-IsReadable none echo-TellsApart cirros
      empty empty-IsSound

remove_image-IsSound_example :
    IsSound plain_refs
      (remove_image plain_refs read_only none cirros
        (pull_image plain_refs no_faults echo none cirros empty).1).1
remove_image-IsSound_example =
    remove_image-IsSound plain_refs read_only read_only-IsReadable none
      (pull_image plain_refs no_faults echo none cirros empty).1 cirros pull_image-IsSound_example

-- A tagged image, and a partial download.
abbrev shelf : Disk
shelf = record {
  has_link_dir = true;
  links = (cirros, symlink (to_data (100 ∷ 1 ∷ []))) ∷ [];
  data_files = (100 ∷ 1 ∷ [], 1 ∷ []) ∷ (112 ∷ [], 7 ∷ []) ∷ [];
}

gc-collects_example :
    ((gc plain_refs no_faults none shelf).0 ≡ ok tt)
    × (lookup (112 ∷ []) (gc plain_refs no_faults none shelf).1.data_files ≡ none)
unfolding get_image_hex_digests_in_use annotate list_images list_each hex_digests digests_of stat
    lookup ◌>>=◌ resolve attempt image_info readlink str_eq
gc-collects_example =
    gc-collects plain_refs no_faults none shelf ((100 ∷ 1 ∷ []) ∷ []) (112 ∷ []) refl λ name. refl

abbrev one : Digest
one = record { sha256 = true; hex = 100 ∷ 1 ∷ [] }

gc_keeps_referenced_example :
    lookup
      (100 ∷ 1 ∷ [])
      (gc plain_refs no_faults
        (some (ok ((100 ∷ 1 ∷ [], true) ∷ [])))
        (record shelf { links = [] })).1.data_files
    ≡ lookup (100 ∷ 1 ∷ []) shelf.data_files
gc_keeps_referenced_example =
    gc_keeps_referenced plain_refs no_faults (some (ok ((100 ∷ 1 ∷ [], true) ∷ [])))
      (record shelf { links = [] }) ((100 ∷ 1 ∷ [], true) ∷ []) (100 ∷ 1 ∷ []) one refl (inl refl)
      (inl refl) refl refl

abbrev five : Result ℕ
five = ok 5

get_image_path_digest_and_virtual_size-asked_example :
    (true ≡ true) × (data_path one.hex ≡ data_path one.hex) × (some one ≡ some one) × (five ≡ five)
unfolding get_image_path_digest_and_virtual_size find_image choose_path annotate ◌>>=◌
get_image_path_digest_and_virtual_size-asked_example =
    get_image_path_digest_and_virtual_size-asked plain_refs no_faults (λ path. five) one one.hex
      shelf shelf refl refl
