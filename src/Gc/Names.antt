-- ===== src/Gc/Names.antt =====
-- gc.go: the names by which a resource is recognised as belonging to a container.
use virtlet.Prelude.{
  Str, codes, str_eq, has_prefix, Bool, true, false, ◌&&◌, ◌||◌, List, [], ◌∷◌, ◌++◌, length, take,
  ltb, ◌==◌, if◌then◌else◌,
}
use virtlet.Result.{Result, ok, fault, panic, ◌>>=◌}

abbrev pub virtlet_prefix : Str
virtlet_prefix = codes "virtlet-"

abbrev pub root_prefix : Str
root_prefix = codes "virtlet_root_"

abbrev pub logical_device_prefix : Str
logical_device_prefix = codes "virtlet-dm-"

abbrev pub config_prefix : Str
config_prefix = codes "config-"

abbrev pub iso_suffix : Str
iso_suffix = codes ".iso"

-- strings.HasSuffix
unfoldable pub has_suffix : Str → Str → Bool
has_suffix [] p = str_eq [] p
has_suffix (c ∷ s) p = str_eq (c ∷ s) p || has_suffix s p

is_empty : Str → Bool
is_empty [] = true
is_empty (c ∷ s) = false

strip_slashes : Str → Str
strip_slashes [] = []
strip_slashes (c ∷ s) = let t = strip_slashes s in if c == b'/' && is_empty t then [] else c ∷ t

-- What follows the last slash; `last` is what has been read since the last one.
after_slash : Str → Str → Str
after_slash last [] = last
after_slash last (c ∷ s) = after_slash (if c == b'/' then [] else last ++ c ∷ []) s

-- filepath.Base
unfoldable pub base : Str → Str
unfolding is_empty strip_slashes after_slash
base path =
    if is_empty path
    then codes "."
    else if is_empty (strip_slashes path)
    then codes "/"
    else after_slash [] (strip_slashes path)

-- inList, with a filter that may panic: the first element that passes ends the search.
unfoldable pub in_list : List Str → (Str → Result Bool) → Result Bool
in_list [] filter = ok false
in_list (element ∷ list) filter = do
  passed ← filter element
  if passed then ok true else in_list list filter

-- strings.HasPrefix(name, "virtlet-"+id[:13]); the slice panics on a shorter ID
unfoldable pub is_domain_of : Str → Str → Result Bool
is_domain_of name id =
    if ltb (length id) 13 then fault panic else ok (has_prefix name (virtlet_prefix ++ take 13 id))

-- "virtlet_root_"+id == filename
unfoldable pub is_root_volume_of : Str → Str → Result Bool
is_root_volume_of filename id = ok (str_eq (root_prefix ++ id) filename)

-- strings.HasPrefix(filename, "virtlet-"+id)
unfoldable pub is_qcow2_volume_of : Str → Str → Result Bool
is_qcow2_volume_of filename id = ok (has_prefix filename (virtlet_prefix ++ id))

-- filename == "config-"+id+".iso"
unfoldable pub is_config_image_of : Str → Str → Result Bool
is_config_image_of filename id = ok (str_eq filename (config_prefix ++ id ++ iso_suffix))
