-- ===== src/Translation/Chosen.antt =====
-- translator.go: the rule that names an image is the one that is used.
use virtlet.Prelude.{Str, codes, [], ◌++◌, ◌≡◌, ◌≢◌, ◌⊎◌}
use virtlet.Translation.Defs.{ImageTranslation}

-- The translation is for the name, and calls it `short`.
abbrev pub Shortens : ImageTranslation → Str → Str → Type 0
Shortens t name short =
    ((t.prefix ≡ []) × (name ≡ short))
    ⊎ ((t.prefix ≢ []) × (name ≡ t.prefix ++ (codes "/" ++ short)))

-- The translation is for names with a prefix that this one has not.
abbrev pub Passes : Str → ImageTranslation → Type 0
Passes name t = (t.prefix ≢ []) × ((short : Str) → name ≢ t.prefix ++ (codes "/" ++ short))
