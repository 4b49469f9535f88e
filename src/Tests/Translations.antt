-- ===== src/Tests/Translations.antt =====
-- Two translations, of which the second has a rule for a name.
use virtlet.Prelude.{Str, codes, str_eq, Bool, true, false, Option, none, some, [], ◌∷◌}
use virtlet.Prelude.Int.{pos}
use virtlet.Translation.Defs.{Formats, ImageTranslation, TranslationRule, TransportProfile}

abbrev if_equal : Bool → Str → Option Str
if_equal true url = some url
if_equal false url = none

-- No certificates and keys, and regular expressions that match only themselves.
abbrev formats : Formats
formats = record {
  Certificate = Str;
  PrivateKey = Str;
  Regexp = Str;
  pem_blocks = λ s. [];
  parse_certificate = λ s. none;
  parse_pkcs1 = λ s. none;
  parse_pkcs8 = λ s. none;
  parse_ec = λ s. none;
  compile = λ s. some s;
  expand = λ e s url. if_equal (str_eq e s) url;
  has_suffix = λ s t. false;
}

abbrev rule : TranslationRule
rule = record { name = codes "x"; regex = []; url = codes "http://x"; transport = codes "slow" }

abbrev slow : TransportProfile
slow = record { max_redirects = none; tls = none; timeout_milliseconds = pos 5; proxy = [] }

abbrev ours : ImageTranslation
ours = record { prefix = codes "img"; rules = rule ∷ []; transports = (codes "slow", slow) ∷ [] }

abbrev theirs : ImageTranslation
theirs = record { prefix = codes "other"; rules = rule ∷ []; transports = [] }

abbrev image_name : Str
image_name = codes "img/x"
