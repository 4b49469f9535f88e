-- ===== src/Translation/Defs.antt =====
-- translator.go, with pkg/api/virtlet.k8s/v1/imagemapping.go.
use virtlet.Prelude.{
  ◌*◌, Str, codes, str_eq, has_prefix, Bool, true, false, not, ◌&&◌, Option, none, some, List, [],
  ◌∷◌, ◌++◌, drop, length, map, if◌then◌else◌,
}
use virtlet.Prelude.Int.{ℤ, pos, negsuc, to_i64}
use virtlet.Prelude.Dict.{Dict, insert, lookup}
use virtlet.Result.{Result, ok, err, fault}

pub record TranslationRule : Type 0 where
  pub name : Str
  pub regex : Str
  pub url : Str
  pub transport : Str

-- v1.TLSCertificate
pub record CertificateConfig : Type 0 where
  pub cert : Str
  pub key : Str

-- v1.TLSConfig
pub record TlsProfile : Type 0 where
  pub certificates : List CertificateConfig
  pub server_name : Str
  pub insecure : Bool

pub record TransportProfile : Type 0 where
  pub max_redirects : Option ℤ
  pub tls : Option TlsProfile
  pub timeout_milliseconds : ℤ
  pub proxy : Str

pub record ImageTranslation : Type 0 where
  pub prefix : Str
  pub rules : List TranslationRule
  pub transports : Dict TransportProfile

-- A PEM block: its type and its bytes.
pub record Block : Type 0 where
  pub type : Str
  pub bytes : Str

-- crypto/x509, encoding/pem and regexp.
pub record Formats : Type 1 where
  pub Certificate : Type 0
  pub PrivateKey : Type 0
  pub Regexp : Type 0
  -- the blocks that pem.Decode gives, one after another
  pub pem_blocks : Str → List Block
  pub parse_certificate : Str → Option Certificate
  -- ParsePKCS1PrivateKey, ParsePKCS8PrivateKey with whether it is an RSA or ECDSA key, and
  -- ParseECPrivateKey
  pub parse_pkcs1 : Str → Option PrivateKey
  pub parse_pkcs8 : Str → Option (PrivateKey × Bool)
  pub parse_ec : Str → Option PrivateKey
  pub compile : Str → Option Regexp
  -- FindStringSubmatchIndex of a name, and ExpandString of a template with the match
  pub expand : Regexp → Str → Str → Option Str
  -- strings.HasSuffix
  pub has_suffix : Str → Str → Bool

module _ (f : Formats) where
  open f use {Certificate, PrivateKey}

  -- image.TLSCertificate
  pub record TlsCertificate : Type 0 where
    pub certificate : Certificate
    pub private_key : Option PrivateKey

  -- image.TLSConfig
  pub record TlsConfig : Type 0 where
    pub certificates : List TlsCertificate
    pub server_name : Str
    pub insecure : Bool

  -- The timeout is in nanoseconds.
  pub record Endpoint : Type 0 where
    pub url : Str
    pub max_redirects : ℤ
    pub tls : Option TlsConfig
    pub timeout : ℤ
    pub proxy : Str
    pub profile_name : Str

  -- With an EC key tried only where the bytes are no PKCS #8 key.
  unfoldable pub parse_private_key : Str → Option PrivateKey
  parse_private_key der = elim (f.parse_pkcs1 der) [
    | some key ↦ some key
    | none ↦ elim (f.parse_pkcs8 der) [
      | some (key, known) ↦ if known then some key else none
      | none ↦ f.parse_ec der
    ]
  ]

  abbrev pub with_certificate :
      Option Certificate
      → List Certificate × Option PrivateKey
      → List Certificate × Option PrivateKey
  with_certificate none found = found
  with_certificate (some c) (certs, key) = (certs ++ c ∷ [], key)

  abbrev pub has_no_key : List Certificate × Option PrivateKey → Bool
  has_no_key (certs, none) = true
  has_no_key (certs, some k) = false

  -- One round of the loop over the blocks; what cannot be parsed is passed over.
  unfoldable pub take_block :
      Block → List Certificate × Option PrivateKey → List Certificate × Option PrivateKey
  unfolding parse_private_key
  take_block b found =
      if str_eq b.type (codes "CERTIFICATE")
      then with_certificate (f.parse_certificate b.bytes) found
      else if has_no_key found && f.has_suffix b.type (codes "PRIVATE KEY")
      then (found.0, parse_private_key b.bytes)
      else found

  unfoldable pub take_blocks :
      List Block → List Certificate × Option PrivateKey → List Certificate × Option PrivateKey
  take_blocks [] found = found
  take_blocks (b ∷ bs) found = take_blocks bs (take_block b found)

  -- The blocks of the key come before those of the certificate.
  unfoldable pub certificates_of : List CertificateConfig → List TlsCertificate
  unfolding take_blocks take_block
  certificates_of [] = []
  certificates_of (r ∷ rs) =
      let (certs, key) =
        take_blocks (f.pem_blocks r.cert) (take_blocks (f.pem_blocks r.key) ([], none)) in
      map (λ c. record { certificate = c; private_key = key }) certs ++ certificates_of rs

  abbrev pub tls_of : Option TlsProfile → Option TlsConfig
  tls_of none = none
  tls_of (some t) = some (record {
    certificates = certificates_of t.certificates;
    server_name = t.server_name;
    insecure = t.insecure;
  })

  -- A negative timeout is none; the product with time.Millisecond wraps around.
  abbrev pub timeout_of : ℤ → ℤ
  timeout_of (pos ms) = to_i64 (ms * 1_000_000)
  timeout_of (negsuc n) = pos 0

  abbrev pub redirects_of : Option ℤ → ℤ
  redirects_of none = negsuc 0
  redirects_of (some n) = n

  abbrev pub plain : Str → Endpoint
  plain url = record {
    url = url;
    max_redirects = negsuc 0;
    tls = none;
    timeout = pos 0;
    proxy = [];
    profile_name = [];
  }

  unfoldable pub convert_endpoint : TranslationRule → ImageTranslation → Endpoint
  unfolding certificates_of
  convert_endpoint rule config = elim (lookup rule.transport config.transports) [
    | none ↦ plain rule.url
    | some profile ↦ record {
      url = rule.url;
      max_redirects = redirects_of profile.max_redirects;
      tls = tls_of profile.tls;
      timeout = timeout_of profile.timeout_milliseconds;
      proxy = profile.proxy;
      profile_name = rule.transport;
    }
  ]

  -- The name without the prefix, where the translation is for it.
  unfoldable pub unprefixed : ImageTranslation → Str → Option Str
  unprefixed t name =
      let prefix = t.prefix ++ codes "/" in
      if str_eq prefix (codes "/")
      then some name
      else if has_prefix name prefix
      then some (drop (length prefix) name)
      else none

  unfoldable pub by_name : List TranslationRule → Str → Option TranslationRule
  by_name [] name = none
  by_name (r ∷ rs) name =
      let rest = by_name rs name in
      if not (str_eq r.name []) && str_eq r.name name then some r else rest

  abbrev pub or_rest :
      TranslationRule → Option Str → Option TranslationRule → Option TranslationRule
  or_rest r none rest = rest
  or_rest r (some url) rest = some (record r { url = url })

  -- An invalid expression is passed over.
  unfoldable pub by_regex : List TranslationRule → Str → Option TranslationRule
  by_regex [] name = none
  by_regex (r ∷ rs) name =
      let rest = by_regex rs name in
      if str_eq r.regex [] then rest else elim (f.compile r.regex) [
        | none ↦ rest
        | some re ↦ or_rest r (f.expand re name r.url) rest
      ]

  abbrev pub rule_or_regex :
      Bool → List TranslationRule → Str → Option TranslationRule → Option TranslationRule
  rule_or_regex allow rules name (some r) = some r
  rule_or_regex true rules name none = by_regex rules name
  rule_or_regex false rules name none = none

  -- The rule of a translation for a name.
  unfoldable pub rule_for : Bool → ImageTranslation → Str → Option TranslationRule
  unfolding unprefixed by_name by_regex
  rule_for allow t name = elim (unprefixed t name) [
    | none ↦ none
    | some n ↦ rule_or_regex allow t.rules n (by_name t.rules n)
  ]

  abbrev pub first_of : Option TranslationRule → ImageTranslation → Endpoint → Endpoint
  first_of none t rest = rest
  first_of (some r) t rest = convert_endpoint r t

  -- The translations in the order in which the map is gone through.
  unfoldable pub translate : Bool → List ImageTranslation → Str → Endpoint
  unfolding rule_for convert_endpoint
  translate allow [] name = plain name
  translate allow (t ∷ ts) name = first_of (rule_for allow t name) t (translate allow ts name)

  -- A config, by its name, and what its payload is read as.
  abbrev pub Config : Type 0
  Config = Str × Result ImageTranslation

  unfoldable pub load_payloads : List Config → Dict ImageTranslation → Dict ImageTranslation
  load_payloads [] m = m
  load_payloads ((name, ok body) ∷ cs) m = load_payloads cs (insert name body m)
  load_payloads ((name, err e) ∷ cs) m = load_payloads cs m
  load_payloads ((name, fault x) ∷ cs) m = load_payloads cs m

  -- LoadConfigs, of the configs that each source gives.
  unfoldable pub load_configs :
      List (Result (List Config)) → Dict ImageTranslation → Dict ImageTranslation
  load_configs [] m = m
  load_configs (ok cs ∷ sources) m = load_configs sources (load_payloads cs m)
  load_configs (err e ∷ sources) m = load_configs sources m
  load_configs (fault x ∷ sources) m = load_configs sources m
