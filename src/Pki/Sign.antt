-- ===== src/Pki/Sign.antt =====
-- internal/pki/sign.go, and the checks of the issuer and the serial number of ca.go. What the code
-- calls of crypto/x509, of the generators of keys and of `net/url` is the record `X509`; the clock and
-- the random numbers that are drawn are arguments.
pub mod Within
use certio.Prelude.{
  ℕ, zero, suc, ◌+◌, ◌-◌, ◌*◌, Bool, true, false, not, ◌&&◌, ◌||◌, List, [], ◌∷◌, Option, none,
  some, if◌then◌else◌, ltb, ◌==◌, is_empty, any, all,
}
use certio.Prelude.Attempts.{◌>>=◌, ◌>>◌, require}
use certio.Text.{Text}
use certio.Pki.San.{San, SanSet, dns, ip, email, uri, Parsers, add_dns, validate_set}
use certio.Pki.Profile.{
  KeyUsage, ExtKeyUsage, cert_sign, lookup_profile, parse_key_usages, parse_ext_key_usages,
}
use certio.Pki.Constraints.{NameConstraints, no_constraints}
use certio.Pki.Subject.{Subject, validate_subject, normalize_subject}

-- What the checks read of the certificate of an authority.
pub record Issuer : Type 0 where
  pub not_before : ℕ
  pub not_after : ℕ
  pub is_ca : Bool
  pub key_usage : List KeyUsage
  pub max_path_len_zero : Bool

pub record IssueRequest : Type 0 where
  pub subject : Subject
  pub sans : SanSet
  pub profile : Text
  pub validity_days : ℕ
  pub not_before : Option ℕ
  pub key_usage : List Text
  pub ext_key_usage : List Text
  pub crl_distribution_points : List Text
  pub ocsp_server : List Text

-- The certificate that crypto/x509 is asked for. The key identifier and the algorithm of the
-- signature are read off the keys there.
pub record Template : Type 0 where
  pub serial_number : ℕ
  pub subject : Subject
  pub not_before : ℕ
  pub not_after : ℕ
  pub key_usage : List KeyUsage
  pub ext_key_usage : List ExtKeyUsage
  pub is_ca : Bool
  pub max_path_len : Option ℕ
  pub name_constraints : NameConstraints
  pub sans : SanSet
  pub crl_distribution_points : List Text
  pub ocsp_server : List Text

abbrev pub is_cert_sign : KeyUsage → Bool
is_cert_sign cert_sign = true
is_cert_sign _ = false

unfoldable pub check_issuer_can_sign : ℕ → Issuer → ℕ → Bool → Bool
check_issuer_can_sign now issuer not_after for_ca =
    not (ltb now issuer.not_before)
    && not (ltb issuer.not_after now)
    && issuer.is_ca
    && (is_empty issuer.key_usage || any is_cert_sign issuer.key_usage)
    && not (ltb issuer.not_after not_after)
    && not (for_ca && issuer.max_path_len_zero)

-- The rounds of `GenerateSerial`, over the numbers that the generator draws; it may fail.
unfoldable pub draw_serial : ℕ → List (Option ℕ) → Option ℕ
draw_serial zero draws = none
draw_serial (suc rounds) [] = none
draw_serial (suc rounds) (none ∷ draws) = none
draw_serial (suc rounds) (some n ∷ draws) =
    let rest = draw_serial rounds draws in if ltb 0 n then some n else rest

abbrev pub generate_serial : List (Option ℕ) → Option ℕ
generate_serial draws = draw_serial 8 draws

abbrev pub clock_skew : ℕ
clock_skew = 5 * 60

abbrev or_now : ℕ → Option ℕ → ℕ
or_now now none = now - clock_skew
or_now now (some start) = start

abbrev pub or_days : ℕ → ℕ → ℕ
or_days days other = if days == 0 then other else days

-- What a request names, or what the profile presets.
module _ {A : Type 0} where
  abbrev pub usage_of : (List Text → Option (List A)) → List Text → List A → Option (List A)
  usage_of parse [] preset = some preset
  usage_of parse (name ∷ names) preset = parse (name ∷ names)

pub record X509 : Type 1 where
  pub PublicKey : Type 0
  pub PrivateKey : Type 0
  pub Cert : Type 0
  pub is_url : Text → Bool
  pub public : PrivateKey → PublicKey
  pub issuer_of : Cert → Issuer
  pub create_certificate : Template → Cert → PublicKey → PrivateKey → Option Cert

module _ (parsers : Parsers) (is_url : Text → Bool) where
  -- The errors of `Split`.
  abbrev splits : San → Bool
  splits s = elim s.type [
    | dns ↦ true
    | ip ↦ parsers.is_ip s.value
    | email ↦ true
    | uri ↦ is_url s.value
  ]

  -- The common name joins the names of a leaf if it is a DNS name, and they are checked.
  unfoldable pub names_of : Bool → Subject → SanSet → Option SanSet
  unfolding add_dns validate_set
  names_of true subject sans = some sans
  names_of false subject sans = do
    require (validate_set parsers (add_dns sans subject.common_name))
    some (add_dns sans subject.common_name)

  -- `SignPublicKey` up to the signature.
  unfoldable pub template_of : ℕ → List (Option ℕ) → Issuer → IssueRequest → Option Template
  unfolding lookup_profile names_of check_issuer_can_sign draw_serial normalize_subject
      validate_subject
  template_of now draws issuer req = do
    profile ← lookup_profile req.profile
    let subject : Subject = normalize_subject req.subject
    require (validate_subject subject)
    sans ← names_of profile.is_ca subject req.sans
    require (all splits sans)
    key_usage ← usage_of parse_key_usages req.key_usage profile.key_usage
    ext_key_usage ← usage_of parse_ext_key_usages req.ext_key_usage profile.ext_key_usage
    let not_before : ℕ = or_now now req.not_before
    let not_after : ℕ = not_before + or_days req.validity_days profile.validity_days * 86400
    require (check_issuer_can_sign now issuer not_after profile.is_ca)
    serial ← generate_serial draws
    some (record {
      serial_number = serial;
      subject = subject;
      not_before = not_before;
      not_after = not_after;
      key_usage = key_usage;
      ext_key_usage = ext_key_usage;
      is_ca = profile.is_ca;
      max_path_len = none;
      name_constraints = no_constraints;
      sans = sans;
      crl_distribution_points = req.crl_distribution_points;
      ocsp_server = req.ocsp_server;
    })

module _ (x509 : X509) (parsers : Parsers) (now : ℕ) (draws : List (Option ℕ)) where
  open x509 use {PublicKey, PrivateKey, Cert, is_url, issuer_of, create_certificate}

  -- An authority with its key.
  unfoldable pub sign_public_key : Cert → PrivateKey → PublicKey → IssueRequest → Option Cert
  unfolding template_of
  sign_public_key ca ca_key key req = do
    template ← template_of parsers is_url now draws (issuer_of ca) req
    create_certificate template ca key ca_key
