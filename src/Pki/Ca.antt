-- ===== src/Pki/Ca.antt =====
-- internal/pki/ca.go: authorities. What the code calls of crypto/x509, of PEM and of the generators of
-- keys is the record `CaProvider`; the clock and the numbers that are drawn for a serial number are
-- arguments. A number of days or a length of a path is not negative.
use certio.Prelude.{
  ℕ, ◌+◌, ◌-◌, ◌*◌, Bool, true, false, ◌&&◌, ◌||◌, List, [], ◌∷◌, Option, none, some, is_empty, any,
}
use certio.Prelude.Attempts.{◌>>=◌, ◌>>◌, require}
use certio.Text.{Text, txt}
use certio.Pki.Constraints.{Networks, NameConstraints, is_zero, normalize, validate, parse_cidrs}
use certio.Pki.Subject.{Subject, validate_subject, normalize_subject}
use certio.Pki.Profile.{lookup_profile}
use certio.Pki.Keys.{KeySpec}
use certio.Pki.Sign.{
  Template, X509, check_issuer_can_sign, generate_serial, clock_skew, is_cert_sign, or_days,
}

pub record CaProvider (x509 : X509) : Type 1 where
  pub generate_key : KeySpec → Option x509.PrivateKey
  pub create_root : Template → x509.PublicKey → x509.PrivateKey → Option x509.Cert
  pub raw_constraints_of : x509.Cert → NameConstraints
  pub path_len_of : x509.Cert → Option ℕ
  pub issuer_name_of : x509.Cert → Text
  pub parse_certificates : Text → Option (List x509.Cert)
  pub parse_private_key : Text → Option x509.PrivateKey
  pub key_spec_of : x509.PrivateKey → Option KeySpec
  pub key_matches : x509.PrivateKey → x509.Cert → Bool
  pub is_self_signed : x509.Cert → Bool

pub record CaRequest : Type 0 where
  pub subject : Subject
  pub key_spec : KeySpec
  pub validity_days : ℕ
  pub max_path_len : Option ℕ
  pub crl_distribution_points : List Text
  pub ocsp_server : List Text
  pub name_constraints : NameConstraints

module _ (networks : Networks) (now : ℕ) (draws : List (Option ℕ)) where
  abbrev is_parsed : Option (List networks.Net) → Bool
  is_parsed none = false
  is_parsed (some nets) = true

  abbrev are_signable : NameConstraints → Bool
  are_signable constraints =
      is_zero constraints
      || (validate networks constraints
          && is_parsed (parse_cidrs networks constraints.permitted_ip)
          && is_parsed (parse_cidrs networks constraints.excluded_ip))

  unfoldable pub ca_template : CaRequest → Option Template
  unfolding normalize validate is_zero parse_cidrs
  ca_template req = do
    serial ← generate_serial draws
    profile ← lookup_profile (txt "root")
    let constraints = normalize req.name_constraints
    require (are_signable constraints)
    some (record {
      serial_number = serial;
      subject = req.subject;
      not_before = now - clock_skew;
      not_after = (now - clock_skew) + req.validity_days * 86400;
      key_usage = profile.key_usage;
      ext_key_usage = [];
      is_ca = true;
      max_path_len = req.max_path_len;
      name_constraints = constraints;
      sans = [];
      crl_distribution_points = req.crl_distribution_points;
      ocsp_server = req.ocsp_server;
    })

module _ (x509 : X509) (ca : CaProvider x509) (networks : Networks) (now : ℕ)
    (draws : List (Option ℕ)) where
  open x509 use {PrivateKey, Cert, public, issuer_of, create_certificate}
  open ca use {
    generate_key, create_root, raw_constraints_of, parse_certificates, parse_private_key,
    key_matches, is_self_signed,
  }

  abbrev normal : CaRequest → ℕ → CaRequest
  normal req days = record req {
    subject = normalize_subject req.subject;
    validity_days = or_days req.validity_days days;
  }

  unfoldable pub create_root_ca : CaRequest → Option (Cert × PrivateKey)
  unfolding normalize_subject validate_subject ca_template
  create_root_ca req = do
    let wanted = normal req 3650
    require (validate_subject wanted.subject)
    key ← generate_key req.key_spec
    template ← ca_template networks now draws wanted
    cert ← create_root template (public key) key
    some (cert, key)

  -- Of an authority and its key.
  unfoldable pub create_intermediate_ca : Cert → PrivateKey → CaRequest → Option (Cert × PrivateKey)
  unfolding normalize_subject validate_subject ca_template check_issuer_can_sign
  create_intermediate_ca parent parent_key req = do
    let wanted = normal req 1825
    require (validate_subject wanted.subject)
    key ← generate_key req.key_spec
    template ← ca_template networks now draws wanted
    require (check_issuer_can_sign now (issuer_of parent) template.not_after true)
    cert ← create_certificate template parent (public key) parent_key
    some (cert, key)

  unfoldable pub constraints_of : Cert → NameConstraints
  unfolding normalize
  constraints_of cert = normalize (raw_constraints_of cert)

  abbrev leaf_of : List Cert → Option (Cert × List Cert)
  leaf_of [] = none
  leaf_of (leaf ∷ chain) = some (leaf, chain)

  -- The certificate, its key and the certificates above it.
  unfoldable pub import_ca : Text → Text → Option (Cert × PrivateKey × List Cert)
  import_ca cert_pem key_pem = do
    certs ← parse_certificates cert_pem
    (leaf, chain) ← leaf_of certs
    key ← parse_private_key key_pem
    require (issuer_of leaf).is_ca
    require (is_empty (issuer_of leaf).key_usage || any is_cert_sign (issuer_of leaf).key_usage)
    require (key_matches key leaf)
    some (leaf, key, chain)

  unfoldable pub is_root : Cert → List Cert → Bool
  is_root cert chain = is_empty chain && is_self_signed cert
