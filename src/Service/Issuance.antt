-- ===== src/Service/Issuance.antt =====
-- internal/service/certificate.go, authority.go and service.go: the issuance of a certificate whose
-- key is generated here. The keyring and the codec of PEM, with what is read off a certificate that
-- was made, are the record `Provider`; the clock, the numbers that are drawn for a serial number and
-- the identifier of the row are arguments.
pub mod Lookups
pub mod Issued
pub mod Renewal
pub mod Tests
use certio.Prelude.{
  ℕ, Bool, true, false, not, ◌&&◌, List, [], ◌∷◌, Option, none, some, String, if◌then◌else◌,
  is_empty, any,
}
use certio.Text.{Text, txt}
use certio.Pki.San.{SanSet, Parsers}
use certio.Pki.Constraints.{Networks}
use certio.Pki.Subject.{Subject, validate_subject, normalize_subject}
use certio.Pki.Profile.{ExtKeyUsage, server_auth, client_auth, code_signing, lookup_profile}
use certio.Pki.Keys.{KeySpec, parse_key_spec}
use certio.Pki.Sign.{IssueRequest, X509, sign_public_key}
use certio.Store.Models.{Authority, Certificate}
use certio.Store.Exec.{
  validation, unusable, Exec, pure, fail_if, ◌>>=◌, ◌>>◌, record_audit, cert_issue,
}
use certio.Store.Repos.Authorities
use certio.Service.Loading.{Keyring, or_fail, load_ca}
use certio.Service.Issue.{
  Signed, IssueInput, default_text, check_name_constraints, persist_certificate,
}

-- What is read off a certificate beside the columns of its row.
pub record Usages : Type 0 where
  pub is_ca : Bool
  pub self_signed : Bool
  pub ext_key_usage : List ExtKeyUsage

pub record Provider : Type 1 where
  pub x509 : X509
  open x509 use {Cert, PrivateKey}
  pub parse_certificate : Text → Option Cert
  pub columns_of : Cert → Signed
  pub usages_of : Cert → Usages
  pub spec_of : Cert → Option KeySpec
  pub subject_of : Cert → Subject
  pub generate_key : KeySpec → Option PrivateKey
  pub seal_key : PrivateKey → Text → Option Text
  pub open_key : Text → Text → Option PrivateKey
  pub marshal_key : PrivateKey → Option Text

-- The configured defaults.
pub record Defaults : Type 0 where
  pub key_algorithm : Text
  pub organization : Text
  pub country : Text

-- What a caller asks for.
pub record Order : Type 0 where
  pub authority_id : String
  pub ca_passphrase : Text
  pub subject : Subject
  pub sans : SanSet
  pub key_algorithm : Text
  pub validity_days : ℕ
  pub key_usage : List Text
  pub ext_key_usage : List Text
  pub input : IssueInput

unfoldable pub apply_subject_defaults : Defaults → Subject → Subject
unfolding normalize_subject
apply_subject_defaults defaults subject = normalize_subject (record subject {
  organization = default_text subject.organization defaults.organization;
  country = default_text subject.country defaults.country;
})

abbrev is_server : ExtKeyUsage → Bool
is_server server_auth = true
is_server _ = false

abbrev is_client : ExtKeyUsage → Bool
is_client client_auth = true
is_client _ = false

abbrev is_code_signing : ExtKeyUsage → Bool
is_code_signing code_signing = true
is_code_signing _ = false

unfoldable pub infer_profile : Usages → Text
infer_profile u =
    if u.is_ca
    then (if u.self_signed then txt "root" else txt "intermediate")
    else if any is_server u.ext_key_usage && any is_client u.ext_key_usage
    then txt "peer"
    else if any is_client u.ext_key_usage
    then txt "client"
    else if any is_code_signing u.ext_key_usage
    then txt "code-signing"
    else txt "server"

abbrev pub distribution_points : Text → List Text
distribution_points url = if is_empty url then [] else url ∷ []

module _ (provider : Provider) where
  open provider use {
    x509, parse_certificate, columns_of, usages_of, spec_of, generate_key, seal_key, open_key,
    marshal_key,
  }
  open x509 use {PublicKey, PrivateKey, public}

  -- What `LoadCA` uses of it.
  abbrev pub keyring : Keyring
  keyring = record {
    Cert = x509.Cert;
    PrivateKey = PrivateKey;
    parse_certificate = parse_certificate;
    open_key = open_key;
  }

  module _ (networks : Networks) (parsers : Parsers) (defaults : Defaults) (now : ℕ)
      (draws : List (Option ℕ)) where
    abbrev pub request_of : Authority → Text → Subject → Order → IssueRequest
    request_of ca profile subject order = record {
      subject = subject;
      sans = order.sans;
      profile = profile;
      validity_days = order.validity_days;
      not_before = none;
      key_usage = order.key_usage;
      ext_key_usage = order.ext_key_usage;
      crl_distribution_points = distribution_points ca.crl_url;
      ocsp_server = distribution_points ca.ocsp_url;
    }

    unfoldable pub issue : String → Order → Exec Certificate
    unfolding load_ca parse_key_spec lookup_profile apply_subject_defaults validate_subject
        check_name_constraints sign_public_key infer_profile persist_certificate fail_if
    issue new_id order = do
      ca ← Authorities.resolve order.authority_id
      (issuer, ca_key) ← load_ca keyring ca order.ca_passphrase
      spec ←
          or_fail validation
            (parse_key_spec (default_text order.key_algorithm defaults.key_algorithm))
      let profile : Text = default_text order.input.profile (txt "server")
      or_fail validation (lookup_profile profile)
      let subject : Subject = apply_subject_defaults defaults order.subject
      fail_if (not (validate_subject subject)) validation
      fail_if (check_name_constraints networks ca.name_constraints subject.common_name order.sans)
          validation
      key ← or_fail validation (generate_key spec)
      cert ← or_fail validation (
          sign_public_key x509 parsers now draws issuer ca_key (public key)
            (request_of ca profile subject order))
      or_fail unusable (spec_of cert)
      sealed ← or_fail unusable (seal_key key [])
      row ←
          persist_certificate new_id ca.id (infer_profile (usages_of cert)) (columns_of cert)
            (some sealed) order.input none
      or_fail unusable (marshal_key key)
      record_audit cert_issue row.id
      pure row
