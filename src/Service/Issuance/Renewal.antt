-- ===== src/Service/Issuance/Renewal.antt =====
-- internal/service/certificate.go and internal/pki/sign.go: the renewal of a certificate as a new row.
-- The deployment of the new certificate is an argument, since its result is only logged; the case of
-- a certificate that is not rekeyed and has no key is refused before the row is written.
pub mod Quiet
pub mod Rows
pub mod Linked
use certio.Service.Loading.{or_fail, load_ca, open_sealed_key}
use certio.Prelude.{
  ℕ, Bool, true, false, List, [], ◌∷◌, Option, none, some, String, if◌then◌else◌, ◌==◌,
}
use certio.Text.{Text}
use certio.Pki.San.{SanSet, Parsers}
use certio.Pki.Keys.{KeySpec, parse_key_spec}
use certio.Pki.Sign.{IssueRequest, sign_public_key}
use certio.Store.Models.{Authority, Certificate}
use certio.Store.Exec.{
  validation, unusable, Exec, pure, fail_if, try, ◌>>=◌, ◌>>◌, record_audit, cert_renew,
}
use certio.Store.Repos.{is_revoked}
use certio.Store.Repos.Certificates
use certio.Service.Issue.{IssueInput, default_text, persist_certificate}
use certio.Service.Issuance.{Provider, distribution_points, infer_profile, keyring}

pub record RenewInput : Type 0 where
  pub rekey : Bool
  pub key_algorithm : Text
  pub validity_days : ℕ
  pub sans : SanSet
  pub ca_passphrase : Text

-- What the new row takes over from the old one.
abbrev pub input_of : Certificate → IssueInput
input_of current = record {
  profile = current.profile;
  auto_renew = current.auto_renew;
  renew_before_days = current.renew_before_days;
  labels = current.labels;
  notes = current.notes;
}

abbrev pub set_auto_renew : Bool → Certificate → Certificate
set_auto_renew on c = record c { auto_renew = on }

abbrev or_sans : SanSet → SanSet → SanSet
or_sans [] other = other
or_sans (san ∷ sans) other = san ∷ sans

abbrev or_valid : ℕ → ℕ → ℕ
or_valid days other = if days == 0 then other else days

-- The superseded certificate stops renewing by itself; a failure is logged.
unfoldable pub stop_renewing : Certificate → Exec (Unit {0})
stop_renewing current =
    let stop = (do try (Certificates.update_fields current.id (set_auto_renew false)); pure tt) in
    if current.auto_renew then stop else pure tt

module _ (provider : Provider) where
  open provider use {
    x509, parse_certificate, columns_of, usages_of, spec_of, subject_of, generate_key, seal_key,
    marshal_key,
  }
  open x509 use {PrivateKey, public}

  -- The key of the old certificate, unless a new one is wanted.
  abbrev pub old_key : Bool → Certificate → Exec (Option PrivateKey)
  old_key true current = pure none
  old_key false current = do
    key ← open_sealed_key (keyring provider) current.key []
    pure (some key)

  abbrev pub wanted_spec : Bool → Text → Exec (Option KeySpec)
  wanted_spec false algorithm = pure none
  wanted_spec true [] = pure none
  wanted_spec true (c ∷ algorithm) = do
    spec ← or_fail validation (parse_key_spec (c ∷ algorithm))
    pure (some spec)

  abbrev pub new_key : Option PrivateKey → Option KeySpec → x509.Cert → Exec PrivateKey
  new_key (some key) spec cert = pure key
  new_key none (some spec) cert = or_fail validation (generate_key spec)
  new_key none none cert = do
    spec ← or_fail validation (spec_of cert)
    or_fail validation (generate_key spec)

  abbrev pub renewal_of : Authority → Certificate → x509.Cert → RenewInput → IssueRequest
  renewal_of ca current cert input = record {
    subject = subject_of cert;
    sans = or_sans input.sans (columns_of cert).sans;
    profile = default_text current.profile (infer_profile (usages_of cert));
    validity_days = or_valid input.validity_days current.validity_days;
    not_before = none;
    key_usage = [];
    ext_key_usage = [];
    crl_distribution_points = distribution_points ca.crl_url;
    ocsp_server = distribution_points ca.ocsp_url;
  }

  module _ (parsers : Parsers) (now : ℕ) (draws : List (Option ℕ))
      (deploy : String → Exec (Unit {0})) where
    unfoldable pub renew : String → String → RenewInput → Exec Certificate
    unfolding load_ca parse_key_spec infer_profile sign_public_key persist_certificate fail_if
        stop_renewing
    renew new_id id input = do
      (current, ca) ← Certificates.get_with_authority id
      fail_if (is_revoked current.status) validation
      (issuer, ca_key) ← load_ca (keyring provider) ca input.ca_passphrase
      cert ← or_fail unusable (parse_certificate current.cert_pem)
      kept ← old_key input.rekey current
      spec ← wanted_spec input.rekey input.key_algorithm
      key ← new_key kept spec cert
      renewed ← or_fail validation (
          sign_public_key x509 parsers now draws issuer ca_key (public key)
            (renewal_of ca current cert input))
      or_fail unusable (spec_of renewed)
      sealed ← or_fail unusable (seal_key key [])
      row ←
          persist_certificate new_id ca.id (infer_profile (usages_of renewed)) (columns_of renewed)
            (some sealed) (input_of current) (some current.id)
      stop_renewing current
      record_audit cert_renew row.id
      try (deploy row.id)
      or_fail unusable (marshal_key key)
      pure row
