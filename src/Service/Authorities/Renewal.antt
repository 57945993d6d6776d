-- ===== src/Service/Authorities/Renewal.antt =====
-- internal/service/authority.go: the renewal of authorities.
pub mod Signing
pub mod Renewed
use certio.Service.Loading.{or_fail, load_ca}
use certio.Prelude.{ℕ, ◌-◌, ◌/◌, List, [], Option, none, some, String, str_eq, if◌then◌else◌, ◌==◌}
use certio.Text.{Text, txt}
use certio.Pki.San.{Parsers}
use certio.Pki.Sign.{IssueRequest, sign_public_key}
use certio.Store.Models.{Authority, active}
use certio.Store.Exec.{validation, Exec, pure, fail, fail_if, ◌>>=◌, ◌>>◌, record_audit, ca_renew}
use certio.Store.Repos.Authorities
use certio.Store.Repos.Certificates.{day}
use certio.Service.Issuance.{Provider, keyring}
use certio.Service.Authorities.{RenewAuthorityInput}

module _ (provider : Provider) (parsers : Parsers) (now : ℕ) (draws : List (Option ℕ)) where
  open provider use {x509, columns_of, subject_of}
  open x509 use {Cert, PrivateKey, public}

  -- A request for the same subject, and nothing else of the old certificate.
  abbrev pub renewal_of : Text → Cert → ℕ → IssueRequest
  renewal_of profile cert days = record {
    subject = subject_of cert;
    sans = [];
    profile = profile;
    validity_days = days;
    not_before = none;
    key_usage = [];
    ext_key_usage = [];
    crl_distribution_points = [];
    ocsp_server = [];
  }

  abbrev pub days_of : ℕ → Authority → ℕ
  days_of requested row =
      if requested == 0 then (row.not_after - row.not_before) / day else requested

  abbrev pub sign_again : Text → Cert → PrivateKey → Cert → PrivateKey → ℕ → Exec Cert
  sign_again profile signer signer_key cert key days = or_fail validation (
      sign_public_key x509 parsers now draws signer signer_key (public key)
        (renewal_of profile cert days))

  -- By its parent.
  abbrev pub sign_by_parent : Option String → Text → Cert → PrivateKey → ℕ → Exec Cert
  sign_by_parent none passphrase cert key days = fail validation
  sign_by_parent (some parent_id) passphrase cert key days = do
    parent ← Authorities.get parent_id
    (parent_cert, parent_key) ← load_ca (keyring provider) parent passphrase
    sign_again (txt "intermediate") parent_cert parent_key cert key days

  abbrev pub renewed_row : Cert → Authority → Authority
  renewed_row cert row = record row {
    cert_pem = (columns_of cert).pem;
    serial_number = (columns_of cert).serial_number;
    not_before = (columns_of cert).not_before;
    not_after = (columns_of cert).not_after;
    fingerprint = (columns_of cert).fingerprint;
    status = active;
  }

  -- A root signs itself, with the certificate that it has.
  unfoldable pub renew_authority : String → RenewAuthorityInput → Exec Authority
  unfolding load_ca sign_public_key fail_if
  renew_authority id input = do
    row ← Authorities.resolve id
    fail_if input.rekey validation
    (cert, key) ← load_ca (keyring provider) row input.passphrase
    let days = days_of input.validity_days row
    renewed ←
        if str_eq row.type "root"
        then sign_again (txt "root") cert key cert key days
        else sign_by_parent row.parent_id input.parent_passphrase cert key days
    Authorities.update (renewed_row renewed row)
    record_audit ca_renew row.id
    pure (renewed_row renewed row)
