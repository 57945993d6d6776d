-- ===== src/Service/Ocsp.antt =====
-- internal/service/ocsp.go: the answer to a status query. The decoder of a query, its match against
-- the issuer and the signer of a response are the record `Responder`; the clock is an argument.
pub mod Answers
use certio.Prelude.{ℕ, ◌+◌, Bool, not, [], Option, String}
use certio.Text.{Text}
use certio.Store.Models.{Certificate, Revocation}
use certio.Store.Exec.{
  Result, ok, err, not_found, validation, ocsp_unauthorized, unusable, Exec, pure, fail, fail_if,
  try, ◌>>=◌, ◌>>◌,
}
use certio.Store.Repos.Authorities
use certio.Store.Repos.Certificates
use certio.Store.Repos.Revocations
use certio.Service.Loading.{or_fail, load_ca}
use certio.Service.Crl.{Engine}

-- `OCSPRevoked` has the time and the reason of the revocation.
pub data OcspStatus : Type 0 where
  good unknown : OcspStatus
  revoked_at : ℕ → ℕ → OcspStatus

pub record OcspResponse : Type 0 where
  pub serial_number : ℕ
  pub this_update : ℕ
  pub next_update : ℕ
  pub status : OcspStatus

pub record Responder (engine : Engine) : Type 1 where
  pub Query : Type 0
  pub parse_query : Text → Option Query
  pub serial_number : Query → ℕ
  pub format_serial : ℕ → String
  pub matches_issuer : Query → engine.keyring.Cert → Bool
  pub sign_response :
      engine.keyring.Cert → engine.keyring.PrivateKey → Query → OcspResponse → Option Text

-- An hour.
abbrev pub ocsp_validity : ℕ
ocsp_validity = 3600

abbrev pub status_of : Result Revocation → Exec OcspStatus
status_of (ok rev) = pure (revoked_at rev.revoked_at rev.reason_code)
status_of (err not_found) = pure good
status_of (err e) = fail e

abbrev pub status_found : Result Certificate → Exec OcspStatus
status_found (ok cert) = do rev ← try (Revocations.by_certificate cert.id); status_of rev
status_found (err not_found) = pure unknown
status_found (err e) = fail e

unfoldable pub ocsp_status : String → String → Exec OcspStatus
ocsp_status authority_id serial = do
  cert ← try (Certificates.get_by_serial authority_id serial)
  status_found cert

module _ (engine : Engine) (responder : Responder engine) (now : ℕ) where
  open responder use {parse_query, serial_number, format_serial, matches_issuer, sign_response}

  unfoldable pub ocsp_respond : String → Text → Exec Text
  unfolding ocsp_status load_ca fail_if
  ocsp_respond authority_id der = do
    req ← or_fail validation (parse_query der)
    row ← Authorities.resolve authority_id
    fail_if row.passphrase_protected ocsp_unauthorized
    (ca, key) ← load_ca engine.keyring row []
    fail_if (not (matches_issuer req ca)) ocsp_unauthorized
    status ← ocsp_status row.id (format_serial (serial_number req))
    let response : OcspResponse = record {
      serial_number = serial_number req;
      this_update = now;
      next_update = now + ocsp_validity;
      status = status;
    }
    or_fail unusable (sign_response ca key req response)
