-- ===== src/Service/Issue.antt =====
-- internal/service/certificate.go: what is checked before a certificate is signed, and the row that
-- is written for it. A certificate that x509 made is the record `Signed`; the seal of its key and
-- the identifier that `BeforeCreate` assigns are arguments.
pub mod Window
pub mod Names
mod Tests
use certio.Prelude.{
  ℕ, ◌-◌, ◌/◌, Bool, true, false, not, ◌&&◌, ◌||◌, List, Option, none, some, String, if◌then◌else◌,
  ltb, leb, ◌==◌, is_empty,
}
use certio.Text.{Text, contains}
use certio.Pki.San.{San, SanSet}
use certio.Pki.Constraints.{Networks, NameConstraints, is_zero, permits_dns, permits_sans}
use certio.Store.Models.{Certificate, active}
use certio.Store.Exec.{Exec, pure, ◌>>=◌, ◌>>◌}
use certio.Store.Repos.Certificates
use certio.Store.Repos.Certificates.{day}

-- "." and " ".
abbrev dot : ℕ
dot = 46

abbrev space : ℕ
space = 32

-- A common name that looks like a hostname.
abbrev pub is_hostname : Text → Bool
is_hostname name = not (is_empty name) && contains dot name && not (contains space name)

abbrev pub has_refusal : Option San → Bool
has_refusal none = false
has_refusal (some _) = true

module _ (networks : Networks) where
  -- Whether the authority refuses the names.
  unfoldable pub check_name_constraints : NameConstraints → Text → SanSet → Bool
  check_name_constraints constraints common_name sans =
      if is_zero constraints
      then false
      else has_refusal (permits_sans networks constraints sans)
        || (is_hostname common_name && not (permits_dns constraints common_name))

-- A window that is not given is thirty days; one that is not shorter than the life of the
-- certificate is cut to half of it, and at least a day.
unfoldable pub renewal_window : Bool → ℕ → ℕ → ℕ
renewal_window auto_renew validity_days requested =
    let window = if requested == 0 then 30 else requested in
    let half = validity_days / 2 in
    if auto_renew && ltb 0 validity_days && leb validity_days window
    then (if ltb half 1 then 1 else half)
    else window

pub record Signed : Type 0 where
  pub common_name : Text
  pub serial_number : String
  pub sans : SanSet
  pub not_before : ℕ
  pub not_after : ℕ
  pub pem : Text
  pub fingerprint : String

-- What a caller asks for beside the certificate. A profile that is empty is read off it.
pub record IssueInput : Type 0 where
  pub profile : Text
  pub auto_renew : Bool
  pub renew_before_days : ℕ
  pub labels : List (String × String)
  pub notes : Text

abbrev pub default_text : Text → Text → Text
default_text value other = if is_empty value then other else value

-- Whole days; 0 where x509 has the dates the wrong way round.
unfoldable pub validity_days_of : Signed → ℕ
validity_days_of cert = (cert.not_after - cert.not_before) / day

unfoldable pub certificate_row :
    String → String → Text → Signed → Option Text → IssueInput → Option String → Certificate
certificate_row new_id ca_id inferred cert key input renewed_from = record {
  id = new_id;
  authority_id = ca_id;
  common_name = cert.common_name;
  profile = default_text input.profile inferred;
  serial_number = cert.serial_number;
  sans = cert.sans;
  not_before = cert.not_before;
  not_after = cert.not_after;
  validity_days = validity_days_of cert;
  cert_pem = cert.pem;
  key = key;
  fingerprint = cert.fingerprint;
  status = active;
  auto_renew = input.auto_renew;
  renew_before_days =
      renewal_window input.auto_renew (validity_days_of cert) input.renew_before_days;
  renewed_from_id = renewed_from;
  key_download_count = 0;
  last_downloaded_at = none;
  labels = input.labels;
  notes = input.notes;
}

unfoldable pub persist_certificate :
    String → String → Text → Signed → Option Text → IssueInput → Option String → Exec Certificate
unfolding certificate_row renewal_window validity_days_of
persist_certificate new_id ca_id inferred cert key input renewed_from = do
  Certificates.create (certificate_row new_id ca_id inferred cert key input renewed_from)
  pure (certificate_row new_id ca_id inferred cert key input renewed_from)
