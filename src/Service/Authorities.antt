-- ===== src/Service/Authorities.antt =====
-- internal/service/authority.go: authorities. The keyring, PEM and crypto/x509 are the records
-- `Provider` and `CaProvider`; the clock, the numbers that are drawn for a serial number and the
-- identifier of the row are arguments.
pub mod Slugs
pub mod Creation
pub mod Renewal
mod Tests
use certio.Prelude.{
  ℕ, ◌+◌, ◌*◌, ◌/◌, Bool, true, false, ◌&&◌, ◌||◌, List, [], ◌∷◌, ◌++◌, Option, none, some, String,
  str_eq, if◌then◌else◌, is_empty, ltb, ◌==◌,
}
use certio.Text.{Text, txt}
use certio.Pki.Constraints.{NameConstraints}
use certio.Pki.Subject.{Subject}
use certio.Store.Models.{Authority, Status, active, expiring, expired, revoked}
use certio.Store.Exec.{
  Result, ok, err, not_found, Exec, pure, fail, try, ◌>>=◌, ◌>>◌, record_audit, ca_update,
  ca_delete,
}
use certio.Store.Repos.Authorities
use certio.Store.Repos.Certificates.{day}
use certio.Service.Crl.{Engine, generate_crl}
use certio.Service.Certificates.{status_eq}

pub record CreateAuthorityInput : Type 0 where
  pub name : Text
  pub slug : Text
  pub description : Text
  pub type : String
  pub parent_id : String
  pub parent_passphrase : Text
  pub subject : Subject
  pub key_algorithm : Text
  pub validity_days : ℕ
  pub max_path_len : Option ℕ
  pub passphrase : Text
  pub crl_distribution : List Text
  pub ocsp_server : List Text
  pub name_constraints : NameConstraints

abbrev or_root : String → String
or_root type = if str_eq type "" then "root" else type

-- strings.TrimRight with "/"
unfoldable pub trim_slashes : Text → Text
trim_slashes [] = []
trim_slashes (c ∷ s) =
    let rest = trim_slashes s in if is_empty rest && c == b'/' then [] else c ∷ rest

unfoldable pub public_ca_url : Text → String → String → Text
unfolding trim_slashes
public_ca_url base_url id suffix =
    if is_empty base_url
    then []
    else trim_slashes base_url ++ (txt "/ca/" ++ (txt id ++ b'/' ∷ txt suffix))

pub record ImportAuthorityInput : Type 0 where
  pub name : Text
  pub slug : Text
  pub description : Text
  pub cert_pem : Text
  pub key_pem : Text
  pub passphrase : Text

pub record RenewAuthorityInput : Type 0 where
  pub validity_days : ℕ
  pub rekey : Bool
  pub passphrase : Text
  pub parent_passphrase : Text

-- The fields of a request that are present.
pub record UpdateAuthorityInput : Type 0 where
  pub name : Option Text
  pub description : Option Text
  pub crl_url : Option Text
  pub ocsp_url : Option Text

abbrev given : Text → Option Text → Text
given old none = old
given old (some new) = new

abbrev pub edited : UpdateAuthorityInput → Authority → Authority
edited input row = record row {
  name = given row.name input.name;
  description = given row.description input.description;
  crl_url = given row.crl_url input.crl_url;
  ocsp_url = given row.ocsp_url input.ocsp_url;
}

unfoldable pub update_authority : String → UpdateAuthorityInput → Exec Authority
update_authority id input = do
  row ← Authorities.resolve id
  Authorities.update (edited input row)
  record_audit ca_update row.id
  pure (edited input row)

abbrev or_refused : String → Result (Unit {0}) → Exec (Unit {0})
or_refused id (ok done) = record_audit ca_delete id
or_refused id (err e) = do record_audit ca_delete id; fail e

-- Recorded whether or not it was refused.
unfoldable pub delete_authority : String → Bool → Exec (Unit {0})
delete_authority id force = do
  row ← Authorities.resolve id
  deleted ← try (Authorities.delete row.id force)
  or_refused row.id deleted

-- The status by the clock.
unfoldable pub authority_status : ℕ → ℕ → Authority → Status
authority_status now warn_days row =
    if ltb row.not_after now
    then expired
    else if ltb row.not_after (now + warn_days * day)
    then expiring
    else active

abbrev is_revoked_status : Status → Bool
is_revoked_status revoked = true
is_revoked_status _ = false

unfoldable pub refresh_authorities : ℕ → ℕ → ℕ → List Authority → Exec ℕ
unfolding authority_status
refresh_authorities now warn_days changed [] = pure changed
refresh_authorities now warn_days changed (row ∷ rows) =
    let want = authority_status now warn_days row in
    let same = refresh_authorities now warn_days changed rows in
    let different = (do
      Authorities.update (record row { status = want })
      refresh_authorities now warn_days (changed + 1) rows) in
    if is_revoked_status row.status || status_eq row.status want then same else different

unfoldable pub refresh_authority_statuses : ℕ → ℕ → Exec ℕ
unfolding refresh_authorities
refresh_authority_statuses now warn_days = do
  rows ← Authorities.all
  refresh_authorities now warn_days 0 rows

-- The list that is stored; one is made at the first request, where that needs no passphrase.
module _ (engine : Engine) (now : ℕ) (encode_crl : Text → Text) where
  abbrev made_for : ℕ → Authority → Exec Text
  made_for validity row = do der ← generate_crl engine now validity row.id []; pure (encode_crl der)

  abbrev stored_or : ℕ → Authority → Option Text → Exec Text
  stored_or validity row (some der) = pure (encode_crl der)
  stored_or validity row none =
      if row.passphrase_protected then fail not_found else made_for validity row

  unfoldable pub crl_for : ℕ → String → Exec Text
  unfolding generate_crl
  crl_for validity id = do row ← Authorities.resolve id; stored_or validity row row.crl
