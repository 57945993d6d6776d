-- ===== src/Service/Certificates.antt =====
-- internal/service/certificate.go: revocation, holds, edits, downloads and the status refresh. The
-- clock and the identifiers that `BeforeCreate` assigns are arguments. Prometheus counters and log
-- lines are left out.
pub mod Invariant
pub mod Keeping
pub mod Releasing
pub mod Edits
pub mod Permanent
pub mod Requests
pub mod Returns
pub mod Downloads
use certio.Prelude.{
  ℕ, ◌+◌, ◌*◌, Bool, true, false, not, ◌&&◌, List, [], ◌∷◌, Option, none, some, String,
  if◌then◌else◌, ltb, leb, ◌==◌,
}
use certio.Text.{Text}
use certio.Store.Models.{Certificate, Revocation, Status, active, expiring, expired, revoked, held}
use certio.Store.Exec.{
  Result, ok, err, conflict, validation, forbidden, key_unavailable, Exec, pure, fail, fail_if, try,
  ◌>>=◌, ◌>>◌, record_audit, cert_revoke, cert_release_hold, cert_update, cert_delete, key_download,
  key_download_denied,
}
use certio.Store.Repos.{is_revoked}
use certio.Store.Repos.Certificates
use certio.Store.Repos.Certificates.{day}
use certio.Store.Repos.Revocations
use certio.Service.Crl.{Engine, publish}

abbrev pub is_held : Status → Bool
is_held held = true
is_held _ = false

abbrev pub reason_hold : ℕ
reason_hold = 6

-- The keys of `revocationReasons`: 7 is not assigned.
unfoldable pub valid_reason : ℕ → Bool
valid_reason code = leb code 10 && not (code == 7)

unfoldable pub derive_status : ℕ → ℕ → Certificate → Status
derive_status now warn_days c =
    if is_revoked c.status
    then revoked
    else if is_held c.status
    then held
    else if ltb c.not_after now
    then expired
    else if ltb c.not_after (now + warn_days * day)
    then expiring
    else active

abbrev pub drop_found : Result Revocation → Exec (Unit {0})
drop_found (ok existing) = Revocations.delete existing.id
drop_found (err _) = pure tt

-- The entry of a hold is replaced rather than duplicated.
unfoldable pub drop_hold : Certificate → Exec (Unit {0})
drop_hold cert =
    if is_held cert.status
    then (do existing ← try (Revocations.by_certificate cert.id); drop_found existing)
    else pure tt

abbrev pub status_for : ℕ → Status
status_for code = if code == reason_hold then held else revoked

module _ (engine : Engine) (now : ℕ) where
  unfoldable pub revoke : ℕ → String → String → String → ℕ → Text → Bool → Exec Revocation
  unfolding valid_reason drop_hold fail_if
  revoke validity new_id actor_id id code passphrase skip = do
    fail_if (not (valid_reason code)) validation
    (cert, ca) ← Certificates.get_with_authority id
    fail_if (is_revoked cert.status) conflict
    drop_hold cert
    let rev : Revocation = record {
      id = new_id;
      certificate_id = cert.id;
      authority_id = cert.authority_id;
      serial_number = cert.serial_number;
      reason_code = code;
      revoked_at = now;
      revoked_by = actor_id;
    }
    Revocations.create rev
    Certificates.update (record cert { status = status_for code })
    record_audit cert_revoke cert.id
    publish engine now validity skip ca passphrase
    pure rev

  unfoldable pub release_hold : ℕ → ℕ → String → Text → Exec Certificate
  unfolding derive_status fail_if
  release_hold validity warn_days id passphrase = do
    (cert, ca) ← Certificates.get_with_authority id
    fail_if (not (is_held cert.status)) conflict
    rev ← Revocations.by_certificate cert.id
    Revocations.delete rev.id
    let fresh : Certificate = record cert { status = active }
    let cert' : Certificate = record fresh { status = derive_status now warn_days fresh }
    Certificates.update cert'
    record_audit cert_release_hold cert.id
    publish engine now validity false ca passphrase
    pure cert'

-- The fields of a request that are present.
pub record Changes : Type 0 where
  pub labels : Option (List (String × String))
  pub notes : Option Text
  pub auto_renew : Option Bool
  pub renew_before_days : Option ℕ

module _ {A : Type 0} where
  abbrev pub given : A → Option A → A
  given old none = old
  given old (some new) = new

abbrev pub in_range : Option ℕ → Bool
in_range none = true
in_range (some days) = leb 1 days && leb days 365

abbrev pub apply_changes : Changes → Certificate → Certificate
apply_changes changes row = record row {
  labels = given row.labels changes.labels;
  notes = given row.notes changes.notes;
  auto_renew = given row.auto_renew changes.auto_renew;
  renew_before_days = given row.renew_before_days changes.renew_before_days;
}

unfoldable pub update_certificate : String → Changes → Exec Certificate
unfolding fail_if
update_certificate id changes = do
  row ← Certificates.get id
  fail_if (not (in_range changes.renew_before_days)) validation
  Certificates.update (apply_changes changes row)
  record_audit cert_update row.id
  pure (apply_changes changes row)

unfoldable pub delete_certificate : String → Exec (Unit {0})
delete_certificate id = do
  row ← Certificates.get id
  Certificates.delete id
  record_audit cert_delete row.id

pub data KeyPolicy : Type 0 where
  never once always : KeyPolicy

abbrev pub denied : KeyPolicy → Certificate → Bool
denied never cert = true
denied once cert = ltb 0 cert.key_download_count
denied always cert = false

abbrev pub has_private_key : Certificate → Bool
has_private_key cert = elim cert.key [ none ↦ false | some _ ↦ true ]

abbrev pub count_download : ℕ → ℕ → Certificate → Certificate
count_download now downloads row = record row {
  key_download_count = downloads;
  last_downloaded_at = some now;
}

-- `deny` of the code: the attempt is recorded.
unfoldable pub refuse : Bool → String → Exec (Unit {0})
refuse true id = do record_audit key_download_denied id; fail forbidden
refuse false id = pure tt

-- `cert` is the copy of the row that the handler loaded.
unfoldable pub authorize_key_download : ℕ → KeyPolicy → Certificate → Exec (Unit {0})
unfolding refuse fail_if
authorize_key_download now policy cert = do
  refuse (denied policy cert) cert.id
  fail_if (not (has_private_key cert)) key_unavailable
  Certificates.update_fields cert.id (count_download now (cert.key_download_count + 1))
  record_audit key_download cert.id

abbrev pub status_eq : Status → Status → Bool
status_eq active active = true
status_eq expiring expiring = true
status_eq expired expired = true
status_eq revoked revoked = true
status_eq held held = true
status_eq _ _ = false

abbrev pub set_status : Status → Certificate → Certificate
set_status s row = record row { status = s }

-- The loop of `RefreshCertificateStatuses`.
unfoldable pub refresh_rows : ℕ → ℕ → ℕ → List Certificate → Exec ℕ
unfolding derive_status
refresh_rows now warn_days changed [] = pure changed
refresh_rows now warn_days changed (row ∷ rows) =
    let want = derive_status now warn_days row in
    let same = refresh_rows now warn_days changed rows in
    let different = (do
      Certificates.update_fields row.id (set_status want)
      refresh_rows now warn_days (changed + 1) rows) in
    if status_eq row.status want then same else different

unfoldable pub refresh_certificate_statuses : ℕ → ℕ → Exec ℕ
unfolding refresh_rows
refresh_certificate_statuses now warn_days = do
  rows ← Certificates.expiring_before (now + warn_days * day)
  refresh_rows now warn_days 0 rows
