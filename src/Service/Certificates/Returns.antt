-- ===== src/Service/Certificates/Returns.antt =====
-- internal/service/certificate.go: runs of `Revoke` and `ReleaseHold` where no query fails.
use certio.Prelude.{◌≡◌, refl, Bool, true, false, [], some, String, ℕ, arith, first}
use certio.Text.{Text}
use certio.Store.{find, has_key-first, delete}
use certio.Store.Models.{Authority, Certificate, Revocation, active}
use certio.Store.Exec.{
  World, ok, Exec, pure, fail_if, query, try, ◌>>=◌, select_first, write, write_if, record_audit,
}
use certio.Store.Repos.{certificate_key, authority_key, revocation_key}
use certio.Store.Repos.Certificates
use certio.Store.Repos.Revocations
use certio.Store.Repos.Revocations.{is_of}
use certio.Service.Crl.{Engine, publish}
use certio.Service.Certificates.{is_held, release_hold, derive_status}

bind_ok :
    {A B : Type 0} (m : Exec A) (f : A → Exec B) (w : World) (a : A)
    → (m w).0 ≡ ok a
    → ((m >>= f) w).0 ≡ (f a (m w).1).0
unfolding ◌>>=◌
bind_ok m f w a e = rw e refl

module _ (engine : Engine) (now validity : ℕ) where
  publish_returns :
      (skip : Bool) (ca : Authority) (passphrase : Text) (w : World)
      → (publish engine now validity skip ca passphrase w).0 ≡ ok tt
  unfolding publish ◌>>=◌ try pure
  publish_returns skip ca passphrase w = ground arith

  -- The row of the revocation that is made.
  abbrev pub made : String → String → ℕ → Certificate → Revocation
  made new_id actor_id code cert = record {
    id = new_id;
    certificate_id = cert.id;
    authority_id = cert.authority_id;
    serial_number = cert.serial_number;
    reason_code = code;
    revoked_at = now;
    revoked_by = actor_id;
  }

  -- The row of a certificate that is released.
  abbrev pub restored : ℕ → Certificate → Certificate
  restored warn_days cert =
      let fresh : Certificate = record cert { status = active } in
      record fresh { status = derive_status now warn_days fresh }

  -- Where no query fails, the release of a held certificate that is there with its authority and its
  -- revocation goes through, and returns the row with the status that its dates give it.
  pub release_hold-returns :
      (warn_days : ℕ) (id : String) (passphrase : Text) (w : World) (cert : Certificate)
      (ca : Authority) (rev : Revocation)
      → find certificate_key id w.certificates ≡ some cert
      → find authority_key cert.authority_id w.authorities ≡ some ca
      → is_held cert.status ≡ true
      → first (is_of cert.id) w.revocations ≡ some rev
      → (release_hold engine now validity warn_days id passphrase (record w { faults = [] })).0
        ≡ ok (restored warn_days cert)
  unfolding release_hold fail_if ◌>>=◌ Certificates.get_with_authority Certificates.get select_first
      query Revocations.by_certificate Revocations.delete write_if Certificates.update write
      record_audit pure
  release_hold-returns warn_days id passphrase w cert ca rev found issued held listed =
      rw
        (
          found,
          issued,
          held,
          listed,
          has_key-first revocation_key (is_of cert.id) w.revocations rev listed,
        )
        (bind_ok (publish engine now validity false ca passphrase)
          (λ _. pure (restored warn_days cert)) _ tt (publish_returns false ca passphrase _))
