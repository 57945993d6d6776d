-- ===== src/Service/Certificates/Releasing.antt =====
-- internal/service/certificate.go: `ReleaseHold`, step by step between predicates on the tables of
-- certificates and revocations.
use certio.Prelude.{ℕ, ◌≡◌, refl, false, not, some, String, eq_iff, arith, any}
use certio.Text.{Text}
use certio.Store.{find, find-save, find-key}
use certio.Store.Models.{Certificate, Status, active}
use certio.Store.Exec.Triple.{
  Triple, Triple-pure, Triple-fail_if, Triple-bind, Triple-of, Triple-fact, Triple-weaken,
  Triple-select_first, Triple-write, Triple-record_audit,
}
use certio.Store.Repos.{is_revoked, certificate_key}
use certio.Store.Repos.Certificates
use certio.Store.Repos.Revocations
use certio.Store.Repos.Revocations.{is_of}
use certio.Service.Crl.{Engine}
use certio.Service.Crl.Frame.{Tables, on, on-IsStable, Stays-publish}
use certio.Service.Certificates.{is_held, release_hold, derive_status}
use certio.Service.Certificates.Invariant.{Sound, save-Sound}
use certio.Service.Certificates.Keeping.{
  Live, Unlisted, Triple-get_with_authority, Triple-delete-first,
}

-- A released certificate has no revocation, and reads as active, expiring or expired.
abbrev pub Released : String → Tables
Released id certs revs =
    Sound certs revs
    × (any (is_of id) revs ≡ false)
    × ((c : Certificate) × (find certificate_key id certs ≡ some c)
        × (is_revoked c.status ≡ false)
        × (is_held c.status ≡ false))

derive_status-live :
    (now warn_days : ℕ) (c : Certificate)
    → is_revoked c.status ≡ false
    → is_held c.status ≡ false
    → (is_revoked (derive_status now warn_days c) ≡ false)
      × (is_held (derive_status now warn_days c) ≡ false)
unfolding derive_status
derive_status-live now warn_days c h k = ground arith

Triple-restore :
    (c : Certificate) (s : Status)
    → is_revoked s ≡ false
    → is_held s ≡ false
    → Triple
        (on Sound)
        (on (Unlisted c.id c))
        (Certificates.update (record c { status = s }))
        (λ _. on (Released c.id))
unfolding Certificates.update
Triple-restore c s live loose =
    Triple-write (on-IsStable _) (λ w h. h.0.0) _
      λ w ((sound, found, _), unlisted).
        let c' : Certificate = record c { status = s } in
        (
          save-Sound w.certificates w.revocations c' sound (λ is. absurd (cc)),
          unlisted,
          (
            c',
            ground (arith, find-save certificate_key c' w.certificates c.id, eq_iff c.id c.id),
            live,
            loose,
          ),
        )

pub held_live : (s : Status) → not (is_held s) ≡ false → is_revoked s ≡ false
held_live s h = ground arith

module _ (engine : Engine) (now validity warn_days : ℕ) where
  -- From sound tables, and whatever queries the driver fails: a release that returns leaves tables
  -- that are sound, the certificate neither revoked nor held, and no revocation of it; one that fails
  -- leaves sound tables.
  pub Triple-release_hold :
      (id : String) (passphrase : Text)
      → Triple
          (on Sound)
          (on Sound)
          (release_hold engine now validity warn_days id passphrase)
          (λ _. on (Released id))
  unfolding release_hold Revocations.by_certificate
  Triple-release_hold id passphrase = Triple-bind (Triple-get_with_authority id) λ p.
      Triple-fact (λ w h. find-key certificate_key id w.certificates p.0 h.1)
        λ e. rw (← e) (
          Triple-bind (Triple-fail_if _ _ (λ w h. h.0)) λ _.
            Triple-bind
              (Triple-of (λ w h. (h.0.0, h.0.1, held_live _ h.1))
                (Triple-select_first (on-IsStable (Live p.0.id p.0)) (λ w h. h.0) _))
              λ rev. Triple-bind (Triple-delete-first p.0.id p.0 rev) λ _.
                let fresh : Certificate = record p.0 { status = active } in
                let (live, loose) = derive_status-live now warn_days fresh refl refl in
                Triple-bind (Triple-restore p.0 _ live loose) λ _.
                  Triple-bind (Triple-record_audit (on-IsStable _) _ _) λ _.
                    Triple-bind (Stays-publish _ engine now validity false p.1 passphrase)
                      λ _. Triple-pure _ (λ w h. h))

module _ (engine : Engine) (now validity : ℕ) where
  pub Stays-release_hold :
      (warn_days : ℕ) (id : String) (passphrase : Text)
      → Triple
          (on Sound)
          (on Sound)
          (release_hold engine now validity warn_days id passphrase)
          (λ _. on Sound)
  Stays-release_hold warn_days id passphrase =
      Triple-weaken (λ a w h. h.0) (Triple-release_hold engine now validity warn_days id passphrase)
