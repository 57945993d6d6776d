-- ===== src/Service/Certificates/Permanent.antt =====
-- internal/service/certificate.go: the predicate that a certificate is revoked if it is there, through
-- `Revoke` and `ReleaseHold`.
pub mod Edits
use certio.Prelude.{
  ℕ, ◌≡◌, refl, sym, subst, ◌∙◌, Bool, true, false, List, some, String, eq_iff, arith,
}
use certio.Text.{Text}
use certio.Store.{find, save, delete, find-save, find-key, HasUniqueKeys, save-HasUniqueKeys}
use certio.Store.Models.{Certificate, Revocation}
use certio.Store.Exec.{World, Exec, Result, ok, err, record_audit, Action}
use certio.Store.Exec.Triple.{
  Triple, Triple-pure, Triple-fail_if, Triple-bind, Triple-if, Triple-of, Triple-fact,
  Triple-weaken, Triple-try, Triple-select_first, Triple-write, Triple-write_if,
  Triple-record_audit,
}
use certio.Store.Repos.{is_revoked, certificate_key}
use certio.Store.Repos.Certificates
use certio.Store.Repos.Revocations
use certio.Service.Crl.{Engine}
use certio.Service.Crl.Frame.{on, on-IsStable, Stays-publish}
use certio.Service.Certificates.{is_held, drop_found, drop_hold, revoke, release_hold}
use certio.Service.Certificates.Releasing.{held_live}

-- The rows have different keys, and the row of an id, if it is there, is revoked.
pub record Gone (id : String) (certs : List Certificate) (revs : List Revocation) : Type 0 where
  pub keys : HasUniqueKeys certificate_key certs
  pub reads :
      (c : Certificate) → find certificate_key id certs ≡ some c → is_revoked c.status ≡ true

module _ (id : String) where
  abbrev pub Stays : {A : Type 0} → Exec A → Type 0
  Stays m = Triple (on (Gone id)) (on (Gone id)) m (λ _. on (Gone id))

  -- A row may be written back if it is of another certificate, or revoked.
  save-Gone :
      (certs : List Certificate) (revs : List Revocation) (c : Certificate)
      → Gone id certs revs
      → (c.id ≡ id → is_revoked c.status ≡ true)
      → Gone id (save certificate_key c certs) revs
  save-Gone certs revs c g h = record {
    keys = save-HasUniqueKeys certificate_key c certs g.keys;
    reads = λ d found.
        ground (arith, find-save certificate_key c certs id, eq_iff c.id id, g.reads d, h);
  }

  pub Stays-update :
      (c : Certificate) → (c.id ≡ id → is_revoked c.status ≡ true) → Stays (Certificates.update c)
  unfolding Certificates.update
  Stays-update c h =
      Triple-write (on-IsStable (Gone id)) (λ w h. h) _
        (λ w g. save-Gone w.certificates w.revocations c g h)

  Stays-revocations :
      (f : World → World) (t : World → Bool) (e : certio.Store.Exec.Err)
      → ((w : World) → (f w).certificates ≡ w.certificates)
      → Stays (certio.Store.Exec.write_if t e f)
  Stays-revocations f t e same =
      Triple-write_if (on-IsStable (Gone id)) (λ w h. h) t e f
        (λ w _ g. record {
          keys = subst (HasUniqueKeys certificate_key) (sym (same w)) g.keys;
          reads = λ c found.
              g.reads c (subst (λ certs. find certificate_key id certs ≡ some c) (same w) found);
        })

  pub Stays-get :
      (j : String)
      → Triple
          (on (Gone id))
          (on (Gone id))
          (Certificates.get j)
          (λ c w. on (Gone id) w × (find certificate_key j w.certificates ≡ some c))
  unfolding Certificates.get
  Stays-get j = Triple-select_first (on-IsStable (Gone id)) (λ w h. h) _

  pub Stays-audit : (a : Action) (j : String) → Stays (record_audit a j)
  Stays-audit a j = Triple-record_audit (on-IsStable (Gone id)) a j

  -- What is read of the row.
  pub read_fact :
      (j : String) (c : Certificate) (w : World)
      → on (Gone id) w × (find certificate_key j w.certificates ≡ some c)
      → c.id ≡ id
      → is_revoked c.status ≡ true
  read_fact j c w (g, found) e = g.reads c (
      subst (λ k. find certificate_key k w.certificates ≡ some c)
        (sym (find-key certificate_key j w.certificates c found) ∙ e) found)

  Triple-get_with_authority :
      (j : String)
      → Triple
          (on (Gone id))
          (on (Gone id))
          (Certificates.get_with_authority j)
          (λ p w. on (Gone id) w × (p.0.id ≡ id → is_revoked p.0.status ≡ true))
  unfolding Certificates.get_with_authority
  Triple-get_with_authority j = Triple-bind (Stays-get j) λ cert.
      Triple-fact (λ w h. read_fact j cert w h)
        λ fact.
          Triple-bind
            (Triple-of (λ w h. h.0)
              (Triple-weaken (λ a w h. h.0)
                (Triple-select_first (on-IsStable (Gone id)) (λ w h. h) _)))
            λ ca. Triple-pure (cert, ca) (λ w h. (h, fact))

  Stays-drop_found : (r : Result Revocation) → Stays (drop_found r)
  unfolding Revocations.delete
  Stays-drop_found (ok rev) = Stays-revocations _ _ _ (λ w. refl)
  Stays-drop_found (err _) = Triple-pure tt (λ w h. h)

  Stays-by_certificate : (j : String) → Stays (Revocations.by_certificate j)
  unfolding Revocations.by_certificate
  Stays-by_certificate j =
      Triple-weaken (λ a w h. h.0) (Triple-select_first (on-IsStable (Gone id)) (λ w h. h) _)

  Stays-drop_hold : (c : Certificate) → Stays (drop_hold c)
  unfolding drop_hold
  Stays-drop_hold c =
      Triple-if (is_held c.status) _ _
        (λ _. Triple-bind (Triple-try _ (Stays-by_certificate c.id)) Stays-drop_found)
        (λ _. Triple-pure tt (λ w h. h))

  module _ (engine : Engine) (now validity : ℕ) where
    pub Stays-revoke :
        (new_id actor_id j : String) (code : ℕ) (passphrase : Text) (skip : Bool)
        → Triple
            (on (Gone id))
            (on (Gone id))
            (revoke engine now validity new_id actor_id j code passphrase skip)
            (λ _. on (Gone id))
    unfolding revoke Revocations.create
    Stays-revoke new_id actor_id j code passphrase skip =
        Triple-bind (Triple-fail_if _ _ (λ w h. h)) λ _.
          Triple-bind (Triple-of (λ w h. h.0) (Triple-get_with_authority j)) λ p.
            Triple-fact (λ w h. h.1)
              λ fact. Triple-bind (Triple-fail_if _ _ (λ w h. h.0)) λ _.
                Triple-fact (λ w h. h.1)
                  λ live. Triple-bind (Triple-of (λ w h. h.0.0) (Stays-drop_hold p.0)) λ _.
                    Triple-bind (Stays-revocations _ _ _ (λ w. refl)) λ _.
                      Triple-bind (Stays-update _ (λ e. absurd (cc (fact e)))) λ _.
                        Triple-bind (Stays-audit _ _) λ _.
                          Triple-bind
                            (Stays-publish (Gone id) engine now validity skip p.1 passphrase)
                            λ _. Triple-pure _ (λ w h. h)

    pub Stays-release_hold :
        (warn_days : ℕ) (j : String) (passphrase : Text)
        → Triple
            (on (Gone id))
            (on (Gone id))
            (release_hold engine now validity warn_days j passphrase)
            (λ _. on (Gone id))
    unfolding release_hold Revocations.delete
    Stays-release_hold warn_days j passphrase = Triple-bind (Triple-get_with_authority j) λ p.
        Triple-fact (λ w h. h.1)
          λ fact. Triple-bind (Triple-fail_if _ _ (λ w h. h.0)) λ _.
            Triple-fact (λ w h. held_live _ h.1)
              λ live. Triple-bind (Triple-of (λ w h. h.0.0) (Stays-by_certificate _)) λ rev.
                Triple-bind (Stays-revocations _ _ _ (λ w. refl)) λ _.
                  Triple-bind (Stays-update _ (λ e. absurd (cc (fact e)))) λ _.
                    Triple-bind (Stays-audit _ _) λ _.
                      Triple-bind (Stays-publish (Gone id) engine now validity false p.1 passphrase)
                        λ _. Triple-pure _ (λ w h. h)
