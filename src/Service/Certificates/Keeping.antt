-- ===== src/Service/Certificates/Keeping.antt =====
-- internal/service/certificate.go: `Revoke`, step by step between predicates on the tables of
-- certificates and revocations.
use certio.Prelude.{
  ℕ, ◌≡◌, refl, Bool, false, List, Option, some, String, eq_iff, arith, any, first, first-append,
  any-first, any-or,
}
use certio.Text.{Text}
use certio.Store.{find, has_key, find-save, find-key, any-delete_self}
use certio.Store.Models.{Certificate, Revocation}
use certio.Store.Exec.{World, Exec, Result, ok, err}
use certio.Store.Exec.Triple.{
  Post, Triple, Triple-try_result, Triple-pure, Triple-fail_if, Triple-bind, Triple-if, Triple-of,
  Triple-fact, Triple-weaken, Triple-select_first, Triple-write, Triple-write_if,
  Triple-record_audit,
}
use certio.Store.Repos.{is_revoked, certificate_key, revocation_key}
use certio.Store.Repos.Certificates
use certio.Store.Repos.Revocations
use certio.Store.Repos.Revocations.{is_of}
use certio.Service.Crl.{Engine}
use certio.Service.Crl.Frame.{Tables, on, on-IsStable, Stays-publish}
use certio.Service.Certificates.{status_for, drop_found, drop_hold, revoke}
use certio.Service.Certificates.Invariant.{Sound, save-Sound, delete-Sound, record-Sound}

-- The row that an id reads as.
abbrev pub Reads : String → Certificate → Tables
Reads id c certs revs = Sound certs revs × (find certificate_key id certs ≡ some c)

module _ {A : Type 0} (I P : Tables)
    (weak : (c : List Certificate) (r : List Revocation) → P c r → I c r) where
  first_row :
      (f : World → Option A)
      → Triple (on I) (on P) (certio.Store.Exec.select_first f) (λ a w. on P w × (f w ≡ some a))
  first_row f = Triple-select_first (on-IsStable P) (λ w h. weak _ _ h) f

pub Triple-get_with_authority :
    (id : String)
    → Triple (on Sound) (on Sound) (Certificates.get_with_authority id) (λ p. on (Reads id p.0))
unfolding Certificates.get_with_authority
Triple-get_with_authority id = Triple-bind (first_row Sound Sound (λ c r h. h) _) λ cert.
    Triple-bind (Triple-weaken (λ a w h. h.0) (first_row Sound (Reads id cert) (λ c r h. h.0) _))
      λ ca. Triple-pure (cert, ca) (λ w h. h)

-- The row that an id reads as, which is not revoked.
abbrev pub Live : String → Certificate → Tables
Live id c certs revs =
    Sound certs revs × (find certificate_key id certs ≡ some c) × (is_revoked c.status ≡ false)

live-Sound :
    (id : String) (c : Certificate) (certs : List Certificate) (revs : List Revocation)
    → Live id c certs revs
    → Sound certs revs
live-Sound id c certs revs h = h.0

-- The row is not revoked, and no revocation is of it.
abbrev pub Unlisted : String → Certificate → Tables
Unlisted id c certs revs = Live id c certs revs × (any (is_of id) revs ≡ false)

pub Triple-delete-first :
    (id : String) (c : Certificate) (rev : Revocation)
    → Triple
        (on Sound)
        (on (λ certs revs. Live id c certs revs × (first (is_of id) revs ≡ some rev)))
        (Revocations.delete rev.id)
        (λ _. on (Unlisted id c))
unfolding Revocations.delete
Triple-delete-first id c rev =
    Triple-write_if (on-IsStable _) (λ w h. h.0.0) _ _ _
      λ w _ ((s, found, live), rec). (
        (delete-Sound w.certificates w.revocations id c rev s found live rec, found, live),
        any-delete_self revocation_key (λ r. r.certificate_id) id w.revocations rev s.single rec,
      )

Triple-drop_found :
    (id : String) (c : Certificate) (r : Result Revocation)
    → Triple
        (on Sound)
        (λ w.
          Post
            (on (Live id c))
            (λ rev w. on (Live id c) w × (first (is_of id) w.revocations ≡ some rev))
            r
            w)
        (drop_found r)
        (λ _. on (Live id c))
Triple-drop_found id c (ok rev) = Triple-weaken (λ a w h. h.0) (Triple-delete-first id c rev)
Triple-drop_found id c (err _) = Triple-pure tt (λ w h. h)

-- The entry of a hold goes; the certificate's row stays as it is.
Triple-drop_hold :
    (c : Certificate) → Triple (on Sound) (on (Live c.id c)) (drop_hold c) (λ _. on (Live c.id c))
unfolding drop_hold Revocations.by_certificate
Triple-drop_hold c =
    Triple-if _ _ _
      (λ _.
        Triple-bind
          (Triple-try_result _ (
            Triple-select_first (on-IsStable (Live c.id c)) (λ w h. h)
              (λ w. first (is_of c.id) w.revocations)))
          (λ r. Triple-drop_found c.id c r))
      (λ _. Triple-pure tt (λ w h. h))

-- What a revocation leads to: the row has the status that the reason asks for, and the revocation
-- is the one that the certificate's id reads as.
abbrev pub Revoked : String → ℕ → Revocation → Tables
Revoked id code rev certs revs =
    Sound certs revs
    × ((c : Certificate) × (find certificate_key id certs ≡ some c) × (c.status ≡ status_for code))
    × (first (is_of id) revs ≡ some rev)
    × (rev.reason_code ≡ code)

module _ (c : Certificate) (rev : Revocation) (same : rev.certificate_id ≡ c.id) where
  -- Between the two writes.
  abbrev Recorded : Tables
  Recorded certs revs = Live c.id c certs revs × (first (is_of c.id) revs ≡ some rev)

  Triple-create : Triple (on Sound) (on (Live c.id c)) (Revocations.create rev) (λ _. on Recorded)
  unfolding Revocations.create
  Triple-create =
      Triple-write_if (on-IsStable _) (λ w h. h.0) _ _ _
        λ w new (s, found, live).
          let apart =
            any-or (has_key revocation_key rev.id) (is_of rev.certificate_id) w.revocations in
          let fresh : any (is_of c.id) w.revocations ≡ false = rw (← same) (ground arith) in
          (
            (
              record-Sound w.certificates w.revocations rev s (ground arith) (ground arith),
              found,
              live,
            ),
            first-append (is_of c.id) w.revocations rev fresh
                (ground (arith, eq_iff rev.certificate_id c.id)),
          )

  Triple-mark :
      (code : ℕ)
      → rev.reason_code ≡ code
      → Triple
          (on Sound)
          (on Recorded)
          (Certificates.update (record c { status = status_for code }))
          (λ _. on (Revoked c.id code rev))
  unfolding Certificates.update
  Triple-mark code e =
      Triple-write (on-IsStable _) (λ w h. h.0.0) _
        λ w ((s, found, live), rec).
          let c' : Certificate = record c { status = status_for code } in
          (
            save-Sound w.certificates w.revocations c' s
                (λ _. any-first (is_of c.id) w.revocations rev rec),
            (
              c',
              ground (arith, find-save certificate_key c' w.certificates c.id, eq_iff c.id c.id),
              refl,
            ),
            rec,
            e,
          )

module _ (engine : Engine) (now validity : ℕ) where
  -- From sound tables, and whatever queries the driver fails: a revocation that returns leaves tables
  -- that are sound, the certificate with the status that the reason asks for (held for a hold), and
  -- the returned entry, with that reason, as the certificate's revocation; one that fails leaves
  -- sound tables.
  pub Triple-revoke :
      (new_id actor_id id : String) (code : ℕ) (passphrase : Text) (skip : Bool)
      → Triple
          (on Sound)
          (on Sound)
          (revoke engine now validity new_id actor_id id code passphrase skip)
          (λ rev. on (Revoked id code rev))
  unfolding revoke
  Triple-revoke new_id actor_id id code passphrase skip =
      Triple-bind (Triple-fail_if _ _ (λ w h. h)) λ _.
        Triple-bind (Triple-of (λ w h. h.0) (Triple-get_with_authority id)) λ p.
          Triple-fact (λ w h. find-key certificate_key id w.certificates p.0 h.1)
            λ e. rw (← e) (
              Triple-bind (Triple-fail_if _ _ (λ w h. h.0)) λ _.
                Triple-bind (Triple-of (λ w h. (h.0.0, h.0.1, h.1)) (Triple-drop_hold p.0)) λ _.
                  Triple-bind (Triple-create p.0 _ refl) λ _.
                    Triple-bind (Triple-mark p.0 _ refl code refl) λ _.
                      Triple-bind (Triple-record_audit (on-IsStable _) _ _) λ _.
                        Triple-bind (Stays-publish _ engine now validity skip p.1 passphrase)
                          λ _. Triple-pure _ (λ w h. h))

module _ (engine : Engine) (now validity : ℕ) where
  pub Stays-revoke :
      (new_id actor_id id : String) (code : ℕ) (passphrase : Text) (skip : Bool)
      → Triple
          (on Sound)
          (on Sound)
          (revoke engine now validity new_id actor_id id code passphrase skip)
          (λ _. on Sound)
  Stays-revoke new_id actor_id id code passphrase skip =
      Triple-weaken (λ a w h. h.0)
        (Triple-revoke engine now validity new_id actor_id id code passphrase skip)
