-- ===== src/Service/Certificates/Edits.antt =====
-- internal/service/certificate.go: the invariant of the tables through edits, deletions, key
-- downloads and the status refresh.
use certio.Prelude.{
  ℕ, ◌+◌, ◌≡◌, refl, sym, subst, Bool, true, false, not, ◌&&◌, List, [], ◌∷◌, some, String, arith,
  any, All, keep,
}
use certio.Store.{find, delete, find-key}
use certio.Store.Models.{Certificate}
use certio.Store.Exec.{Exec}
use certio.Store.Exec.Triple.{
  Triple, Triple-pure, Triple-fail, Triple-fail_if, Triple-bind, Triple-if, Triple-of, Triple-fact,
  Triple-weaken, Triple-select, Triple-select_first, Triple-write, Triple-write_if,
  Triple-record_audit,
}
use certio.Store.Repos.{is_revoked, certificate_key, order_by, insert_by, Triple-transaction}
use certio.Store.Repos.Certificates
use certio.Store.Repos.Revocations.{is_of}
use certio.Service.Crl.Frame.{Tables, on, on-IsStable}
use certio.Service.Certificates.{
  Changes, apply_changes, update_certificate, delete_certificate, KeyPolicy, refuse,
  authorize_key_download, derive_status, refresh_rows, refresh_certificate_statuses, status_eq,
}
use certio.Service.Certificates.Invariant.{Sound, save-Sound, update_row-Sound, drop-Sound}

abbrev Stays : {A : Type 0} → Exec A → Type 0
Stays m = Triple (on Sound) (on Sound) m (λ _. on Sound)

Stays-get :
    (id : String)
    → Triple
        (on Sound)
        (on Sound)
        (Certificates.get id)
        (λ c w. on Sound w × (find certificate_key id w.certificates ≡ some c))
unfolding Certificates.get
Stays-get id = Triple-select_first (on-IsStable Sound) (λ w h. h) _

Stays-audit :
    (a : certio.Store.Exec.Action) (id : String) → Stays (certio.Store.Exec.record_audit a id)
Stays-audit a id = Triple-record_audit (on-IsStable Sound) a id

pub Stays-update_certificate :
    (id : String) (changes : Changes)
    → Triple (on Sound) (on Sound) (update_certificate id changes) (λ _. on Sound)
unfolding update_certificate Certificates.update
Stays-update_certificate id changes = Triple-bind (Stays-get id) λ row.
    Triple-bind (Triple-fail_if _ _ (λ w h. h.0)) λ _.
      Triple-bind
        (Triple-write
          (on-IsStable (λ certs revs.
            (Sound certs revs × (find certificate_key id certs ≡ some row)) × (_ ≡ false)))
          (λ w h. h.0.0) _
          λ w ((s, found), _).
            save-Sound w.certificates w.revocations (apply_changes changes row) s (λ is.
              subst (λ j. any (is_of j) w.revocations ≡ true)
                (sym (find-key certificate_key id w.certificates row found))
                (s.recorded id row found is)))
        λ _. Triple-bind (Stays-audit _ _) λ _. Triple-pure _ (λ w h. h)

pub Stays-delete_certificate :
    (id : String) → Triple (on Sound) (on Sound) (delete_certificate id) (λ _. on Sound)
unfolding delete_certificate Certificates.delete
Stays-delete_certificate id = Triple-bind (Triple-weaken (λ a w h. h.0) (Stays-get id)) λ row.
    Triple-bind
      (Triple-transaction (on-IsStable Sound) (λ w h. h) _
        (Triple-bind {Q = λ _. on Dropped}
          (Triple-write (on-IsStable Sound) (λ w h. tt) _
            (λ w s. drop-Sound w.certificates w.revocations id s))
          λ _. Triple-write_if (on-IsStable Dropped) (λ w h. tt) _ _ _ (λ w _ s. s)))
      λ _. Stays-audit _ _
  where
    Dropped : Tables
    Dropped certs revs = Sound (delete certificate_key id certs) revs

-- A write of columns that makes no certificate revoked.
Stays-update_fields :
    (id : String) (f : Certificate → Certificate)
    → ((c : Certificate) → (f c).id ≡ c.id)
    → ((c : Certificate) → is_revoked (f c).status ≡ true → is_revoked c.status ≡ true)
    → Stays (Certificates.update_fields id f)
unfolding Certificates.update_fields
Stays-update_fields id f same later =
    Triple-write_if (on-IsStable Sound) (λ w h. h) _ _ _
      λ w _ s. update_row-Sound w.certificates w.revocations id f s same later

Stays-refuse : (b : Bool) (id : String) → Stays (refuse b id)
unfolding refuse
Stays-refuse true id = Triple-bind (Stays-audit _ _) λ _. Triple-fail _ (λ w h. h)
Stays-refuse false id = Triple-pure tt (λ w h. h)

pub Stays-authorize_key_download :
    (now : ℕ) (policy : KeyPolicy) (cert : Certificate)
    → Triple (on Sound) (on Sound) (authorize_key_download now policy cert) (λ _. on Sound)
unfolding authorize_key_download
Stays-authorize_key_download now policy cert = Triple-bind (Stays-refuse _ _) λ _.
    Triple-bind (Triple-fail_if _ _ (λ w h. h)) λ _.
      Triple-bind (Triple-of (λ w h. h.0) (Stays-update_fields _ _ (λ c. refl) (λ c h. h)))
        λ _. Stays-audit _ _

derive_status_revoked :
    (now warn_days : ℕ) (c : Certificate)
    → is_revoked c.status ≡ false
    → is_revoked (derive_status now warn_days c) ≡ false
unfolding derive_status
derive_status_revoked now warn_days c h = ground arith

abbrev AllLive : List Certificate → Type 0
AllLive rows = All (λ c. is_revoked c.status ≡ false) rows

All-insert_by :
    (x : Certificate) (rows : List Certificate)
    → is_revoked x.status ≡ false
    → AllLive rows
    → AllLive (insert_by (λ c. c.not_after) x rows)
unfolding insert_by
All-insert_by x [] h hs = (h, tt)
All-insert_by x (y ∷ rows) h (k, hs) = ground (arith, All-insert_by x rows h hs)

All-order_by : (rows : List Certificate) → AllLive rows → AllLive (order_by (λ c. c.not_after) rows)
unfolding order_by
All-order_by [] h = tt
All-order_by (x ∷ rows) (h, hs) = All-insert_by x _ h (All-order_by rows hs)

live-keep :
    (t : Certificate → Bool) (rows : List Certificate)
    → AllLive (keep (λ c. not (is_revoked c.status) && t c) rows)
live-keep t [] = tt
live-keep t (c ∷ rows) = ground (arith, live-keep t rows)

pub Stays-refresh_rows :
    (now warn_days changed : ℕ) (rows : List Certificate)
    → AllLive rows
    → Triple (on Sound) (on Sound) (refresh_rows now warn_days changed rows) (λ _. on Sound)
unfolding refresh_rows
Stays-refresh_rows now warn_days changed [] h = Triple-pure _ (λ w h. h)
Stays-refresh_rows now warn_days changed (row ∷ rows) (live, h) =
    Triple-if (status_eq row.status _) _ _ (λ _. Stays-refresh_rows now warn_days changed rows h)
      λ _.
        Triple-bind
          (Stays-update_fields row.id _ (λ c. refl)
            (λ c is. absurd (ground (arith, derive_status_revoked now warn_days row live))))
          λ _. Stays-refresh_rows now warn_days (changed + 1) rows h

pub Stays-refresh_certificate_statuses :
    (now warn_days : ℕ)
    → Triple (on Sound) (on Sound) (refresh_certificate_statuses now warn_days) (λ _. on Sound)
unfolding refresh_certificate_statuses Certificates.expiring_before
Stays-refresh_certificate_statuses now warn_days =
    Triple-bind (Triple-select (on-IsStable Sound) (λ w h. h) _) λ rows.
      Triple-fact (λ w h. subst AllLive h.1 (All-order_by _ (live-keep _ w.certificates)))
        λ live. Triple-of (λ w h. h.0) (Stays-refresh_rows now warn_days 0 rows live)
