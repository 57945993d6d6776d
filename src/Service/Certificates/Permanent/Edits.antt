-- ===== src/Service/Certificates/Permanent/Edits.antt =====
-- internal/service/certificate.go: the same predicate through edits, deletions, key downloads and the
-- status refresh.
use certio.Prelude.{
  ℕ, ◌+◌, ◌≡◌, refl, subst, ◌≢◌, Bool, true, false, not, ◌&&◌, ◌⊎◌, List, [], ◌∷◌, String, eq_iff,
  arith, any, All, keep, inl, inr, Bool-cases, Option-cases, ltb,
}
use certio.Store.{find, has_key, delete, find-delete, HasUniqueKeys, keep-HasUniqueKeys}
use certio.Store.Models.{Certificate, Revocation}
use certio.Store.Exec.Triple.{
  Triple, Triple-pure, Triple-fail, Triple-fail_if, Triple-bind, Triple-if, Triple-of, Triple-fact,
  Triple-weaken, Triple-select, Triple-write, Triple-write_if,
}
use certio.Store.Repos.{
  is_revoked, certificate_key, update_row, find-update_row, order_by, insert_by, Triple-transaction,
}
use certio.Store.Repos.Certificates
use certio.Service.Crl.Frame.{Tables, on, on-IsStable}
use certio.Service.Certificates.{
  Changes, apply_changes, update_certificate, delete_certificate, KeyPolicy, refuse,
  authorize_key_download, refresh_rows, refresh_certificate_statuses, status_eq,
}
use certio.Service.Certificates.Permanent.{
  Gone, Stays, Stays-get, Stays-audit, Stays-update, read_fact,
}

-- A write of columns leaves the keys as they are.
any-update_row :
    (j : String) (f : Certificate → Certificate) (rows : List Certificate) (k : String)
    → ((c : Certificate) → (f c).id ≡ c.id)
    → any (has_key certificate_key k) (update_row certificate_key j f rows)
      ≡ any (has_key certificate_key k) rows
unfolding update_row
any-update_row j f [] k same = refl
any-update_row j f (x ∷ rows) k same = ground (arith, same x, any-update_row j f rows k same)

update_row-HasUniqueKeys :
    (j : String) (f : Certificate → Certificate) (rows : List Certificate)
    → ((c : Certificate) → (f c).id ≡ c.id)
    → HasUniqueKeys certificate_key rows
    → HasUniqueKeys certificate_key (update_row certificate_key j f rows)
unfolding update_row
update_row-HasUniqueKeys j f [] same h = tt
update_row-HasUniqueKeys j f (x ∷ rows) same (new, h) =
    ground
      (arith, same x, any-update_row j f rows x.id same, update_row-HasUniqueKeys j f rows same h)

module _ (id : String) where
  Stays-update_fields :
      (j : String) (f : Certificate → Certificate)
      → ((c : Certificate) → (f c).id ≡ c.id)
      → ((c : Certificate)
          → is_revoked c.status ≡ true
          → (is_revoked (f c).status ≡ true) ⊎ (j ≢ id))
      → Stays id (Certificates.update_fields j f)
  unfolding Certificates.update_fields
  Stays-update_fields j f same kept =
      Triple-write_if (on-IsStable (Gone id)) (λ w h. h) _ _ _
        λ w _ g. record {
          keys = update_row-HasUniqueKeys j f w.certificates same g.keys;
          reads = λ d found. elim (Option-cases (find certificate_key id w.certificates)) [
            | inl absent ↦
                absurd (ground (arith, find-update_row certificate_key j f w.certificates id same))
            | inr (c, there) ↦ ground (
              arith,
              find-update_row certificate_key j f w.certificates id same,
              g.reads c there,
              kept c,
              eq_iff j id,
            )
          ];
        }

  pub Stays-update_certificate :
      (j : String) (changes : Changes)
      → Triple (on (Gone id)) (on (Gone id)) (update_certificate j changes) (λ _. on (Gone id))
  unfolding update_certificate
  Stays-update_certificate j changes = Triple-bind (Stays-get id j) λ row.
      Triple-fact (λ w h. read_fact id j row w h)
        λ fact. Triple-bind (Triple-fail_if _ _ (λ w h. h.0)) λ _.
          Triple-bind (Triple-of (λ w h. h.0.0) (Stays-update id (apply_changes changes row) fact))
            λ _. Triple-bind (Stays-audit id _ _) λ _. Triple-pure _ (λ w h. h)

  delete-Gone :
      (j : String) (certs : List Certificate) (revs revs' : List Revocation)
      → Gone id certs revs
      → Gone id (delete certificate_key j certs) revs'
  delete-Gone j certs revs revs' g = record {
    keys = keep-HasUniqueKeys certificate_key _ certs g.keys;
    reads = λ d found. ground (arith, find-delete certificate_key j certs id, g.reads d);
  }

  pub Stays-delete_certificate :
      (j : String) → Triple (on (Gone id)) (on (Gone id)) (delete_certificate j) (λ _. on (Gone id))
  unfolding delete_certificate Certificates.delete
  Stays-delete_certificate j = Triple-bind (Triple-weaken (λ a w h. h.0) (Stays-get id j)) λ row.
      Triple-bind
        (Triple-transaction (on-IsStable (Gone id)) (λ w h. h) _
          (Triple-bind {Q = λ _. on Others}
            (Triple-write (on-IsStable (Gone id)) (λ w h. tt) _
              (λ w g. delete-Gone j w.certificates w.revocations _ g))
            λ _. Triple-write_if (on-IsStable Others) (λ w h. tt) _ _ _ (λ w _ g. g)))
        λ _. Stays-audit id _ _
    where
      Others : Tables
      Others certs revs = Gone id (delete certificate_key j certs) revs

  Stays-refuse : (b : Bool) (j : String) → Stays id (refuse b j)
  unfolding refuse
  Stays-refuse true j = Triple-bind (Stays-audit id _ _) λ _. Triple-fail _ (λ w h. h)
  Stays-refuse false j = Triple-pure tt (λ w h. h)

  pub Stays-authorize_key_download :
      (now : ℕ) (policy : KeyPolicy) (cert : Certificate)
      → Triple
          (on (Gone id))
          (on (Gone id))
          (authorize_key_download now policy cert)
          (λ _. on (Gone id))
  unfolding authorize_key_download
  Stays-authorize_key_download now policy cert = Triple-bind (Stays-refuse _ _) λ _.
      Triple-bind (Triple-fail_if _ _ (λ w h. h)) λ _.
        Triple-bind (Triple-of (λ w h. h.0) (Stays-update_fields _ _ (λ c. refl) (λ c h. inl h)))
          λ _. Stays-audit id _ _

  none_other :
      (rows : List Certificate)
      → any (has_key certificate_key id) rows ≡ false
      → All (λ c. c.id ≢ id) rows
  none_other [] h = tt
  none_other (x ∷ rows) h = (λ e. ground (arith, eq_iff x.id id), none_other rows (ground arith))

  abbrev IsOther : Certificate → Type 0
  IsOther c = is_revoked c.status ≡ false → c.id ≢ id

  weaken-IsOther : (rows : List Certificate) → All (λ c. c.id ≢ id) rows → All IsOther rows
  weaken-IsOther [] h = tt
  weaken-IsOther (x ∷ rows) (ne, h) = (λ _. ne, weaken-IsOther rows h)

  live-IsOther : (rows : List Certificate) → Gone id rows [] → All IsOther rows
  live-IsOther [] g = tt
  live-IsOther (x ∷ rows) g = elim (Bool-cases (has_key certificate_key id x)) [
    | inl here ↦ (
      λ live e. ground (arith, g.reads x, eq_iff x.id id),
      weaken-IsOther rows (
          none_other rows (
            subst (λ k. any (has_key certificate_key k) rows ≡ false) ((eq_iff x.id id).0 here)
              g.keys.0)),
    )
    | inr later ↦ (
      λ live e. ground (arith, eq_iff x.id id),
      live-IsOther rows (record { keys = g.keys.1; reads = λ c found. g.reads c (ground arith) }),
    )
  ]

  Other-insert_by :
      (x : Certificate) (rows : List Certificate)
      → x.id ≢ id
      → All (λ c. c.id ≢ id) rows
      → All (λ c. c.id ≢ id) (insert_by (λ c. c.not_after) x rows)
  unfolding insert_by
  Other-insert_by x [] h hs = (h, tt)
  Other-insert_by x (y ∷ rows) h (k, hs) = elim (Bool-cases (ltb y.not_after x.not_after)) [
    | inl before ↦ rw before (k, Other-insert_by x rows h hs)
    | inr after ↦ rw after (h, (k, hs))
  ]

  Other-order_by :
      (rows : List Certificate)
      → All (λ c. c.id ≢ id) rows
      → All (λ c. c.id ≢ id) (order_by (λ c. c.not_after) rows)
  unfolding order_by
  Other-order_by [] h = tt
  Other-order_by (x ∷ rows) (h, hs) = Other-insert_by x _ h (Other-order_by rows hs)

  live-keep_other :
      (t : Certificate → Bool) (rows : List Certificate)
      → All IsOther rows
      → All (λ c. c.id ≢ id) (keep (λ c. not (is_revoked c.status) && t c) rows)
  live-keep_other t [] h = tt
  live-keep_other t (c ∷ rows) (other, h) = elim (Bool-cases (not (is_revoked c.status) && t c)) [
    | inl kept ↦ rw kept (other (ground arith), live-keep_other t rows h)
    | inr dropped ↦ rw dropped (live-keep_other t rows h)
  ]

  Stays-refresh_rows :
      (now warn_days changed : ℕ) (rows : List Certificate)
      → All (λ c. c.id ≢ id) rows
      → Stays id (refresh_rows now warn_days changed rows)
  unfolding refresh_rows
  Stays-refresh_rows now warn_days changed [] h = Triple-pure _ (λ w h. h)
  Stays-refresh_rows now warn_days changed (row ∷ rows) (other, h) =
      Triple-if (status_eq row.status _) _ _ (λ _. Stays-refresh_rows now warn_days changed rows h)
        λ _.
          Triple-bind (Stays-update_fields row.id _ (λ c. refl) (λ c is. inr other))
            λ _. Stays-refresh_rows now warn_days (changed + 1) rows h

  pub Stays-refresh_certificate_statuses :
      (now warn_days : ℕ)
      → Triple
          (on (Gone id))
          (on (Gone id))
          (refresh_certificate_statuses now warn_days)
          (λ _. on (Gone id))
  unfolding refresh_certificate_statuses Certificates.expiring_before
  Stays-refresh_certificate_statuses now warn_days =
      Triple-bind (Triple-select (on-IsStable (Gone id)) (λ w h. h) _) λ rows.
        Triple-fact
          (λ w h. subst (All (λ c. c.id ≢ id)) h.1 (
            Other-order_by _ (
              live-keep_other _ w.certificates
                (live-IsOther w.certificates (record { keys = h.0.keys; reads = h.0.reads })))))
          λ others. Triple-of (λ w h. h.0) (Stays-refresh_rows now warn_days 0 rows others)
