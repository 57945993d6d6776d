-- ===== src/Service/Certificates/Invariant.antt =====
-- What holds of the tables of certificates and revocations between two requests.
use certio.Prelude.{
  ◌≡◌, refl, ◌≢◌, ◌∙◌, true, false, not, List, [], ◌∷◌, ◌++◌, some, String, str_eq, eq_iff, arith,
  any, keep, first, any-append, Bool-cases, Option-cases, inl, inr,
}
use certio.Store.{
  find, has_key, save, delete, HasUniqueKeys, HasUnique, find-save, find-append, find-delete,
  any-delete-first, keep-HasUniqueKeys, append-HasUniqueKeys,
}
use certio.Store.Models.{Certificate, Revocation}
use certio.Store.Repos.{is_revoked, certificate_key, revocation_key, update_row, find-update_row}
use certio.Store.Repos.Revocations.{is_of}

-- Revocations have different keys and are of different certificates, and a certificate that reads as revoked has a revocation.
pub record Sound (certs : List Certificate) (revs : List Revocation) : Type 0 where
  pub keys : HasUniqueKeys revocation_key revs
  pub single : HasUnique (λ r. r.certificate_id) revs
  pub recorded :
      (id : String) (c : Certificate)
      → find certificate_key id certs ≡ some c
      → is_revoked c.status ≡ true
      → any (is_of id) revs ≡ true

-- A certificate may be written back if it is not revoked, or its revocation is there.
pub save-Sound :
    (certs : List Certificate) (revs : List Revocation) (c : Certificate)
    → Sound certs revs
    → (is_revoked c.status ≡ true → any (is_of c.id) revs ≡ true)
    → Sound (save certificate_key c certs) revs
save-Sound certs revs c s h = record {
  keys = s.keys;
  single = s.single;
  recorded = λ id d found is.
      ground (arith, find-save certificate_key c certs id, eq_iff c.id id, s.recorded id d);
}

is_of_other : (i j : String) (r : Revocation) → i ≢ j → is_of i r ≡ true → is_of j r ≡ false
is_of_other i j r ne h = ground (arith, eq_iff r.certificate_id i, eq_iff r.certificate_id j)

-- The revocation of a certificate that does not read as revoked may be deleted.
pub delete-Sound :
    (certs : List Certificate) (revs : List Revocation) (id : String) (c : Certificate)
    (rev : Revocation)
    → Sound certs revs
    → find certificate_key id certs ≡ some c
    → is_revoked c.status ≡ false
    → first (is_of id) revs ≡ some rev
    → Sound certs (delete revocation_key rev.id revs)
delete-Sound certs revs id c rev s found live rec = record {
  keys = keep-HasUniqueKeys revocation_key _ revs s.keys;
  single = keep-HasUniqueKeys (λ r. r.certificate_id) _ revs s.single;
  recorded = λ j d found' is.
      let ne : id ≢ j = λ e. cc in
      any-delete-first revocation_key (is_of id) (is_of j) revs rev s.keys rec
        (λ r. is_of_other id j r ne)
      ∙ s.recorded j d found' is;
}

-- Columns may be set where that makes no certificate revoked.
pub update_row-Sound :
    (certs : List Certificate) (revs : List Revocation) (id : String)
    (f : Certificate → Certificate)
    → Sound certs revs
    → ((c : Certificate) → (f c).id ≡ c.id)
    → ((c : Certificate) → is_revoked (f c).status ≡ true → is_revoked c.status ≡ true)
    → Sound (update_row certificate_key id f certs) revs
update_row-Sound certs revs id f s same later = record {
  keys = s.keys;
  single = s.single;
  recorded = λ j d found is. elim (Option-cases (find certificate_key j certs)) [
    | inl absent ↦ absurd (ground (arith, find-update_row certificate_key id f certs j same))
    | inr (c, there) ↦
        ground
          (arith, find-update_row certificate_key id f certs j same, later c, s.recorded j c there)
  ];
}

any-drop_of :
    (id j : String) (revs : List Revocation)
    → id ≢ j
    → any (is_of j) (keep (λ r. not (is_of id r)) revs) ≡ any (is_of j) revs
any-drop_of id j [] ne = refl
any-drop_of id j (r ∷ revs) ne = ground (arith, is_of_other id j r ne, any-drop_of id j revs ne)

-- A certificate may be deleted together with its revocations.
pub drop-Sound :
    (certs : List Certificate) (revs : List Revocation) (id : String)
    → Sound certs revs
    → Sound (delete certificate_key id certs) (keep (λ r. not (is_of id r)) revs)
drop-Sound certs revs id s = record {
  keys = keep-HasUniqueKeys revocation_key _ revs s.keys;
  single = keep-HasUniqueKeys (λ r. r.certificate_id) _ revs s.single;
  recorded = λ j d found is. elim (Bool-cases (str_eq id j)) [
    | inl same ↦ absurd (ground (arith, find-delete certificate_key id certs j))
    | inr other ↦
        any-drop_of id j revs (λ e. ground (arith, eq_iff id j))
        ∙ s.recorded j d (ground (arith, find-delete certificate_key id certs j)) is
  ];
}

-- A new certificate that is not revoked may be added.
pub append-Sound :
    (certs : List Certificate) (revs : List Revocation) (c : Certificate)
    → Sound certs revs
    → is_revoked c.status ≡ false
    → Sound (certs ++ c ∷ []) revs
append-Sound certs revs c s live = record {
  keys = s.keys;
  single = s.single;
  recorded = λ j d found is. ground (arith, find-append certificate_key c certs j, s.recorded j d);
}

-- A revocation of a new key, of a certificate that has none, may be added.
pub record-Sound :
    (certs : List Certificate) (revs : List Revocation) (rev : Revocation)
    → Sound certs revs
    → any (has_key revocation_key rev.id) revs ≡ false
    → any (is_of rev.certificate_id) revs ≡ false
    → Sound certs (revs ++ rev ∷ [])
record-Sound certs revs rev s new first_one = record {
  keys = append-HasUniqueKeys revocation_key rev revs s.keys new;
  single = append-HasUniqueKeys (λ r. r.certificate_id) rev revs s.single first_one;
  recorded =
      λ j d found is. ground (arith, any-append (is_of j) revs (rev ∷ []), s.recorded j d found is);
}
