-- ===== src/Service/Issuance/Renewal/Rows.antt =====
-- internal/service/certificate.go: the old certificate's row and the new one in a renewal.
use certio.Prelude.{
  any-first_of, ◌≡◌, ◌≢◌, ◌⊎◌, inl, inr, refl, sym, subst, ap, Bool, false, ◌&&◌, List, [], ◌∷◌,
  ◌++◌, some, String, str_eq, eq_iff, arith, any,
}
use certio.Store.{find, has_key, find-append, find-key, has_key-first}
use certio.Store.Models.{Certificate}
use certio.Store.Exec.Triple.{
  Anything, Triple, Triple-pure, Triple-bind, Triple-if, Triple-of, Triple-fact, Triple-try,
}
use certio.Store.Exec.Quiet.{On, Triple-select_first_on, Triple-write_if_on}
use certio.Store.Repos.{certificate_key, find-update_row, update_row}
use certio.Store.Repos.Certificates
use certio.Service.Issuance.Renewal.{set_auto_renew, stop_renewing}

-- The row of an id that was read.
abbrev pub Reads : String → Certificate → List Certificate → Type 0
Reads id current rows = find certificate_key id rows ≡ some current

-- The new row and the old one, which does not renew by itself any more; it may be left as it was
-- where some query fails.
abbrev pub Follows : Bool → Certificate → Certificate → List Certificate → Type 0
Follows calm current row rows =
    (find certificate_key row.id rows ≡ some row)
    × ((find certificate_key current.id rows ≡ some (set_auto_renew false current))
        ⊎ ((find certificate_key current.id rows ≡ some current) × (calm ≡ false)))

abbrev pub Beside : Certificate → Certificate → List Certificate → Type 0
Beside current row rows =
    (find certificate_key row.id rows ≡ some row)
    × (find certificate_key current.id rows ≡ some current)
    × (row.id ≢ current.id)

beside :
    (current row : Certificate) (rows : List Certificate)
    → any (has_key certificate_key row.id) rows ≡ false
    → Reads current.id current rows
    → Beside current row (rows ++ row ∷ [])
beside current row rows absent here =
    let there =
      has_key-first certificate_key (has_key certificate_key current.id) rows current here in
    (
      ground (arith, find-append certificate_key row rows row.id, eq_iff row.id row.id),
      ground (arith, find-append certificate_key row rows current.id),
      λ same. absurd (ground (arith, ap (λ id. any (has_key certificate_key id) rows) same)),
    )

stopped :
    (calm : Bool) (current row : Certificate) (rows : List Certificate)
    → Beside current row rows
    → Follows calm current row (update_row certificate_key current.id (set_auto_renew false) rows)
stopped calm current row rows (new, old, other) = (
  ground (
    arith,
    find-update_row certificate_key current.id (set_auto_renew false) rows row.id (λ c. refl),
    eq_iff current.id row.id,
    other,
  ),
  inl (
      ground (
        arith,
        find-update_row certificate_key current.id (set_auto_renew false) rows current.id
            (λ c. refl),
        eq_iff current.id current.id,
      )),
)

-- A row that does not renew by itself is as it would be after the write.
off_already :
    (current : Certificate) → current.auto_renew ≡ false → current ≡ set_auto_renew false current
off_already current off = ap (λ b. set_auto_renew b current) off

pub Triple-create :
    (calm : Bool) (current row : Certificate)
    → Triple Anything
        (On calm (Reads current.id current))
        (Certificates.create row)
        (λ _. On calm (Beside current row))
unfolding Certificates.create
Triple-create calm current row =
    Triple-write_if_on calm (Reads current.id current) (λ w h e. tt) _ _ _
      (λ w new h. (
        beside current row w.certificates
            (any-first_of (has_key certificate_key row.id)
              (λ r.
                str_eq r.authority_id row.authority_id && str_eq r.serial_number row.serial_number)
              w.certificates (ground (arith, new)))
            h.0,
        h.1,
      ))
      (λ w refused h. tt)

pub Triple-stop_renewing :
    (calm : Bool) (current row : Certificate)
    → Triple Anything
        (On calm (Beside current row))
        (stop_renewing current)
        (λ _. On false (Follows calm current row))
unfolding stop_renewing Certificates.update_fields
Triple-stop_renewing calm current row =
    Triple-if current.auto_renew _ _
      (λ _.
        Triple-bind
          (Triple-try _ (
            Triple-write_if_on {I = On false (Follows calm current row)} calm (Beside current row)
              (λ w h e. ((h.0, inr (h.1, e)), λ f. absurd (cc))) _ _ _
              (λ w there h. (stopped calm current row w.certificates h.0, λ f. absurd (cc)))
              (λ w gone h. absurd (
                ground (
                  arith,
                  has_key-first certificate_key (has_key certificate_key current.id) w.certificates
                      current h.0.1,
                )))))
          λ _. Triple-pure tt (λ w h. h))
      (λ off. Triple-pure tt (λ w h. (
        (
          h.0.0,
          inl (
              subst (λ c. find certificate_key current.id w.certificates ≡ some c)
                (off_already current off) h.0.1),
        ),
        λ f. absurd (cc),
      )))

pub Triple-with_authority :
    (calm : Bool) (rows : List Certificate) (id : String)
    → Triple Anything
        (On calm (λ k. k ≡ rows))
        (Certificates.get_with_authority id)
        (λ (current, ca) w.
          On calm (Reads current.id current) w × (find certificate_key id rows ≡ some current))
unfolding Certificates.get_with_authority Certificates.get
Triple-with_authority calm rows id =
    Triple-bind (Triple-select_first_on calm (λ k. k ≡ rows) (λ w h e. tt) _ (λ w h. tt)) λ current.
      Triple-fact {F = find certificate_key id rows ≡ some current}
        (λ w h. subst (λ k. find certificate_key id k ≡ some current) h.0.0 h.1)
        λ found.
          Triple-of {P = On calm (Reads current.id current)}
            (λ w h. (
              subst (λ i. find certificate_key i w.certificates ≡ some current)
                  (sym (find-key certificate_key id w.certificates current h.1)) h.1,
              h.0.1,
            ))
            (Triple-bind
              (Triple-select_first_on calm (Reads current.id current) (λ w h e. tt) _ (λ w h. tt))
              λ ca. Triple-pure _ (λ w h. (h.0, found)))
