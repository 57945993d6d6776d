-- ===== src/Store/Table.antt =====
-- A table as the list of its rows, which have a text for a primary key.
use certio.Prelude.{
  ◌≡◌, refl, Bool, true, false, none, ◌||◌, List, [], ◌∷◌, ◌++◌, Option, some, arith, String,
  str_eq, eq_iff, if◌then◌else◌, any, keep, first, All, not, Bool-cases, inl, inr, any-append,
}

-- No two rows have one value in a column.
module _ {Row : Type 0} where
  abbrev pub HasUnique : (Row → String) → List Row → Type 0
  HasUnique column [] = Unit
  HasUnique column (x ∷ rows) =
      (any (λ r. str_eq (column r) (column x)) rows ≡ false) × HasUnique column rows

module _ {Row : Type 0} (key : Row → String) where
  abbrev pub has_key : String → Row → Bool
  has_key id row = str_eq (key row) id

  -- SELECT … WHERE id = ? LIMIT 1
  abbrev pub find : String → List Row → Option Row
  find id rows = first (has_key id) rows

  -- `Save`: UPDATE by primary key, or INSERT where there is no such row.
  unfoldable pub save : Row → List Row → List Row
  save row [] = row ∷ []
  save row (x ∷ rows) = if has_key (key row) x then row ∷ rows else x ∷ save row rows

  abbrev pub HasUniqueKeys : List Row → Type 0
  HasUniqueKeys rows = HasUnique key rows

  pub find-save :
      (row : Row) (rows : List Row) (id : String)
      → find id (save row rows) ≡ (if has_key id row then some row else find id rows)
  unfolding save
  find-save row [] id = refl
  find-save row (x ∷ rows) id = ground (
    arith,
    eq_iff (key x) (key row),
    eq_iff (key x) id,
    eq_iff (key row) id,
    find-save row rows id,
  )

  any-save_key :
      (row : Row) (rows : List Row) (id : String)
      → any (has_key id) (save row rows) ≡ (has_key id row || any (has_key id) rows)
  unfolding save
  any-save_key row [] id = refl
  any-save_key row (x ∷ rows) id = ground (
    arith,
    eq_iff (key x) (key row),
    eq_iff (key x) id,
    eq_iff (key row) id,
    any-save_key row rows id,
  )

  pub save-HasUniqueKeys :
      (row : Row) (rows : List Row) → HasUniqueKeys rows → HasUniqueKeys (save row rows)
  unfolding save
  save-HasUniqueKeys row [] h = (refl, tt)
  save-HasUniqueKeys row (x ∷ rows) (new, h) = ground (
    arith,
    eq_iff (key x) (key row),
    eq_iff (key row) (key x),
    any-save_key row rows (key x),
    save-HasUniqueKeys row rows h,
  )

  pub append-HasUniqueKeys :
      (row : Row) (rows : List Row)
      → HasUniqueKeys rows
      → any (has_key (key row)) rows ≡ false
      → HasUniqueKeys (rows ++ row ∷ [])
  append-HasUniqueKeys row [] h new = (refl, tt)
  append-HasUniqueKeys row (x ∷ rows) (k, h) new = (
    ground (
      arith,
      any-append (has_key (key x)) rows (row ∷ []),
      eq_iff (key row) (key x),
      eq_iff (key x) (key row),
    ),
    append-HasUniqueKeys row rows h (ground arith),
  )

  any-keep : (p t : Row → Bool) (rows : List Row) → any p rows ≡ false → any p (keep t rows) ≡ false
  any-keep p t [] h = refl
  any-keep p t (x ∷ rows) h = ground (arith, any-keep p t rows)

  pub keep-HasUniqueKeys :
      (t : Row → Bool) (rows : List Row) → HasUniqueKeys rows → HasUniqueKeys (keep t rows)
  keep-HasUniqueKeys t [] h = tt
  keep-HasUniqueKeys t (x ∷ rows) (k, h) =
      ground (arith, any-keep (has_key (key x)) t rows, keep-HasUniqueKeys t rows h)

  pub find-key :
      (id : String) (rows : List Row) (row : Row) → find id rows ≡ some row → key row ≡ id
  find-key id [] row e = cc
  find-key id (x ∷ rows) row e = ground (arith, eq_iff (key x) id, find-key id rows row)

  pub find-append :
      (row : Row) (rows : List Row) (id : String)
      → find id (rows ++ row ∷ []) ≡ (
          if any (has_key id) rows then find id rows else if has_key id row then some row else none)
  find-append row [] id = refl
  find-append row (x ∷ rows) id = ground (arith, find-append row rows id)

  -- DELETE … WHERE id = ?
  abbrev pub delete : String → List Row → List Row
  delete id rows = keep (λ row. not (has_key id row)) rows

  pub find-delete :
      (id : String) (rows : List Row) (j : String)
      → find j (delete id rows) ≡ (if str_eq id j then none else find j rows)
  find-delete id [] j = ground arith
  find-delete id (x ∷ rows) j =
      ground (arith, eq_iff (key x) id, eq_iff (key x) j, eq_iff id j, find-delete id rows j)

  delete_absent :
      (id : String) (rows : List Row) → any (has_key id) rows ≡ false → delete id rows ≡ rows
  delete_absent id [] h = refl
  delete_absent id (x ∷ rows) h = ground (arith, delete_absent id rows)

  pub has_key-first :
      (p : Row → Bool) (rows : List Row) (row : Row)
      → first p rows ≡ some row
      → any (has_key (key row)) rows ≡ true
  has_key-first p [] row e = cc
  has_key-first p (x ∷ rows) row e =
      ground (arith, eq_iff (key row) (key row), has_key-first p rows row)

  -- A row that is found by a test is the one of its key.
  pub find-first :
      (p : Row → Bool) (rows : List Row) (row : Row)
      → HasUniqueKeys rows
      → first p rows ≡ some row
      → find (key row) rows ≡ some row
  find-first p [] row h e = cc
  find-first p (x ∷ rows) row (new, h) e = elim (Bool-cases (p x)) [
    | inl here ↦ ground (arith, eq_iff (key x) (key row))
    | inr later ↦
        ground (arith, eq_iff (key x) (key row), find-first p rows row h, has_key-first p rows row)
  ]

  -- To delete the first row that passes one test loses no row that passes another, where no row
  -- passes both.
  pub any-delete-first :
      (p q : Row → Bool) (rows : List Row) (row : Row)
      → HasUniqueKeys rows
      → first p rows ≡ some row
      → ((x : Row) → p x ≡ true → q x ≡ false)
      → any q (delete (key row) rows) ≡ any q rows
  any-delete-first p q [] row u e d = cc
  any-delete-first p q (x ∷ rows) row (new, u) e d = elim (Bool-cases (p x)) [
    | inl here ↦
        ground (arith, d x here, eq_iff (key row) (key row), delete_absent (key x) rows new)
    | inr later ↦
        ground (
          arith,
          any-delete-first p q rows row u,
          has_key-first p rows row,
          eq_iff (key x) (key row),
        )
  ]

  -- Where the column is unique, to delete the first row of a value deletes all its rows.
  pub any-delete_self :
      (column : Row → String) (id : String) (rows : List Row) (row : Row)
      → HasUnique column rows
      → first (λ r. str_eq (column r) id) rows ≡ some row
      → any (λ r. str_eq (column r) id) (delete (key row) rows) ≡ false
  any-delete_self column id [] row u e = refl
  any-delete_self column id (x ∷ rows) row (new, u) e = elim (Bool-cases (str_eq (column x) id)) [
    | inl here ↦ ground (
      arith,
      eq_iff (key x) (key x),
      eq_iff (column x) id,
      any-keep (λ r. str_eq (column r) id) (λ r. not (has_key (key x) r)) rows,
    )
    | inr later ↦ ground (arith, any-delete_self column id rows row u)
  ]

  module _ (P : Row → Type 0) where
    pub All-save : (row : Row) (rows : List Row) → P row → All P rows → All P (save row rows)
    unfolding save
    All-save row [] p h = (p, tt)
    All-save row (x ∷ rows) p (q, h) = elim (Bool-cases (has_key (key row) x)) [
      | inl same ↦ rw same (p, h)
      | inr other ↦ rw other (q, All-save row rows p h)
    ]

    pub All-find :
        (id : String) (rows : List Row) (row : Row) → find id rows ≡ some row → All P rows → P row
    All-find id [] row e h = cc
    All-find id (x ∷ rows) row e (p, h) = ground (arith, All-find id rows row)
