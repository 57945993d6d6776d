-- ===== src/Store/Counts.antt =====
-- How many rows of a table pass a test, through the writes of the repositories.
use certio.Prelude.{
  ◌+◌, ◌≤◌, ◌≡◌, refl, Bool, true, false, List, [], ◌∷◌, some, String, arith, any, keep, length,
  eq_iff,
}
use certio.Store.{find, has_key, save, delete, HasUniqueKeys}

module _ {Row : Type 0} (key : Row → String) (p : Row → Bool) where
  -- Some row passes, if one is counted.
  pub any-count : (rows : List Row) → 1 ≤ length (keep p rows) → any p rows ≡ true
  any-count [] h = absurd (omega arith)
  any-count (x ∷ rows) h = ground (arith, any-count rows)

  -- A row is written back that passes if the one that was read does.
  pub any-save :
      (rows : List Row) (u v : Row)
      → find key (key v) rows ≡ some u
      → (p u ≡ true → p v ≡ true)
      → any p rows ≡ true
      → any p (save key v rows) ≡ true
  unfolding save
  any-save [] u v found same h = cc
  any-save (x ∷ rows) u v found same h = ground (arith, any-save rows u v)

  -- One write loses at most one row.
  pub count-save :
      (rows : List Row) (v : Row) → length (keep p rows) ≤ length (keep p (save key v rows)) + 1
  unfolding save
  count-save [] v = omega arith
  count-save (x ∷ rows) v = ground (arith, count-save rows v)

  count-absent :
      (id : String) (rows : List Row)
      → any (has_key key id) rows ≡ false
      → keep p (delete key id rows) ≡ keep p rows
  count-absent id [] h = refl
  count-absent id (x ∷ rows) h = ground (arith, count-absent id rows)

  -- So does one deletion, where the keys differ.
  pub count-delete :
      (id : String) (rows : List Row)
      → HasUniqueKeys key rows
      → length (keep p rows) ≤ length (keep p (delete key id rows)) + 1
  count-delete id [] h = omega arith
  count-delete id (x ∷ rows) (new, h) =
      ground (arith, eq_iff (key x) id, count-absent id rows, count-delete id rows h)

  any-absent :
      (id : String) (rows : List Row)
      → any (has_key key id) rows ≡ false
      → any p (delete key id rows) ≡ any p rows
  any-absent id [] h = refl
  any-absent id (x ∷ rows) h = ground (arith, any-absent id rows)

  -- The deletion of a row that does not pass loses none that does.
  pub any-delete :
      (id : String) (rows : List Row) (u : Row)
      → HasUniqueKeys key rows
      → find key id rows ≡ some u
      → p u ≡ false
      → any p (delete key id rows) ≡ any p rows
  any-delete id [] u h found other = refl
  any-delete id (x ∷ rows) u (new, h) found other =
      ground (arith, eq_iff (key x) id, any-absent id rows, any-delete id rows u h)
