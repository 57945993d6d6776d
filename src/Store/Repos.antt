-- ===== src/Store/Repos.antt =====
-- internal/store/repo_pki.go: what the repositories share.
pub mod Authorities
pub mod Certificates
pub mod Revocations
pub mod Acme
pub mod Users
pub mod OAuth
pub mod Tokens
pub mod Sessions
use certio.Prelude.{
  ℕ, ◌≡◌, Bool, true, false, List, [], ◌∷◌, Option, none, some, String, str_eq, eq_iff, arith,
  if◌then◌else◌, ltb,
}
use certio.Store.{find, has_key}
use certio.Store.Models.{Authority, Certificate, Revocation, Status, revoked}
use certio.Store.Exec.{Result, ok, err, World, Exec, ◌>>=◌, ◌>>◌}
use certio.Store.Exec.Triple.{Pred, IsStable, Post, Triple}

abbrev pub is_revoked : Status → Bool
is_revoked revoked = true
is_revoked _ = false

abbrev pub certificate_key : Certificate → String
certificate_key c = c.id

abbrev pub revocation_key : Revocation → String
revocation_key r = r.id

abbrev pub authority_key : Authority → String
authority_key a = a.id

-- ORDER BY a column, ascending; rows that are equal there stay in the order of their creation.
module _ {Row : Type 0} (column : Row → ℕ) where
  unfoldable pub insert_by : Row → List Row → List Row
  insert_by x [] = x ∷ []
  insert_by x (y ∷ ys) = if ltb (column y) (column x) then y ∷ insert_by x ys else x ∷ y ∷ ys

  unfoldable pub order_by : List Row → List Row
  unfolding insert_by
  order_by [] = []
  order_by (x ∷ xs) = insert_by x (order_by xs)

-- UPDATE … WHERE id = ?
module _ {Row : Type 0} (key : Row → String) where
  unfoldable pub update_row : String → (Row → Row) → List Row → List Row
  update_row id f [] = []
  update_row id f (x ∷ rows) =
      let rest = update_row id f rows in if has_key key id x then f x ∷ rest else x ∷ rest

-- A transaction: what was written is undone if the action fails.
module _ {A : Type 0} where
  abbrev settle : World → Result A × World → Result A × World
  settle w (ok a, w') = (ok a, w')
  settle w (err e, w') = (err e, record w { faults = w'.faults })

  unfoldable pub transaction : Exec A → Exec A
  transaction m w = settle w (m w)

abbrev pub map_option : {Row : Type 0} → (Row → Row) → Option Row → Option Row
map_option f none = none
map_option f (some x) = some (f x)

pub find-update_row :
    {Row : Type 0} (key : Row → String) (id : String) (f : Row → Row) (rows : List Row) (j : String)
    → ((x : Row) → key (f x) ≡ key x)
    → find key j (update_row key id f rows)
      ≡ (if str_eq id j then map_option f (find key j rows) else find key j rows)
unfolding update_row
find-update_row key id f [] j h = ground arith
find-update_row key id f (x ∷ rows) j h = ground (
  arith,
  h x,
  eq_iff (key x) id,
  eq_iff (key x) j,
  eq_iff id j,
  find-update_row key id f rows j h,
)

settle-at :
    (I P : Pred) {A : Type 0} (Q : A → Pred) (w : World) (r : Result A × World)
    → IsStable P
    → ((w : World) → P w → I w)
    → P w
    → Post (λ _. Unit) Q r.0 r.1
    → Post I Q (settle w r).0 (settle w r).1
settle-at I P Q w (ok a, w') stable weak h t = t
settle-at I P Q w (err e, w') stable weak h t = weak _ (stable.faults w w'.faults h)

-- A transaction that fails leaves the tables as they were.
pub Triple-transaction :
    {I P : Pred} {A : Type 0} {Q : A → Pred}
    → IsStable P
    → ((w : World) → P w → I w)
    → (m : Exec A) → Triple (λ _. Unit) P m Q
    → Triple I P (transaction m) Q
unfolding transaction
Triple-transaction {I} {P} {Q = Q} stable weak m t = record {
  at = λ w h. settle-at I P Q w (m w) stable weak h (t.at w h);
}
