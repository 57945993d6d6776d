-- ===== src/Text/Trim.antt =====
-- Lemmas on trimming white space and lowering case.
use certio.Prelude.{ℕ, ◌≡◌, refl, ap, ◌∙◌, [], ◌∷◌, arith, Bool-cases, if◌then◌else◌, inl, inr}
use certio.Text.{Text, is_space, trim_left, trim_right, keep_left, trim_space, lower, to_lower}

is_space-lower : (c : ℕ) → is_space (lower c) ≡ is_space c
unfolding is_space lower
is_space-lower c = ground arith

lower_idem : (c : ℕ) → lower (lower c) ≡ lower c
unfolding lower
lower_idem c = ground arith

pub to_lower_idem : (s : Text) → to_lower (to_lower s) ≡ to_lower s
unfolding to_lower
to_lower_idem [] = refl
to_lower_idem (c ∷ s) = cc (lower_idem c, to_lower_idem s)

trim_left-to_lower : (s : Text) → trim_left (to_lower s) ≡ to_lower (trim_left s)
unfolding trim_left to_lower
trim_left-to_lower [] = refl
trim_left-to_lower (c ∷ s) = ground (arith, is_space-lower c, trim_left-to_lower s)

keep_left-to_lower :
    (c : ℕ) (s : Text) → keep_left (lower c) (to_lower s) ≡ to_lower (keep_left c s)
unfolding to_lower
keep_left-to_lower c [] = ground (arith, is_space-lower c)
keep_left-to_lower c (d ∷ s) = refl

trim_right-to_lower : (s : Text) → trim_right (to_lower s) ≡ to_lower (trim_right s)
unfolding trim_right to_lower
trim_right-to_lower [] = refl
trim_right-to_lower (c ∷ s) =
    ap (keep_left (lower c)) (trim_right-to_lower s) ∙ keep_left-to_lower c (trim_right s)

pub trim_space-to_lower : (s : Text) → trim_space (to_lower s) ≡ to_lower (trim_space s)
unfolding trim_space
trim_space-to_lower s = ap trim_right (trim_left-to_lower s) ∙ trim_right-to_lower (trim_left s)

trim_left_idem : (s : Text) → trim_left (trim_left s) ≡ trim_left s
unfolding trim_left
trim_left_idem [] = refl
trim_left_idem (c ∷ s) = ground (arith, trim_left_idem s)

trim_right-keep_left :
    (c : ℕ) (s : Text) → trim_right s ≡ s → trim_right (keep_left c s) ≡ keep_left c s
unfolding trim_right
trim_right-keep_left c [] h = ground arith
trim_right-keep_left c (d ∷ s) h = rw h

trim_right_idem : (s : Text) → trim_right (trim_right s) ≡ trim_right s
unfolding trim_right
trim_right_idem [] = refl
trim_right_idem (c ∷ s) = trim_right-keep_left c (trim_right s) (trim_right_idem s)

trim_left-keep_left :
    (c : ℕ) (s : Text)
    → trim_left (keep_left c s) ≡ (if is_space c then trim_left s else keep_left c s)
unfolding trim_left
trim_left-keep_left c [] = ground arith
trim_left-keep_left c (d ∷ s) = ground arith

trim_left-trim_right : (s : Text) → trim_left (trim_right s) ≡ trim_right (trim_left s)
unfolding trim_left trim_right
trim_left-trim_right [] = refl
trim_left-trim_right (c ∷ s) = elim (Bool-cases (is_space c)) [
  | inl blank ↦ ground (arith, trim_left-keep_left c (trim_right s), trim_left-trim_right s)
  | inr other ↦ ground (arith, trim_left-keep_left c (trim_right s))
]

pub trim_space_idem : (s : Text) → trim_space (trim_space s) ≡ trim_space s
unfolding trim_space
trim_space_idem s =
    rw (trim_left-trim_right (trim_left s)) (rw (trim_left_idem s) (trim_right_idem (trim_left s)))
