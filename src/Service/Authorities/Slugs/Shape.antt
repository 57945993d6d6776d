-- ===== src/Service/Authorities/Slugs/Shape.antt =====
-- internal/service/service.go: what every slug looks like, and which one is free.
use certio.Prelude.{
  ℕ, zero, suc, ◌≤◌, ◌≡◌, refl, sym, subst, ◌∙◌, Bool, true, false, ◌||◌, [], ◌∷◌, arith, all,
  length, is_empty, ltb, ◌==◌, if◌then◌else◌, Bool-cases, inl, inr,
}
use certio.Text.{Text, txt, trim_space, to_lower}
use certio.Service.Authorities.Slugs.{
  is_plain, hyphenate, trim_hyphens_left, trim_hyphens_right, trim_hyphens, take, max_slug, slugify,
  cut_slug, or_ca,
}

abbrev pub is_slug_char : ℕ → Bool
is_slug_char c = is_plain c || c == b'-'

abbrev pub begins_with_hyphen : Text → Bool
begins_with_hyphen [] = false
begins_with_hyphen (c ∷ s) = c == b'-'

abbrev pub ends_with_hyphen : Text → Bool
ends_with_hyphen [] = false
ends_with_hyphen (c ∷ []) = c == b'-'
ends_with_hyphen (c ∷ d ∷ s) = ends_with_hyphen (d ∷ s)

-- Small letters, digits and hyphens, at most 64 of them, with no hyphen at either end.
pub record IsSlug (s : Text) : Type 0 where
  pub chars : all is_slug_char s ≡ true
  pub present : is_empty s ≡ false
  pub short : length s ≤ max_slug
  pub begins : begins_with_hyphen s ≡ false
  pub ends : ends_with_hyphen s ≡ false

chars-hyphenate : (begun : Bool) (s : Text) → all is_slug_char (hyphenate begun s) ≡ true
unfolding hyphenate
chars-hyphenate begun [] = refl
chars-hyphenate true (c ∷ s) = ground (arith, chars-hyphenate true s, chars-hyphenate false s)
chars-hyphenate false (c ∷ s) = ground (arith, chars-hyphenate true s, chars-hyphenate false s)

chars-left : (s : Text) → all is_slug_char s ≡ true → all is_slug_char (trim_hyphens_left s) ≡ true
unfolding trim_hyphens_left
chars-left [] h = refl
chars-left (c ∷ s) h = ground (arith, chars-left s)

begins-left : (s : Text) → begins_with_hyphen (trim_hyphens_left s) ≡ false
unfolding trim_hyphens_left
begins-left [] = refl
begins-left (c ∷ s) = ground (arith, begins-left s)

-- What stands in front of a text that was trimmed at the right.
right : (c : ℕ) (s t : Text) → trim_hyphens_right s ≡ t → Text
right c s [] e = if c == b'-' then [] else c ∷ []
right c s (d ∷ t) e = c ∷ d ∷ t

right_lem :
    (c : ℕ) (s t : Text) (e : trim_hyphens_right s ≡ t) → trim_hyphens_right (c ∷ s) ≡ right c s t e
unfolding trim_hyphens_right right
right_lem c s [] e = rw e refl
right_lem c s (d ∷ t) e = rw e refl

module _ (c : ℕ) where
  chars-right_of :
      (s t : Text) (e : trim_hyphens_right s ≡ t)
      → is_slug_char c ≡ true
      → all is_slug_char t ≡ true
      → all is_slug_char (right c s t e) ≡ true
  unfolding right
  chars-right_of s [] e h k = ground arith
  chars-right_of s (d ∷ t) e h k = ground arith

  ends-right_of :
      (s t : Text) (e : trim_hyphens_right s ≡ t)
      → ends_with_hyphen t ≡ false
      → ends_with_hyphen (right c s t e) ≡ false
  unfolding right
  ends-right_of s [] e k = ground arith
  ends-right_of s (d ∷ t) e k = k

  length-right_of :
      (s t : Text) (e : trim_hyphens_right s ≡ t) (n : ℕ)
      → length t ≤ n
      → length (right c s t e) ≤ suc n
  unfolding right
  length-right_of s [] e n k = ground arith
  length-right_of s (d ∷ t) e n k = omega arith

  begins-right_of :
      (s t : Text) (e : trim_hyphens_right s ≡ t)
      → (c == b'-') ≡ false
      → (begins_with_hyphen (right c s t e) ≡ false) × (is_empty (right c s t e) ≡ false)
  unfolding right
  begins-right_of s [] e h = ground arith
  begins-right_of s (d ∷ t) e h = (h, refl)

chars-right :
    (s : Text) → all is_slug_char s ≡ true → all is_slug_char (trim_hyphens_right s) ≡ true
unfolding trim_hyphens_right
chars-right [] h = refl
chars-right (c ∷ s) h =
    rw (right_lem c s (trim_hyphens_right s) refl)
      (chars-right_of c s _ refl (ground (arith, h)) (chars-right s (ground (arith, h))))

ends-right : (s : Text) → ends_with_hyphen (trim_hyphens_right s) ≡ false
unfolding trim_hyphens_right
ends-right [] = refl
ends-right (c ∷ s) =
    rw (right_lem c s (trim_hyphens_right s) refl) (ends-right_of c s _ refl (ends-right s))

length-right : (s : Text) → length (trim_hyphens_right s) ≤ length s
unfolding trim_hyphens_right
length-right [] = omega arith
length-right (c ∷ s) =
    rw (right_lem c s (trim_hyphens_right s) refl)
      (length-right_of c s _ refl (length s) (length-right s))

begins-right :
    (s : Text)
    → begins_with_hyphen s ≡ false
    → (begins_with_hyphen (trim_hyphens_right s) ≡ false)
      × (is_empty (trim_hyphens_right s) ≡ is_empty s)
unfolding trim_hyphens_right
begins-right [] h = (refl, refl)
begins-right (c ∷ s) h =
    rw (right_lem c s (trim_hyphens_right s) refl) (begins-right_of c s _ refl h)

left_same : (s : Text) → begins_with_hyphen s ≡ false → trim_hyphens_left s ≡ s
unfolding trim_hyphens_left
left_same [] h = refl
left_same (c ∷ s) h = ground (arith, h)

-- A text with the characters of a slug, trimmed.
abbrev IsTrimmed : Text → Type 0
IsTrimmed s =
    (all is_slug_char s ≡ true) × (begins_with_hyphen s ≡ false) × (ends_with_hyphen s ≡ false)

trim-IsTrimmed : (s : Text) → all is_slug_char s ≡ true → IsTrimmed (trim_hyphens s)
trim-IsTrimmed s h = (
  chars-right (trim_hyphens_left s) (chars-left s h),
  (begins-right (trim_hyphens_left s) (begins-left s)).0,
  ends-right (trim_hyphens_left s),
)

-- A part from the front of such a text.
chars-take : (n : ℕ) (s : Text) → all is_slug_char s ≡ true → all is_slug_char (take n s) ≡ true
unfolding take
chars-take zero s h = refl
chars-take (suc n) [] h = refl
chars-take (suc n) (c ∷ s) h = ground (arith, chars-take n s)

length-take-le : (n : ℕ) (s : Text) → length (take n s) ≤ n
unfolding take
length-take-le zero s = omega arith
length-take-le (suc n) [] = omega arith
length-take-le (suc n) (c ∷ s) = omega (arith, length-take-le n s)

front :
    (n : ℕ) (s : Text)
    → (begins_with_hyphen (take (suc n) s) ≡ begins_with_hyphen s)
      × (is_empty (take (suc n) s) ≡ is_empty s)
unfolding take
front n [] = (refl, refl)
front n (c ∷ s) = (refl, refl)

cut-IsSlug :
    (s : Text)
    → all is_slug_char s ≡ true
    → begins_with_hyphen s ≡ false
    → is_empty s ≡ false
    → IsSlug (trim_hyphens (take max_slug s))
cut-IsSlug s chars begins present =
    let part = take max_slug s in
    let trimmed = trim-IsTrimmed part (chars-take max_slug s chars) in
    let begins' : begins_with_hyphen part ≡ false = (front 63 s).0 ∙ begins in
    let same : trim_hyphens_left part ≡ part = left_same part begins' in
    record {
      chars = trimmed.0;
      present =
          subst (λ t. is_empty (trim_hyphens_right t) ≡ false) (sym same)
            ((begins-right part begins').1 ∙ ((front 63 s).1 ∙ present));
      short =
          subst (λ t. length (trim_hyphens_right t) ≤ max_slug) (sym same)
            (omega (arith, length-right part, length-take-le max_slug s));
      begins = trimmed.1;
      ends = trimmed.2;
    }

cut_slug-IsSlug : (s : Text) → IsTrimmed s → is_empty s ≡ false → IsSlug (cut_slug s)
cut_slug-IsSlug s (chars, begins, ends) present = elim (Bool-cases (ltb max_slug (length s))) [
  | inl long ↦ rw long (cut-IsSlug s chars begins present)
  | inr fits ↦ rw fits (record {
    chars = chars;
    present = present;
    short = ground (arith, fits);
    begins = begins;
    ends = ends;
  })
]

or_ca-IsSlug : (s : Text) → IsTrimmed s → IsSlug (cut_slug (or_ca s))
or_ca-IsSlug [] h = cut_slug-IsSlug (txt "ca") (refl, refl, refl) refl
or_ca-IsSlug (c ∷ s) h = cut_slug-IsSlug (c ∷ s) h refl

-- The slug of any name holds small letters, digits and hyphens, at least one character and at most
-- 64, and neither begins nor ends with a hyphen.
pub slugify-IsSlug : (name : Text) → IsSlug (slugify name)
unfolding slugify
slugify-IsSlug name =
    let plain = hyphenate false (to_lower (trim_space name)) in
    or_ca-IsSlug (trim_hyphens plain)
      (trim-IsTrimmed plain (chars-hyphenate false (to_lower (trim_space name))))
