-- ===== src/Text.antt =====
-- Text that the program walks, as a list of code points, and what it uses of Go's `strings`
-- package. Case and white space are those of ASCII, which is what DNS names, scopes and addresses
-- are made of.
pub mod Trim
use Prim.Native.Char.{code}
use certio.Prelude.{
  ℕ, Exists, ◌+◌, ◌≡◌, refl, ◌↔◌, Bool, true, false, ◌&&◌, ◌||◌, List, [], ◌∷◌, arith, leb, ◌==◌,
  if◌then◌else◌, String, Option, none, some,
}

abbrev pub Text : Type 0
Text = List ℕ

-- The code points of a literal.
abbrev pub txt : String → Text
txt String.[] = []
txt (String.◌∷◌ c s) = code c ∷ txt s

-- Go's `len` of a string: the bytes that its code points take in UTF-8.
abbrev bytes_of : ℕ → ℕ
bytes_of c = if leb c 127 then 1 else if leb c 2047 then 2 else if leb c 65535 then 3 else 4

unfoldable pub byte_length : Text → ℕ
byte_length [] = 0
byte_length (c ∷ s) = bytes_of c + byte_length s

unfoldable pub text_eq : Text → Text → Bool
text_eq [] [] = true
text_eq [] (_ ∷ _) = false
text_eq (_ ∷ _) [] = false
text_eq (a ∷ s) (b ∷ t) = a == b && text_eq s t

unfoldable pub is_space : ℕ → Bool
is_space c = c == b' ' || (leb 9 c && leb c 13)

-- strings.TrimLeft, strings.TrimRight with white space, and strings.TrimSpace.
unfoldable pub trim_left : Text → Text
unfolding is_space
trim_left [] = []
trim_left (c ∷ s) = if is_space c then trim_left s else c ∷ s

-- A white space in front of nothing but white space goes.
abbrev keep_left : ℕ → Text → Text
keep_left c [] = if is_space c then [] else c ∷ []
keep_left c (d ∷ s) = c ∷ d ∷ s

unfoldable pub trim_right : Text → Text
unfolding is_space
trim_right [] = []
trim_right (c ∷ s) = keep_left c (trim_right s)

unfoldable pub trim_space : Text → Text
unfolding trim_left trim_right
trim_space s = trim_right (trim_left s)

unfoldable pub lower : ℕ → ℕ
lower c = if leb b'A' c && leb c b'Z' then c + 32 else c

unfoldable pub to_lower : Text → Text
unfolding lower
to_lower [] = []
to_lower (c ∷ s) = lower c ∷ to_lower s

unfoldable pub strip_prefix : Text → Text → Option Text
strip_prefix [] s = some s
strip_prefix (_ ∷ _) [] = none
strip_prefix (p ∷ ps) (c ∷ s) = if p == c then strip_prefix ps s else none

unfoldable pub has_prefix : Text → Text → Bool
has_prefix [] s = true
has_prefix (_ ∷ _) [] = false
has_prefix (p ∷ ps) (c ∷ s) = p == c && has_prefix ps s

-- strings.TrimPrefix
unfoldable pub trim_prefix : Text → Text → Text
unfolding strip_prefix
trim_prefix p s = elim (strip_prefix p s) [ none ↦ s | some r ↦ r ]

-- strings.HasSuffix
unfoldable pub has_suffix : Text → Text → Bool
unfolding text_eq
has_suffix p [] = text_eq p []
has_suffix p (c ∷ s) = text_eq p (c ∷ s) || has_suffix p s

-- strings.TrimSuffix with a suffix of one code point
unfoldable pub trim_last : ℕ → Text → Text
trim_last k [] = []
trim_last k (c ∷ []) = if c == k then [] else c ∷ []
trim_last k (c ∷ d ∷ s) = c ∷ trim_last k (d ∷ s)

unfoldable pub contains : ℕ → Text → Bool
contains k [] = false
contains k (c ∷ s) = c == k || contains k s

-- strings.Count of one code point
unfoldable pub count : ℕ → Text → ℕ
count k [] = 0
count k (c ∷ s) = (if c == k then 1 else 0) + count k s

-- strings.Cut at one code point: what stands before it and, if it is there, what follows.
unfoldable pub cut : ℕ → Text → Text × Option Text
cut k [] = ([], none)
cut k (c ∷ s) =
    let (before, after) = cut k s in if c == k then ([], some s) else (c ∷ before, after)

-- strings.Split at one code point
unfoldable pub split : ℕ → Text → Text × List Text
split k [] = ([], [])
split k (c ∷ s) =
    let (part, parts) = split k s in if c == k then ([], part ∷ parts) else (c ∷ part, parts)

pub text_eq_iff : (s t : Text) → (text_eq s t ≡ true) ↔ (s ≡ t)
unfolding text_eq
text_eq_iff [] [] = ground arith
text_eq_iff [] (_ ∷ _) = ground arith
text_eq_iff (_ ∷ _) [] = ground arith
text_eq_iff (a ∷ s) (b ∷ t) = ground (arith, text_eq_iff s t)

pub text_eq_refl : (s : Text) → text_eq s s ≡ true
text_eq_refl s = (text_eq_iff s s).1 refl

pub contains_iff : (k : ℕ) (s : Text) → (contains k s ≡ true) ↔ Exists (λ c. c ≡ k) s
unfolding contains
contains_iff k [] = ground arith
contains_iff k (c ∷ s) = ground (arith, contains_iff k s)
