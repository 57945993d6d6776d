-- ===== src/Service/Authorities/Slugs.antt =====
-- internal/service/service.go: slugs, `Slugify` and `uniqueSlug`.
pub mod Shape
pub mod Free
use certio.Prelude.{
  ℕ, zero, suc, ◌+◌, ◌-◌, ◌/◌, ◌%◌, Bool, true, false, ◌&&◌, ◌||◌, [], ◌∷◌, ◌++◌, if◌then◌else◌,
  leb, ltb, ◌==◌, is_empty, length,
}
use certio.Text.{Text, txt, trim_space, to_lower}
use certio.Store.Exec.{validation, Exec, pure, fail, ◌>>=◌}
use certio.Store.Repos.Authorities

-- A small letter or a digit.
abbrev pub is_plain : ℕ → Bool
is_plain c = (leb b'a' c && leb c b'z') || (leb b'0' c && leb c b'9')

-- Each run of other characters becomes one hyphen. The flag says that such a run has begun.
unfoldable pub hyphenate : Bool → Text → Text
hyphenate begun [] = []
hyphenate begun (c ∷ s) =
    let kept = hyphenate false s in
    let run = hyphenate true s in if is_plain c then c ∷ kept else if begun then run else b'-' ∷ run

-- strings.Trim with "-"
unfoldable pub trim_hyphens_left : Text → Text
trim_hyphens_left [] = []
trim_hyphens_left (c ∷ s) = if c == b'-' then trim_hyphens_left s else c ∷ s

abbrev keep_hyphen : ℕ → Text → Text
keep_hyphen c [] = if c == b'-' then [] else c ∷ []
keep_hyphen c (d ∷ s) = c ∷ d ∷ s

unfoldable pub trim_hyphens_right : Text → Text
trim_hyphens_right [] = []
trim_hyphens_right (c ∷ s) = keep_hyphen c (trim_hyphens_right s)

abbrev pub trim_hyphens : Text → Text
trim_hyphens s = trim_hyphens_right (trim_hyphens_left s)

unfoldable pub take : ℕ → Text → Text
take zero s = []
take (suc n) [] = []
take (suc n) (c ∷ s) = c ∷ take n s

abbrev pub max_slug : ℕ
max_slug = 64

abbrev cut_slug : Text → Text
cut_slug slug = if ltb max_slug (length slug) then trim_hyphens (take max_slug slug) else slug

abbrev or_ca : Text → Text
or_ca slug = if is_empty slug then txt "ca" else slug

unfoldable pub slugify : Text → Text
unfolding trim_space to_lower hyphenate trim_hyphens_left trim_hyphens_right take
slugify name = cut_slug (or_ca (trim_hyphens (hyphenate false (to_lower (trim_space name)))))

-- A number below 100.
abbrev pub decimal : ℕ → Text
decimal n = if ltb n 10 then (b'0' + n) ∷ [] else (b'0' + n / 10) ∷ (b'0' + n % 10) ∷ []

-- The candidates that are left to try, from the one with the number `i - 1` on.
unfoldable pub try_slugs : ℕ → ℕ → Text → Text → Exec Text
try_slugs zero i slug candidate = fail validation
try_slugs (suc rounds) i slug candidate =
    let next = try_slugs rounds (i + 1) slug (slug ++ b'-' ∷ decimal i) in
    Authorities.slug_exists candidate >>= λ taken. if taken then next else pure candidate

unfoldable pub unique_slug : Text → Exec Text
unfolding slugify try_slugs
unique_slug base = try_slugs 98 2 (slugify base) (slugify base)
