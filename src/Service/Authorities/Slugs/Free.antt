-- ===== src/Service/Authorities/Slugs/Free.antt =====
-- internal/service/service.go: `uniqueSlug` finds a slug that no authority has.
use certio.Prelude.{
  ℕ, zero, suc, ◌+◌, ◌≤◌, ◌<◌, ◌≡◌, refl, subst, ap, ◌⊎◌, inl, inr, Bool, true, false, not, ◌&&◌,
  List, [], ◌∷◌, ◌++◌, append-nil, any, All, length, arith, Bool-cases, if◌then◌else◌,
}
use certio.Text.{Text, text_eq, text_eq_iff}
use certio.Store.Models.{Authority}
use certio.Store.Exec.{World, Exec, Result, ok, err, driver, pure, query, select, ◌>>=◌}
use certio.Store.Repos.Authorities.{slug_exists}
use certio.Service.Authorities.Slugs.{slugify, decimal, try_slugs, unique_slug}

-- What stands behind the slug in the candidates.
abbrev suffixes : ℕ → ℕ → Text → List Text
suffixes zero i s = []
suffixes (suc rounds) i s = s ∷ suffixes rounds (i + 1) (b'-' ∷ decimal i)

abbrev are_distinct : List Text → Bool
are_distinct [] = true
are_distinct (s ∷ rest) = not (any (text_eq s) rest) && are_distinct rest

abbrev has_slug : Text → Authority → Bool
has_slug slug a = text_eq a.slug slug

abbrev is_held_by : Text → Text → List Authority → Bool
is_held_by slug s authorities = any (has_slug (slug ++ s)) authorities

suffixes_distinct : are_distinct (suffixes 98 2 []) ≡ true
unfolding text_eq
suffixes_distinct = refl

length-suffixes : length (suffixes 98 2 []) ≡ 98
length-suffixes = refl

-- The authorities without the first one of a slug.
abbrev without : Text → List Authority → List Authority
without slug [] = []
without slug (a ∷ authorities) =
    let rest = without slug authorities in if has_slug slug a then authorities else a ∷ rest

length-without :
    (slug : Text) (authorities : List Authority)
    → any (has_slug slug) authorities ≡ true
    → length authorities ≡ suc (length (without slug authorities))
length-without slug [] h = cc
length-without slug (a ∷ authorities) h = ground (arith, length-without slug authorities)

append_cancel : (slug s t : Text) → text_eq (slug ++ s) (slug ++ t) ≡ text_eq s t
unfolding text_eq
append_cancel [] s t = refl
append_cancel (c ∷ slug) s t = ground (arith, append_cancel slug s t)

taken-without :
    (slug s t : Text) (authorities : List Authority)
    → text_eq s t ≡ false
    → is_held_by slug t authorities ≡ true
    → is_held_by slug t (without (slug ++ s) authorities) ≡ true
taken-without slug s t [] other h = h
taken-without slug s t (a ∷ authorities) other h = ground (
  arith,
  taken-without slug s t authorities other,
  append_cancel slug s t,
  text_eq_iff a.slug (slug ++ s),
  text_eq_iff a.slug (slug ++ t),
  text_eq_iff (slug ++ s) (slug ++ t),
)

All-taken-without :
    (slug s : Text) (rest : List Text) (authorities : List Authority)
    → any (text_eq s) rest ≡ false
    → All (λ t. is_held_by slug t authorities ≡ true) rest
    → All (λ t. is_held_by slug t (without (slug ++ s) authorities) ≡ true) rest
All-taken-without slug s [] authorities new h = tt
All-taken-without slug s (t ∷ rest) authorities new (taken, h) = (
  taken-without slug s t authorities (ground arith) taken,
  All-taken-without slug s rest authorities (ground arith) h,
)

-- Different slugs that are all taken are taken by as many authorities.
taken-length :
    (slug : Text) (candidates : List Text) (authorities : List Authority)
    → are_distinct candidates ≡ true
    → All (λ s. is_held_by slug s authorities ≡ true) candidates
    → length candidates ≤ length authorities
taken-length slug [] authorities distinct h = omega arith
taken-length slug (s ∷ rest) authorities distinct (taken, h) =
    let fewer =
      taken-length slug rest (without (slug ++ s) authorities) (ground arith)
        (All-taken-without slug s rest authorities (ground arith) h) in
    omega (arith, length-without (slug ++ s) authorities taken, fewer)

-- The search returned a candidate that is free.
abbrev pub Finds : Text → World → Result Text → Type 0
Finds slug w r =
    (s : Text) × (r ≡ ok (slug ++ s))
    × (any (λ a. text_eq a.slug (slug ++ s)) w.authorities ≡ false)

query_calm : {A : Type 0} (m : Exec A) (w : World) → w.faults ≡ [] → query m w ≡ m w
unfolding query
query_calm m w calm =
    ap
      (λ faults. elim faults [
        | [] ↦ m w
        | true ∷ rest ↦ (err driver, record w { faults = rest })
        | false ∷ rest ↦ m (record w { faults = rest })
      ])
      calm

slug_exists_calm :
    (slug : Text) (w : World)
    → w.faults ≡ []
    → slug_exists slug w ≡ (ok (any (has_slug slug) w.authorities), w)
unfolding slug_exists select
slug_exists_calm slug w calm = query_calm (λ w. (ok (any (has_slug slug) w.authorities), w)) w calm

try_slugs-Finds :
    (rounds i : ℕ) (slug s : Text) (w : World)
    → w.faults ≡ []
    → Finds slug w (try_slugs rounds i slug (slug ++ s) w).0
      ⊎ All (λ s. is_held_by slug s w.authorities ≡ true) (suffixes rounds i s)
unfolding try_slugs pure ◌>>=◌
try_slugs-Finds zero i slug s w calm = inr tt
try_slugs-Finds (suc rounds) i slug s w calm = elim (Bool-cases (is_held_by slug s w.authorities)) [
  | inr free ↦ inl (s, rw (slug_exists_calm (slug ++ s) w calm, free) refl, free)
  | inl taken ↦ elim (try_slugs-Finds rounds (i + 1) slug (b'-' ∷ decimal i) w calm) [
    | inl found ↦ inl (rw (slug_exists_calm (slug ++ s) w calm, taken) found)
    | inr all_taken ↦ inr (taken, all_taken)
  ]
]

-- Where no query fails and there are fewer than 98 authorities, `uniqueSlug` returns the slug of the
-- name, or that slug with more text behind it, and no authority has it.
pub unique_slug-Finds :
    (base : Text) (w : World)
    → w.faults ≡ []
    → length w.authorities < 98
    → Finds (slugify base) w (unique_slug base w).0
unfolding unique_slug
unique_slug-Finds base w calm few =
    let slug = slugify base in
    elim (try_slugs-Finds 98 2 slug [] w calm) [
      | inl found ↦ subst (λ c. Finds slug w (try_slugs 98 2 slug c w).0) (append-nil slug) found
      | inr taken ↦ absurd (
          omega (
            arith,
            taken-length slug (suffixes 98 2 []) w.authorities suffixes_distinct taken,
            length-suffixes,
            few,
          ))
    ]
