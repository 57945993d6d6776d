-- ===== src/Service/Scope/Normal.antt =====
-- internal/service/scope.go: `NormalizeScopes`.

use certio.Prelude.{
  ℕ, All, ◌≡◌, refl, ◌≢◌, Bool, true, false, ◌||◌, List, [], ◌∷◌, ◌++◌, arith, some, any,
  any-append, Bool-cases, inl, inr,
}
use certio.Text.{Text, txt, text_eq, text_eq_iff, trim_space, cut}
use certio.Text.Trim.{to_lower_idem, trim_space_idem, trim_space-to_lower}
use certio.Service.Scope.{
  Principal, canonical, grants, has_scope, collect, sort_strings, insert_sorted, normalize_scopes,
  validate_scopes,
}
use certio.Service.Scope.Grants.{Grants, grants_iff}

canonical_idem : (s : Text) → canonical (canonical s) ≡ canonical s
unfolding canonical
canonical_idem s =
    rw (trim_space-to_lower (trim_space s)) (rw (trim_space_idem s) (to_lower_idem (trim_space s)))

grants-canonical : (required s : Text) → grants required (canonical s) ≡ grants required s
unfolding grants
grants-canonical required s = rw (canonical_idem s)

append-ne-nil : (r s : Text) (c : ℕ) → r ++ c ∷ s ≢ []
append-ne-nil [] s c h = cc
append-ne-nil (d ∷ r) s c h = cc

Grants-nil : (required : Text) → required ≢ [] → ¬ Grants required []
Grants-nil required h g =
    let (resource, action) = cut b':' required in
    ground (arith, append-ne-nil resource (txt "*") b':', append-ne-nil resource (txt "write") b':')

grants-blank : (required s : Text) → required ≢ [] → canonical s ≡ [] → grants required s ≡ false
grants-blank required s h e = elim (Bool-cases (grants required s)) [
  | inl allowed ↦ absurd (Grants-nil required h (rw e at ((grants_iff required s).0 allowed)))
  | inr refused ↦ refused
]

grants-star : (required : Text) → grants required (txt "*") ≡ true
grants-star required = (grants_iff required (txt "*")).1 (inl (unfold canonical in refl))

-- An item that is in the list already adds nothing.
any-known :
    (p : Text → Bool) (x : Text) (out : List Text)
    → any (text_eq x) out ≡ true
    → p x ≡ true
    → any p out ≡ true
any-known p x [] h k = cc
any-known p x (y ∷ out) h k = ground (arith, text_eq_iff x y, any-known p x out)

module _ (p : Text → Bool) where
  any-insert_sorted : (x : Text) (xs : List Text) → any p (insert_sorted x xs) ≡ (p x || any p xs)
  unfolding insert_sorted
  any-insert_sorted x [] = refl
  any-insert_sorted x (y ∷ ys) = ground (arith, any-insert_sorted x ys)

  any-sort_strings : (xs : List Text) → any p (sort_strings xs) ≡ any p xs
  unfolding sort_strings
  any-sort_strings [] = refl
  any-sort_strings (x ∷ xs) =
      ground (arith, any-insert_sorted x (sort_strings xs), any-sort_strings xs)

module _ (required : Text) (named : required ≢ []) where
  any-collect :
      (out scopes : List Text)
      → any (grants required) (collect out scopes)
        ≡ (any (grants required) out || any (grants required) scopes)
  unfolding collect
  any-collect out [] = ground arith
  any-collect out (raw ∷ scopes) =
      let scope : Text = canonical raw in
      ground (
        arith,
        grants-blank required raw named,
        any-known (grants required) scope out,
        grants-canonical required raw,
        any-append (grants required) out (scope ∷ []),
        any-collect out scopes,
        any-collect (out ++ scope ∷ []) scopes,
      )

  -- Normalising a list of scopes does not change what it allows, for any scope that is asked for and
  -- is not the empty text: blank and repeated entries, the collapse to "*" and the sorting do not
  -- matter.
  any-normalize_scopes :
      (scopes : List Text)
      → any (grants required) (normalize_scopes scopes) ≡ any (grants required) scopes
  unfolding normalize_scopes
  any-normalize_scopes scopes =
      let out : List Text = collect [] scopes in
      ground (
        arith,
        any-collect [] scopes,
        any-known (grants required) (txt "*") out,
        grants-star required,
        any-sort_strings (grants required) out,
      )

abbrev pub IsBlank : List Text → Type 0
IsBlank scopes = All (λ raw. canonical raw ≡ []) scopes

collect-blank : (scopes : List Text) → IsBlank scopes → collect [] scopes ≡ []
unfolding collect
collect-blank [] h = refl
collect-blank (raw ∷ scopes) (e, h) = rw e (collect-blank scopes h)

validate_scopes-blank : (scopes : List Text) → IsBlank scopes → validate_scopes scopes ≡ true
unfolding validate_scopes
validate_scopes-blank [] h = refl
validate_scopes-blank (raw ∷ scopes) (e, h) = ground (arith, validate_scopes-blank scopes h)

-- A list of blank scopes passes `ValidateScopes`, and the token that is minted with it, whose list
-- is what `NormalizeScopes` leaves, may do everything.
pub blank_scopes_unrestricted :
    (p : Principal) (scopes : List Text) (required : Text)
    → IsBlank scopes
    → (validate_scopes scopes ≡ true)
      × (has_scope (some (record p { scopes = normalize_scopes scopes })) required ≡ true)
unfolding normalize_scopes has_scope sort_strings
blank_scopes_unrestricted p scopes required h =
    (validate_scopes-blank scopes h, ground (arith, collect-blank scopes h))
