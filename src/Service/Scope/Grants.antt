-- ===== src/Service/Scope/Grants.antt =====
-- internal/service/scope.go: `HasScope`.
use certio.Prelude.{eq_iff, ◌≡◌, ◌↔◌, ◌⊎◌, true, [], ◌++◌, arith, some, any_iff, Exists}
use certio.Text.{Text, txt, text_eq_iff, cut}
use certio.Service.Scope.{Principal, canonical, action_of, grants, has_scope}

-- A scope allows an action: it is "*", the scope itself, the wildcard on its resource, or the
-- resource's write scope where reading is asked for.
abbrev pub Grants : Text → Text → Type 0
Grants required scope =
    let (resource, action) = cut b':' required in
    (scope ≡ txt "*")
    ⊎ (scope ≡ required)
    ⊎ (scope ≡ resource ++ txt ":*")
    ⊎ ((scope ≡ resource ++ txt ":write") × (action_of action ≡ txt "read"))

pub grants_iff :
    (required granted : Text)
    → (grants required granted ≡ true) ↔ Grants required (canonical granted)
unfolding grants
grants_iff required granted =
    let (resource, action) = cut b':' required in
    let scope : Text = canonical granted in
    ground (
      arith,
      text_eq_iff scope (txt "*"),
      text_eq_iff scope required,
      text_eq_iff scope (resource ++ txt ":*"),
      text_eq_iff scope (resource ++ txt ":write"),
      text_eq_iff (action_of action) (txt "read"),
    )

-- A principal with a token id and a scope list may act exactly when some scope of the list, in lower
-- case and without white space around it, allows the action. Without either it always may.
pub has_scope_iff :
    (p : Principal) (required : Text)
    → (has_scope (some p) required ≡ true)
      ↔ ((p.token_id ≡ "") ⊎ (p.scopes ≡ []) ⊎ Exists (λ g. Grants required (canonical g)) p.scopes)
unfolding has_scope
has_scope_iff p required = ground (
  arith,
  eq_iff p.token_id "",
  any_iff {p = grants required} {P = λ g. Grants required (canonical g)} (grants_iff required)
      p.scopes,
)
