-- ===== src/Service/Scope.antt =====
-- internal/service/scope.go: the scopes that narrow what an API token may do.
pub mod Grants
pub mod Normal
mod Tests
use Prim.Native.Nat.{compare, Ordering}
use Prim.Native.String
use certio.Prelude.{
  Bool, true, false, ◌&&◌, ◌||◌, List, [], ◌∷◌, ◌++◌, Option, none, some, if◌then◌else◌, any, all,
  is_empty, String, str_eq, ℕ,
}
use certio.Text.{Text, txt, text_eq, trim_space, to_lower, cut}

-- Who makes a request. `token_id` is empty for a session, `session_id` for an API token.
pub record Principal : Type 0 where
  pub user_id : String
  pub email : Text
  pub name : Text
  pub role : String
  pub token_id : String
  pub scopes : List Text
  pub session_id : String
  pub session_expiry : ℕ

-- The names of `scopeCatalog`.
abbrev pub catalog : List Text
catalog =
    txt "*"
    ∷ txt "authorities:read"
    ∷ txt "authorities:write"
    ∷ txt "certificates:read"
    ∷ txt "certificates:write"
    ∷ txt "deployments:read"
    ∷ txt "deployments:write"
    ∷ txt "notifications:read"
    ∷ txt "notifications:write"
    ∷ txt "users:read"
    ∷ txt "users:write"
    ∷ txt "tokens:read"
    ∷ txt "tokens:write"
    ∷ txt "audit:read"
    ∷ txt "settings:read"
    ∷ txt "settings:write"
    ∷ []

-- `scopeNames`: each name of the catalogue and, if it has a colon, the wildcard on its resource.
abbrev resource_wildcard : Text × Option Text → List Text
resource_wildcard (resource, none) = []
resource_wildcard (resource, some action) = (resource ++ txt ":*") ∷ []

unfoldable pub scope_names : List Text → List Text
unfolding cut
scope_names [] = []
scope_names (name ∷ rest) = name ∷ (resource_wildcard (cut b':' name) ++ scope_names rest)

-- A scope as it is compared.
unfoldable pub canonical : Text → Text
unfolding to_lower trim_space
canonical raw = to_lower (trim_space raw)

unfoldable pub validate_scopes : List Text → Bool
unfolding scope_names canonical text_eq
validate_scopes scopes =
    all (λ raw. is_empty (canonical raw) || any (text_eq (canonical raw)) (scope_names catalog))
      scopes

-- `a < b` on strings.
unfoldable pub text_lt : Text → Text → Bool
text_lt s [] = false
text_lt [] (_ ∷ _) = true
text_lt (a ∷ s) (b ∷ t) = elim (compare a b) [
  | Ordering.lt ↦ true
  | Ordering.eq ↦ text_lt s t
  | Ordering.gt ↦ false
]

-- sort.Strings
unfoldable pub insert_sorted : Text → List Text → List Text
unfolding text_lt
insert_sorted x [] = x ∷ []
insert_sorted x (y ∷ ys) = if text_lt y x then y ∷ insert_sorted x ys else x ∷ y ∷ ys

unfoldable pub sort_strings : List Text → List Text
unfolding insert_sorted
sort_strings [] = []
sort_strings (x ∷ xs) = insert_sorted x (sort_strings xs)

-- The loop of `NormalizeScopes`; what was seen is what was put out.
unfoldable pub collect : List Text → List Text → List Text
unfolding canonical text_eq
collect out [] = out
collect out (raw ∷ scopes) =
    let scope = canonical raw in
    let skip = is_empty scope || any (text_eq scope) out in
    collect (if skip then out else out ++ scope ∷ []) scopes

unfoldable pub normalize_scopes : List Text → List Text
unfolding collect sort_strings
normalize_scopes scopes =
    let out = collect [] scopes in
    if any (text_eq (txt "*")) out then txt "*" ∷ [] else sort_strings out

abbrev action_of : Option Text → Text
action_of none = []
action_of (some action) = action

-- One round of the loop of `HasScope`.
unfoldable pub grants : Text → Text → Bool
unfolding canonical cut text_eq
grants required granted =
    let (resource, action) = cut b':' required in
    let scope = canonical granted in
    if text_eq scope (txt "*") || text_eq scope required || text_eq scope (resource ++ txt ":*")
    then true
    else text_eq scope (resource ++ txt ":write") && text_eq (action_of action) (txt "read")

unfoldable pub has_scope : Option Principal → Text → Bool
unfolding grants
has_scope none required = false
has_scope (some p) required =
    if str_eq p.token_id "" || is_empty p.scopes then true else any (grants required) p.scopes
