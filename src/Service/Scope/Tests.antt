-- ===== src/Service/Scope/Tests.antt =====
-- Scopes at concrete inputs.
use certio.Prelude.{◌≡◌, refl, ◌↔◌, ◌⊎◌, true, [], ◌∷◌, some, Exists}
use certio.Text.{txt}
use certio.Service.Scope.{Principal, canonical, has_scope, normalize_scopes, validate_scopes}
use certio.Service.Scope.Grants.{Grants, has_scope_iff}
use certio.Service.Scope.Normal.{blank_scopes_unrestricted}

abbrev writer : Principal
writer = record {
  user_id = "u";
  email = txt "u@example.com";
  name = txt "U";
  role = "operator";
  token_id = "t";
  scopes = txt "certificates:write" ∷ [];
  session_id = "";
  session_expiry = 0;
}

has_scope_iff_example : (has_scope (some writer) (txt "certificates:read") ≡ true) ↔ (
    (writer.token_id ≡ "")
    ⊎ (writer.scopes ≡ [])
    ⊎ Exists (λ g. Grants (txt "certificates:read") (canonical g)) writer.scopes)
has_scope_iff_example = has_scope_iff writer (txt "certificates:read")

blank_scopes_unrestricted_example :
    (validate_scopes (txt " " ∷ []) ≡ true)
    × (has_scope
          (some (record writer { scopes = normalize_scopes (txt " " ∷ []) }))
          (txt "users:write")
        ≡ true)
unfolding canonical
blank_scopes_unrestricted_example =
    blank_scopes_unrestricted writer (txt " " ∷ []) (txt "users:write") (refl, tt)
