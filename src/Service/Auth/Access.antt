-- ===== src/Service/Auth/Access.antt =====
-- internal/service/auth.go and internal/server/middleware/middleware.go: who a request comes from,
-- and how a session ends. The digest of an API token is an argument.

use certio.Prelude.{
  ℕ, ◌+◌, ◌*◌, Bool, true, false, not, ◌&&◌, List, Option, none, some, String, str_eq,
  if◌then◌else◌, ltb, is_empty, any,
}
use certio.Text.{Text, txt, has_prefix}
use certio.Store.Models.{User, ApiToken}
use certio.Store.Exec.{
  invalid_credentials, account_disabled, Exec, pure, fail_if, try, ◌>>=◌, ◌>>◌, record_audit,
  logout,
}
use certio.Store.Repos.Users
use certio.Store.Repos.Users.{is_active}
use certio.Store.Repos.Tokens
use certio.Store.Repos.Sessions
use certio.Service.Loading.{or_fail}
use certio.Service.Scope.{Principal, has_scope}
use certio.Service.Auth.{Jwt, Lifetimes, principal_from_claims, or_credentials}

abbrev expires_later : ℕ → Option ℕ → Bool
expires_later now none = true
expires_later now (some at) = ltb now at

abbrev pub is_set : Option ℕ → Bool
is_set none = false
is_set (some _) = true

abbrev pub is_usable : ℕ → ApiToken → Bool
is_usable now t = not (is_set t.revoked_at) && expires_later now t.expires_at

abbrev pub token_principal : User → ApiToken → Principal
token_principal user token = record {
  user_id = user.id;
  email = user.email;
  name = user.name;
  role = user.role;
  token_id = token.id;
  scopes = token.scopes;
  session_id = "";
  session_expiry = 0;
}

unfoldable pub session_revoked : ℕ → Principal → Exec Bool
session_revoked now p =
    if str_eq p.session_id "" then pure false else Sessions.is_revoked now p.session_id p.user_id

module _ (hash_api_token : Text → Text) (now : ℕ) where
  unfoldable pub authenticate_api_token : Text → Exec Principal
  unfolding fail_if
  authenticate_api_token raw = do
    found ← try (Tokens.get_by_hash (hash_api_token raw))
    token ← or_credentials found
    fail_if (not (is_usable now token)) invalid_credentials
    owner ← try (Users.get token.user_id)
    user ← or_credentials owner
    fail_if (not (is_active user)) account_disabled
    try (Tokens.touch_used now token.id)
    pure (token_principal user token)

  -- An API token is known by its prefix; anything else is a web token.
  unfoldable pub resolve : Jwt → Text → Exec Principal
  unfolding authenticate_api_token principal_from_claims has_prefix
  resolve jwt raw = if has_prefix (txt "certio_") raw then authenticate_api_token raw else (do
    claims ← or_fail invalid_credentials (jwt.parse now raw)
    or_fail invalid_credentials (principal_from_claims claims))

  -- `Auth`: an answer is a refusal if the list of denied sessions cannot be read.
  unfoldable pub auth : Jwt → Text → Exec Principal
  unfolding resolve session_revoked fail_if
  auth jwt raw = do
    fail_if (is_empty raw) invalid_credentials
    principal ← resolve jwt raw
    revoked ← session_revoked now principal
    fail_if revoked invalid_credentials
    pure principal

-- The guards of a route, with the scope that it needs.
unfoldable pub require_role : List String → Principal → Bool
require_role roles p = any (λ role. str_eq role p.role) roles

unfoldable pub require_scope : Text → Principal → Bool
unfolding has_scope
require_scope scope p = has_scope (some p) scope

module _ (ttl : Lifetimes) (now : ℕ) where
  -- Denied for longer than the refresh token of the pair lives.
  unfoldable pub revoke_session : Principal → String → Exec (Unit {0})
  revoke_session p reason =
      let deny = (do
        Sessions.revoke now p.session_id p.user_id reason (p.session_expiry + ttl.refresh_setting)
        record_audit logout p.user_id) in
      if str_eq p.session_id "" then pure tt else deny

  unfoldable pub revoke_all_sessions : String → String → Exec (Unit {0})
  revoke_all_sessions user_id reason =
      Sessions.revoke_all_for_user now user_id reason (now + ttl.refresh_setting * 2)
