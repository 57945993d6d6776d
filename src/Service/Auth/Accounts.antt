-- ===== src/Service/Auth/Accounts.antt =====
-- internal/service/auth.go: accounts and API tokens. The hash of a password, the digest of a token,
-- and fresh identifiers are arguments.

use certio.Prelude.{
  ℕ, ◌+◌, Bool, true, false, not, ◌&&◌, ◌||◌, List, [], Option, none, some, String, str_eq,
  if◌then◌else◌, leb, ltb, ◌==◌, is_empty,
}
use certio.Text.{Text, contains, byte_length}
use certio.Store.Models.{User, ApiToken}
use certio.Store.Exec.{
  validation, unusable, Exec, pure, fail_if, try, ◌>>=◌, ◌>>◌, record_audit, user_create,
  user_update, user_delete, token_issued, token_revoked,
}
use certio.Store.Repos.Users
use certio.Store.Repos.Users.{canonical_email, is_admin}
use certio.Store.Repos.Tokens
use certio.Service.Loading.{or_fail}
use certio.Service.Scope.{validate_scopes, normalize_scopes}
use certio.Service.Auth.{Lifetimes}
use certio.Service.Auth.Access.{revoke_all_sessions}

unfoldable pub validate_role : String → Bool
validate_role role = str_eq role "admin" || str_eq role "operator" || str_eq role "viewer"

unfoldable pub validate_password : Text → Bool
unfolding byte_length
validate_password password = leb 12 (byte_length password) && leb (byte_length password) 256

abbrev at_sign : ℕ
at_sign = 64

abbrev pub default_role : String → String
default_role role = if str_eq role "" then "viewer" else role

abbrev pub default_name : Text → Text → Text
default_name name email = if is_empty name then email else name

abbrev pub new_user : String → Text → Text → Text → String → User
new_user new_id email name hash role = record {
  id = new_id;
  email = canonical_email email;
  name = default_name name (canonical_email email);
  password_hash = hash;
  role = default_role role;
  status = "active";
  last_login_at = none;
  oauth_provider = [];
  oauth_subject = [];
  totp_enabled = false;
  totp_secret = none;
  totp_enabled_at = none;
  totp_last_step = 0;
  recovery_codes = [];
}

-- The fields of a request that are present.
pub record UserChanges : Type 0 where
  pub name : Option Text
  pub role : Option String
  pub status : Option String
  pub password : Option Text

abbrev pub differs : String → Option String → Bool
differs word none = false
differs word (some other) = not (str_eq other word)

abbrev is_given : Option Text → Bool
is_given none = false
is_given (some _) = true

abbrev valid_if_given : (Text → Bool) → Option Text → Bool
valid_if_given test none = true
valid_if_given test (some value) = test value

abbrev role_if_given : Option String → Bool
role_if_given none = true
role_if_given (some role) = validate_role role

module _ {A : Type 0} where
  abbrev pub given : A → Option A → A
  given old none = old
  given old (some new) = new

-- Whether a change would take an administrator away.
abbrev pub losing_admin : User → UserChanges → Bool
losing_admin user changes =
    is_admin user && (differs "admin" changes.role || differs "active" changes.status)

-- Whether open sessions have to end.
abbrev pub ends_sessions : UserChanges → Bool
ends_sessions changes =
    is_given changes.password || differs "admin" changes.role || differs "active" changes.status

-- Refused if there is at most one active administrator.
unfoldable pub keep_last_admin : Bool → Exec (Unit {0})
unfolding fail_if
keep_last_admin losing =
    let count_them = (do admins ← Users.count_admins; fail_if (leb admins 1) validation) in
    if losing then count_them else pure tt

abbrev pub apply_changes : UserChanges → Text → User → User
apply_changes changes hash user = record user {
  name = given user.name changes.name;
  role = given user.role changes.role;
  status = given user.status changes.status;
  password_hash = hash;
}

abbrev pub end_sessions : Lifetimes → ℕ → Bool → String → Exec (Unit {0})
end_sessions ttl now true id = do try (revoke_all_sessions ttl now id "account changed"); pure tt
end_sessions ttl now false id = pure tt

module _ (hash_password : Text → Option Text) where
  abbrev pub hash_if_given : Text → Option Text → Exec Text
  hash_if_given old none = pure old
  hash_if_given old (some password) = or_fail unusable (hash_password password)

  unfoldable pub create_user : String → Text → Text → Text → String → Exec User
  unfolding validate_role validate_password fail_if contains
  create_user new_id email name password role = do
    fail_if (is_empty (canonical_email email) || not (contains at_sign (canonical_email email)))
        validation
    fail_if (not (validate_password password)) validation
    fail_if (not (validate_role (default_role role))) validation
    hash ← or_fail unusable (hash_password password)
    Users.create (new_user new_id email name hash role)
    record_audit user_create new_id
    pure (new_user new_id email name hash role)

  unfoldable pub update_user : Lifetimes → ℕ → String → UserChanges → Exec User
  unfolding keep_last_admin validate_role validate_password fail_if
  update_user ttl now id changes = do
    user ← Users.get id
    keep_last_admin (losing_admin user changes)
    fail_if (not (role_if_given changes.role)) validation
    fail_if (not (valid_if_given validate_password changes.password)) validation
    hash ← hash_if_given user.password_hash changes.password
    Users.update (apply_changes changes hash user)
    end_sessions ttl now (ends_sessions changes) user.id
    record_audit user_update user.id
    pure (apply_changes changes hash user)

  unfoldable pub needs_bootstrap : Exec Bool
  needs_bootstrap = do count ← Users.count; pure (count == 0)

  -- The first administrator, on an instance without accounts.
  unfoldable pub bootstrap : String → Text → Text → Text → Exec (Option User)
  unfolding create_user
  bootstrap new_id email password name =
      let create_it = (do
        user ← create_user new_id email name password "admin"
        pure (some user)) in
      do
        count ← Users.count
        if ltb 0 count || is_empty email || is_empty password then pure none else create_it

unfoldable pub delete_user : String → Exec (Unit {0})
unfolding keep_last_admin
delete_user id = do
  user ← Users.get id
  keep_last_admin (is_admin user)
  Users.delete id
  record_audit user_delete user.id

-- `hash` is the digest of a fresh token, and `lifetime` is 0 for one that does not expire.
abbrev expiry_of : ℕ → ℕ → Option ℕ
expiry_of now lifetime = if ltb 0 lifetime then some (now + lifetime) else none

abbrev pub new_token : ℕ → String → Text → String → Text → List Text → ℕ → ApiToken
new_token now new_id hash user_id name scopes lifetime = record {
  id = new_id;
  user_id = user_id;
  name = name;
  token_hash = hash;
  scopes = normalize_scopes scopes;
  expires_at = expiry_of now lifetime;
  last_used_at = none;
  revoked_at = none;
}

unfoldable pub create_api_token : ℕ → String → Text → String → Text → List Text → ℕ → Exec ApiToken
unfolding validate_scopes normalize_scopes fail_if
create_api_token now new_id hash user_id name scopes lifetime = do
  fail_if (is_empty name) validation
  Users.get user_id
  fail_if (not (validate_scopes scopes)) validation
  Tokens.create (new_token now new_id hash user_id name scopes lifetime)
  record_audit token_issued new_id
  pure (new_token now new_id hash user_id name scopes lifetime)

unfoldable pub revoke_api_token : ℕ → String → Exec (Unit {0})
revoke_api_token now id = do
  token ← Tokens.get id
  Tokens.revoke now id
  record_audit token_revoked token.id
