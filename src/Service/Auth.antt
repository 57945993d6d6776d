-- ===== src/Service/Auth.antt =====
-- internal/service/auth.go: tokens and sign-in. The codec of JSON web tokens, with its checks of the
-- signature, the issuer and the dates, is the record `Jwt`; the clock and fresh session ids are
-- arguments.
pub mod Accounts
pub mod Access
pub mod Administered
pub mod Factor
pub mod SignedOut
mod Tests
use certio.Prelude.{
  ℕ, ◌+◌, ◌*◌, Bool, true, false, not, ◌&&◌, ◌||◌, [], Option, none, some, String, str_eq,
  if◌then◌else◌, is_empty, length, ◌==◌,
}
use certio.Text.{Text}
use certio.Store.Models.{User}
use certio.Store.Exec.{
  Err, Result, ok, err, invalid_credentials, account_disabled, unusable, Exec, pure, fail, fail_if,
  try, ◌>>=◌, ◌>>◌, record_audit, login, login_failed,
}
use certio.Store.Repos.Users
use certio.Store.Repos.Users.{is_active}
use certio.Store.Repos.Sessions
use certio.Service.Loading.{or_fail}
use certio.Service.Scope.{Principal}
use certio.Service.TwoFactor.{Authenticator, has_two_factor, verify_second_factor}

-- A claim that is missing reads as the empty text, and a missing date as 0.
pub record Claims : Type 0 where
  pub sub : String
  pub email : Text
  pub name : Text
  pub role : String
  pub typ : String
  pub iat : ℕ
  pub exp : ℕ
  pub sid : String

-- `parse` is given the time.
pub record Jwt : Type 0 where
  pub sign : Claims → Option Text
  pub parse : ℕ → Text → Option Claims

-- The types of tokens.
abbrev pub token_type_access : String
token_type_access = "access"

abbrev pub token_type_refresh : String
token_type_refresh = "refresh"

abbrev pub token_type_challenge : String
token_type_challenge = "2fa"

abbrev pub challenge_ttl : ℕ
challenge_ttl = 5 * 60

-- The lifetimes of the authenticator, and the one of a refresh token as the settings have it, which is
-- read where sessions are denied. A setting is not negative.
pub record Lifetimes : Type 0 where
  pub access_ttl : ℕ
  pub refresh_ttl : ℕ
  pub refresh_setting : ℕ

abbrev default_ttl : ℕ → ℕ → ℕ
default_ttl ttl other = if ttl == 0 then other else ttl

-- A quarter of an hour and seven days, where nothing is configured.
unfoldable pub new_authenticator : ℕ → ℕ → Lifetimes
new_authenticator access refresh = record {
  access_ttl = default_ttl access (15 * 60);
  refresh_ttl = default_ttl refresh (7 * 86400);
  refresh_setting = refresh;
}

pub record TokenPair : Type 0 where
  pub access_token : Text
  pub refresh_token : Text
  pub expires_at : ℕ
  pub session_id : String
  pub session_expiry : ℕ

abbrev pub claims_of : User → String → ℕ → ℕ → String → Claims
claims_of u typ expiry now session_id = record {
  sub = u.id;
  email = u.email;
  name = u.name;
  role = u.role;
  typ = typ;
  iat = now;
  exp = expiry;
  sid = session_id;
}

-- Only an access token authorises a request.
unfoldable pub principal_from_claims : Claims → Option Principal
principal_from_claims claims =
    if not (str_eq claims.typ token_type_access) || str_eq claims.sub ""
    then none
    else some (record {
      user_id = claims.sub;
      email = claims.email;
      name = claims.name;
      role = claims.role;
      token_id = "";
      scopes = [];
      session_id = claims.sid;
      session_expiry = claims.exp;
    })

-- Either a pair, or a challenge to exchange for one.
pub data LoginResult : Type 0 where
  signed_in : TokenPair → User → Bool → ℕ → LoginResult
  challenged : User → Text → ℕ → LoginResult

-- A refusal, which is recorded.
abbrev pub refuse_login : {A : Type 0} → String → Err → Exec A
refuse_login id e = do record_audit login_failed id; fail e

abbrev pub refuse_if : Bool → String → Err → Exec (Unit {0})
refuse_if true id e = refuse_login id e
refuse_if false id e = pure tt

abbrev pub or_refuse : String → Result User → Exec User
or_refuse id (ok user) = pure user
or_refuse id (err e) = refuse_login id invalid_credentials

abbrev pub or_credentials : {A : Type 0} → Result A → Exec A
or_credentials (ok a) = pure a
or_credentials (err e) = fail invalid_credentials

module _ (jwt : Jwt) (ttl : Lifetimes) (now : ℕ) where
  open jwt use {sign, parse}
  open ttl use {access_ttl, refresh_ttl}

  unfoldable pub issue_for_session : User → String → Exec TokenPair
  issue_for_session u session_id = do
    access ←
        or_fail unusable (sign (claims_of u token_type_access (now + access_ttl) now session_id))
    refresh ←
        or_fail unusable (sign (claims_of u token_type_refresh (now + refresh_ttl) now session_id))
    pure (record {
      access_token = access;
      refresh_token = refresh;
      expires_at = now + access_ttl;
      session_id = session_id;
      session_expiry = now + refresh_ttl;
    })

  unfoldable pub issue_challenge : User → Exec Text
  issue_challenge u =
      or_fail unusable (sign (claims_of u token_type_challenge (now + challenge_ttl) now ""))

  -- `fresh` is the id of the session that is opened.
  unfoldable pub issue_session : String → User → Exec TokenPair
  unfolding issue_for_session
  issue_session fresh user = do
    pair ← issue_for_session user fresh
    try (Users.touch_login now user.id)
    record_audit login user.id
    pure pair

  module _ (authenticator : Authenticator) (fresh : String) where
    open authenticator use {verify_password}

    -- Whether a recovery code was used, and the account afterwards.
    abbrev pub second_factor : User → Text → Exec (Bool × User)
    second_factor user code =
        if has_two_factor user
        then verify_second_factor authenticator now user code
        else pure (false, user)

    unfoldable pub complete_login : User → Text → Exec LoginResult
    unfolding issue_session verify_second_factor
    complete_login user code = do
      (used, user') ← second_factor user code
      pair ← issue_session fresh user'
      pure (signed_in pair user' used (length user'.recovery_codes))

    -- The work of a real comparison is done for an account without a password too.
    abbrev pub is_wrong_password : User → Text → Bool
    is_wrong_password user password =
        is_empty user.password_hash || not (verify_password password user.password_hash)

    abbrev pub challenge_user : User → Exec LoginResult
    challenge_user user = do
      challenge ← issue_challenge user
      pure (challenged user challenge challenge_ttl)

    unfoldable pub log_in : Text → Text → Text → Exec LoginResult
    unfolding complete_login issue_challenge
    log_in email password totp_code = do
      found ← try (Users.get_by_email email)
      user ← or_refuse "" found
      refuse_if (is_wrong_password user password) user.id invalid_credentials
      refuse_if (not (is_active user)) user.id account_disabled
      if has_two_factor user && is_empty totp_code
          then challenge_user user
          else complete_login user totp_code

    unfoldable pub complete_two_factor_login : Text → Text → Exec LoginResult
    unfolding complete_login fail_if
    complete_two_factor_login challenge code = do
      claims ← or_fail invalid_credentials (parse now challenge)
      fail_if (not (str_eq claims.typ token_type_challenge)) invalid_credentials
      found ← try (Users.get claims.sub)
      user ← or_credentials found
      fail_if (not (is_active user)) account_disabled
      complete_login user code

  abbrev or_fresh : String → String → String
  or_fresh sid fresh = if str_eq sid "" then fresh else sid

  unfoldable pub refresh_session : String → Text → Exec (TokenPair × User)
  unfolding issue_for_session fail_if
  refresh_session fresh refresh_token = do
    claims ← or_fail invalid_credentials (parse now refresh_token)
    fail_if (not (str_eq claims.typ token_type_refresh)) invalid_credentials
    revoked ← Sessions.is_revoked now claims.sid claims.sub
    fail_if revoked invalid_credentials
    found ← try (Users.get claims.sub)
    user ← or_credentials found
    fail_if (not (is_active user)) account_disabled
    pair ← issue_for_session user (or_fresh claims.sid fresh)
    pure (pair, user)
