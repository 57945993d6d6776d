-- ===== src/Service/Auth/Tests.antt =====
-- Accounts, sign-ins and sessions at concrete inputs.
use certio.Prelude.{
  ℕ, arith, eq_iff, ◌≡◌, refl, true, Bool, List, [], ◌∷◌, Option, none, some, String, first,
  if◌then◌else◌,
}
use certio.Text.{Text, txt, text_eq}
use certio.Store.Models.{User}
use certio.Store.Exec.{World, empty_world, err}
use certio.Store.Exec.Triple.{Triple, Anything}
use certio.Store.Repos.Users.{has_email}
use certio.Service.Scope.{Principal}
use certio.Service.TwoFactor.{Authenticator}
use certio.Service.Auth.{Claims, Jwt, Lifetimes, log_in, complete_two_factor_login, refresh_session}
use certio.Service.Auth.Access.{auth, revoke_session, revoke_all_sessions}
use certio.Store.Repos.Users
use certio.Store.Exec.{◌>>=◌, select_first, select, fail_if, validation}
use certio.Service.Auth.Accounts.{UserChanges, delete_user, keep_last_admin}
use certio.Service.OAuth.Tests.{idp, jwt as oauth_jwt}
use certio.Service.Auth.Administered.{Administered}
use certio.Service.Auth.Administered.Requests.{
  AccountRequest, creating, changing, deleting, signing_in, serve_accounts,
  serve_accounts-Administered,
}
use certio.Service.Auth.Factor.{Accounts}
use certio.Service.Auth.Factor.Logins.{
  LoggedIn, log_in_lem, Completed, complete_two_factor_login_lem,
}
use certio.Service.Auth.SignedOut.Writes.{
  SessionWrite, denying, pruning, write_sessions, IsRefused, revoke_session-IsRefused,
  revoke_all_sessions-IsRefused,
}

abbrev admin : User
admin = record {
  id = "a";
  email = txt "a@example.com";
  name = txt "A";
  password_hash = txt "hash";
  role = "admin";
  status = "active";
  last_login_at = none;
  oauth_provider = [];
  oauth_subject = [];
  totp_enabled = true;
  totp_secret = some (txt "secret");
  totp_enabled_at = some 1;
  totp_last_step = 2;
  recovery_codes = [];
}

abbrev instance_world : World
instance_world = record empty_world { users = admin ∷ [] }

abbrev lifetimes : Lifetimes
lifetimes = record { access_ttl = 900; refresh_ttl = 3600; refresh_setting = 3600 }

abbrev demotion : UserChanges
demotion = record { name = none; role = some "viewer"; status = none; password = none }

abbrev hash_of : Text → Option Text
hash_of password = some password

-- The only administrator stays, and a second one can take the place of the first.
abbrev requests : List (List Bool × ℕ × AccountRequest)
requests =
    ([], 1, changing "a" demotion)
    ∷ ([], 2, deleting "a")
    ∷ ([], 3, creating "b" (txt "b@example.com") (txt "B") (txt "correct horse") "admin")
    ∷ (true ∷ [], 4, deleting "a")
    ∷ ([], 5, changing "a" demotion)
    ∷ ([], 6, signing_in "c" "f" (txt "code") "s")
    ∷ ([], 7, deleting "b")
    ∷ []

last_admin_stays : (delete_user "a" instance_world).0 ≡ err validation
unfolding delete_user ◌>>=◌ Users.get Users.count_admins select_first select fail_if keep_last_admin
last_admin_stays = refl

serve_accounts-Administered_example : Administered (
    serve_accounts hash_of lifetimes idp
      (txt "https://ca/oauth/callback")
      oauth_jwt
      requests
      instance_world)
serve_accounts-Administered_example =
    serve_accounts-Administered hash_of lifetimes idp (txt "https://ca/oauth/callback") oauth_jwt
      requests instance_world ((refl, tt), refl)

abbrev authenticator : Authenticator
authenticator = record {
  Key = Text;
  decode_secret = λ secret. some secret;
  hotp = λ key step. txt "123456";
  hash_recovery_code = λ code. code;
  open_secret = λ sealed. some sealed;
  verify_password = λ password hash. text_eq password (txt "correct horse");
}

-- A token is the name of its type.
abbrev claims_for : String → Claims
claims_for typ = record {
  sub = "a";
  email = txt "a@example.com";
  name = txt "A";
  role = "admin";
  typ = typ;
  iat = 100;
  exp = 1000;
  sid = "s";
}

abbrev web_tokens : Jwt
web_tokens = record {
  sign = λ claims. some (txt claims.typ);
  parse = λ now raw.
      if text_eq raw (txt "2fa")
      then some (claims_for "2fa")
      else if text_eq raw (txt "refresh")
      then some (claims_for "refresh")
      else some (claims_for "access");
}

log_in_lem_example :
    Triple Anything
      (Accounts (admin ∷ []))
      (log_in web_tokens lifetimes 100 authenticator "s"
        (txt "a@example.com")
        (txt "correct horse")
        (txt "123456"))
      (λ r w.
        LoggedIn web_tokens authenticator lifetimes 100 "s"
          (txt "correct horse")
          (txt "123456")
          (first (has_email (txt "a@example.com")) (admin ∷ []))
          r
          w)
log_in_lem_example =
    log_in_lem web_tokens authenticator lifetimes 100 "s" (admin ∷ []) (txt "a@example.com")
      (txt "correct horse") (txt "123456") (refl, tt)

complete_two_factor_login_lem_example :
    Triple Anything
      (Accounts (admin ∷ []))
      (complete_two_factor_login web_tokens lifetimes 100 authenticator "s"
        (txt "2fa")
        (txt "123456"))
      (λ r w.
        Completed web_tokens authenticator lifetimes 100 "s"
          (txt "123456")
          (admin ∷ [])
          (web_tokens.parse 100 (txt "2fa"))
          r
          w)
complete_two_factor_login_lem_example =
    complete_two_factor_login_lem web_tokens authenticator lifetimes 100 "s" (admin ∷ [])
      (txt "2fa") (txt "123456") (refl, tt)

abbrev session : Principal
session = record {
  user_id = "a";
  email = txt "a@example.com";
  name = txt "A";
  role = "admin";
  token_id = "";
  scopes = [];
  session_id = "s";
  session_expiry = 1000;
}

abbrev later : List (List Bool × SessionWrite)
later =
    ([], denying 120 "other" "a" "logout" 2000) ∷ (true ∷ [], pruning 150) ∷ ([], pruning 180) ∷ []

abbrev signed_out : World
signed_out = (revoke_session lifetimes 110 session "logout" instance_world).1

revoke_session-IsRefused_example :
    IsRefused
      (refresh_session web_tokens lifetimes 200 "t"
        (txt "refresh")
        (write_sessions later signed_out)).0
    × IsRefused
        (auth (λ raw. raw) 200 web_tokens (txt "refresh") (write_sessions later signed_out)).0
unfolding revoke_session certio.Store.Exec.◌>>=◌ certio.Store.Repos.Sessions.revoke
    certio.Store.Exec.write certio.Store.Exec.record_audit text_eq certio.Text.has_prefix
revoke_session-IsRefused_example =
    revoke_session-IsRefused web_tokens (λ raw. raw) lifetimes 110 200 "logout" session
      instance_world later (txt "refresh") (claims_for "refresh") "t"
      (λ e. absurd (ground (arith, eq_iff "s" ""))) refl refl (tt, (omega arith, (omega arith, tt)))
      (omega arith) (omega arith) (omega arith) (omega arith) refl refl refl refl

abbrev all_signed_out : World
all_signed_out = (revoke_all_sessions lifetimes 50 "a" "account changed" instance_world).1

-- The access token was issued at 100, after the account was changed at 50.
revoke_all_sessions-IsRefused_example :
    IsRefused
      (refresh_session web_tokens lifetimes 200 "t"
        (txt "access")
        (write_sessions later all_signed_out)).0
    × IsRefused
        (auth (λ raw. raw) 200 web_tokens (txt "access") (write_sessions later all_signed_out)).0
unfolding revoke_all_sessions certio.Store.Repos.Sessions.revoke_all_for_user
    certio.Store.Exec.write text_eq certio.Text.has_prefix
revoke_all_sessions-IsRefused_example =
    revoke_all_sessions-IsRefused web_tokens (λ raw. raw) lifetimes 50 200 "account changed" "a"
      instance_world later (txt "access") (claims_for "access") "t"
      (λ e. absurd (ground (arith, eq_iff "a" ""))) refl refl (tt, (omega arith, (omega arith, tt)))
      (omega arith) refl refl (λ e. absurd (ground (arith, eq_iff "s" ""))) refl
