-- ===== src/Service/OAuth.antt =====
-- internal/service/oauth.go: sign-in with an external identity provider. Random values, the clock,
-- fresh identifiers and the address of the instance are arguments.
pub mod Provider
pub mod Resolution
pub mod States
pub mod Documents
pub mod Settings
pub mod Accounts
pub mod SignIn
pub mod Administered
pub mod Tests
use certio.Prelude.{
  ℕ, ◌+◌, false, not, List, [], ◌∷◌, ◌++◌, Option, none, some, String, if◌then◌else◌, is_empty,
}
use certio.Text.{Text, txt, contains}
use certio.Store.Models.{User, OAuthStates}
use certio.Store.Exec.{
  Result, ok, err, validation, unusable, invalid_credentials, account_disabled, Exec, pure, fail_if,
  try, ◌>>=◌, ◌>>◌,
}
use certio.Store.Repos.Users
use certio.Store.Repos.Users.{is_active}
use certio.Service.Loading.{or_fail}
use certio.Service.TwoFactor.{has_two_factor}
use certio.Service.Auth.{
  Jwt, Lifetimes, LoginResult, signed_in, challenged, challenge_ttl, issue_session, issue_challenge,
  refuse_login,
}
use certio.Service.OAuth.States.{issue, redeem}
use certio.Service.OAuth.Settings.{enabled_oauth_provider}
use certio.Service.OAuth.Provider.{Idp, exchange_oauth_code, fetch_oauth_profile}
use certio.Service.OAuth.Resolution.{resolve_oauth_user}

-- strings.Join with a blank
abbrev join : List Text → Text
join [] = []
join (s ∷ []) = s
join (s ∷ t ∷ rest) = s ++ b' ' ∷ join (t ∷ rest)

-- The sign-ins that the service remembers.
abbrev pub with_states : {A : Type 0} → (OAuthStates → A × OAuthStates) → Exec A
with_states f w = let (a, s) = f w.oauth_states in (ok a, record w { oauth_states = s })

module _ (idp : Idp) (redirect_uri : Text) where
  open idp use {encode_query, challenge_of, open_secret}

  abbrev pub or_invalid_state : Option Text → Exec Text
  or_invalid_state none = refuse_login "" invalid_credentials
  or_invalid_state (some verifier) = pure verifier

  abbrev pub or_login_failed : Result User → Exec User
  or_login_failed (ok u) = pure u
  or_login_failed (err e) = refuse_login "" e

  abbrev pub sealed : Option Text → (Text → Option Text) → Option Text
  sealed none f = none
  sealed (some s) f = f s

  -- The address to send the caller to.
  unfoldable pub start_oauth : ℕ → Option String → Option Text → Exec Text
  unfolding enabled_oauth_provider issue contains
  start_oauth now drawn_state drawn_verifier = do
    p ← enabled_oauth_provider
    issued ← with_states (issue drawn_state drawn_verifier now)
    (state, verifier) ← or_fail unusable issued
    let query =
        (txt "response_type", txt "code")
        ∷ (txt "client_id", p.client_id)
        ∷ (txt "redirect_uri", redirect_uri)
        ∷ (txt "state", txt state)
        ∷ (txt "code_challenge", challenge_of verifier)
        ∷ (txt "code_challenge_method", txt "S256")
        ∷ []
    let scope = if is_empty p.scopes then [] else (txt "scope", join p.scopes) ∷ []
    let separator = if contains b'?' p.auth_url then txt "&" else txt "?"
    pure (p.auth_url ++ (separator ++ encode_query (query ++ scope)))

  module _ (jwt : Jwt) (ttl : Lifetimes) where
    abbrev pub open_session : ℕ → String → User → Exec LoginResult
    open_session now fresh user =
        let challenge = (do
          token ← issue_challenge jwt ttl now user
          pure (challenged user token challenge_ttl)) in
        let session = (do
          pair ← issue_session jwt ttl now fresh user
          pure (signed_in pair user false 0)) in
        if has_two_factor user then challenge else session

    unfoldable pub log_in_with_oauth : ℕ → String → String → Text → String → Exec LoginResult
    unfolding enabled_oauth_provider redeem exchange_oauth_code fetch_oauth_profile
        resolve_oauth_user issue_challenge issue_session fail_if
    log_in_with_oauth now new_id fresh code state = do
      p ← enabled_oauth_provider
      redeemed ← with_states (redeem state now)
      verifier ← or_invalid_state redeemed
      fail_if (is_empty code) validation
      secret ← or_fail unusable (sealed p.client_secret open_secret)
      access_token ← or_fail unusable (exchange_oauth_code idp redirect_uri p secret code verifier)
      profile ← fetch_oauth_profile idp redirect_uri p access_token
      resolved ← try (resolve_oauth_user new_id p profile)
      user ← or_login_failed resolved
      fail_if (not (is_active user)) account_disabled
      open_session now fresh user
