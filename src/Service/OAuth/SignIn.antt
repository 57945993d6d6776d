-- ===== src/Service/OAuth/SignIn.antt =====
-- internal/service/oauth.go: what a sign-in with the identity provider has checked when it returns.
pub mod Sessions
use certio.Prelude.{ℕ, ◌≡◌, true, false, List, Option, none, some, String, is_empty}
use certio.Text.{Text}
use certio.Store.Models.{User, OAuthProvider, OAuthStates}
use certio.Store.Exec.{◌>>=◌, ◌>>◌}
use certio.Store.Exec.Triple.{Pred, Triple}
use certio.Store.Repos.OAuth
use certio.Store.Repos.Users
use certio.Service.Auth.{Jwt, Lifetimes, LoginResult}
use certio.Store.Repos.Users.{is_active}
use certio.Service.OAuth.{sealed}
use certio.Service.OAuth.Provider.{
  OAuthProfile, Idp, exchange_oauth_code, profile_of, document_in, get_document,
}
use certio.Service.OAuth.States.{redeem}
use certio.Service.OAuth.Documents.{Fields}
use certio.Service.OAuth.Accounts.{Begins, Admitted}
use certio.Service.OAuth.SignIn.Sessions.{OpenedFor, Kept}

abbrev pub Opens : List User → List OAuthProvider → OAuthStates → Pred
Opens rows providers states w = Begins rows states w × (w.oauth_providers ≡ providers)

module _ (idp : Idp) (redirect_uri : Text) (jwt : Jwt) (ttl : Lifetimes) (now : ℕ) where
  open idp use {Number, send, open_secret}

  -- The profile is the one that the provider describes to the bearer of the token.
  abbrev pub Profiles : OAuthProvider → Text → OAuthProfile → Type 0
  Profiles p token profile =
      let (status, body) = send (get_document p.user_info_url token) in
      (fields : Fields Number) × (document_in idp redirect_uri status body ≡ some fields)
      × (profile ≡ profile_of idp redirect_uri p fields)
      × (is_empty profile.subject ≡ false)
      × (is_empty profile.email ≡ false)

  -- The provider gave the profile for the code and the verifier that was remembered.
  abbrev pub Vouches : OAuthProvider → OAuthStates → String → Text → OAuthProfile → Type 0
  Vouches p states state code profile =
      (verifier : Text) × (secret : Text) × (token : Text) × ((redeem state now states).0
        ≡ some verifier)
      × (sealed idp redirect_uri p.client_secret open_secret ≡ some secret)
      × (exchange_oauth_code idp redirect_uri p secret code verifier ≡ some token)
      × Profiles p token profile

  -- The enabled provider vouched for the profile of an active account, for which the session is.
  abbrev pub SignedInBy :
      String → List User → OAuthStates → String → Text → Option OAuthProvider → LoginResult → Pred
  SignedInBy new_id rows states state code none r w = ⊥
  SignedInBy new_id rows states state code (some p) r w =
      (p.enabled ≡ true)
      × ((profile : OAuthProfile) × (v : User) × Vouches p states state code profile
          × Admitted new_id p profile rows v
          × (is_active v ≡ true)
          × OpenedFor idp redirect_uri jwt ttl now v r
          × Kept idp redirect_uri jwt ttl now (redeem state now states).1 v w)
