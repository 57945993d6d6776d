-- ===== src/Service/OAuth/SignIn/Sessions.antt =====
-- internal/service/oauth.go: the session or the challenge that a sign-in with the identity provider
-- ends in.
use certio.Prelude.{ℕ, ◌+◌, ◌≡◌, refl, true, false, some, String}
use certio.Text.{Text}
use certio.Store.Models.{User, OAuthStates}
use certio.Store.Exec.{World}
use certio.Store.Exec.Triple.{
  Pred, IsStable, Triple, Triple-pure, Triple-bind, Triple-if, Triple-write, Triple-try,
  Triple-record_audit, Anything,
}
use certio.Store.Repos.Users
use certio.Service.Crl.Steps.{Triple-or_fail}
use certio.Service.TwoFactor.{has_two_factor}
use certio.Service.Auth.{
  Jwt, Lifetimes, TokenPair, LoginResult, signed_in, challenged, challenge_ttl, claims_of,
  token_type_access, token_type_refresh, token_type_challenge, issue_for_session, issue_session,
  issue_challenge,
}
use certio.Service.Auth.Factor
use certio.Service.OAuth.{open_session}
use certio.Service.OAuth.Provider.{Idp}
use certio.Service.OAuth.Accounts.{Remembers, Keeps}

module _ (idp : Idp) (redirect_uri : Text) (jwt : Jwt) (ttl : Lifetimes) (now : ℕ) where
  -- The tokens of a session name the account, which has no second factor; or it has one, and the
  -- challenge names it.
  abbrev pub OpenedFor : User → LoginResult → Type 0
  OpenedFor v (signed_in pair u used left) =
      (u ≡ v)
      × (has_two_factor v ≡ false)
      × (jwt.sign (claims_of v token_type_access (now + ttl.access_ttl) now pair.session_id)
          ≡ some pair.access_token)
      × (jwt.sign (claims_of v token_type_refresh (now + ttl.refresh_ttl) now pair.session_id)
          ≡ some pair.refresh_token)
  OpenedFor v (challenged u token seconds) =
      (u ≡ v)
      × (has_two_factor v ≡ true)
      × (jwt.sign (claims_of v token_type_challenge (now + challenge_ttl) now "") ≡ some token)

  -- The tokens of a pair are signed for the account.
  abbrev IsSignedFor : User → TokenPair → Type 0
  IsSignedFor v pair =
      (jwt.sign (claims_of v token_type_access (now + ttl.access_ttl) now pair.session_id)
        ≡ some pair.access_token)
      × (jwt.sign (claims_of v token_type_refresh (now + ttl.refresh_ttl) now pair.session_id)
          ≡ some pair.refresh_token)

  -- The account is in the table, and no more than the time of its last sign-in was written to it.
  abbrev pub Kept : OAuthStates → User → Pred
  Kept states v w = Remembers states w × Factor.Kept v w

  abbrev Signs : OAuthStates → User → TokenPair → Pred
  Signs states v pair w = IsSignedFor v pair × Kept states v w

  signs-IsStable :
      (states : OAuthStates) (v : User) (pair : TokenPair) → IsStable (Signs states v pair)
  signs-IsStable states v pair = record { faults = λ w fs h. h; audit = λ w log h. h }

  kept : (states : OAuthStates) (v : User) (w : World) → Keeps states v w → Kept states v w
  kept states v w h = (h.0, (v.last_login_at, h.1))

  Triple-issue_session :
      (states : OAuthStates) (fresh : String) (v : User)
      → Triple Anything (Keeps states v) (issue_session jwt ttl now fresh v) (Signs states v)
  unfolding issue_session issue_for_session Users.touch_login
  Triple-issue_session states fresh v =
      Triple-bind {Q = Signs states v}
        (Triple-bind (Triple-or_fail _ _) λ access.
          Triple-bind (Triple-or_fail _ _)
            λ refresh. Triple-pure _ (λ w h. ((h.0.1, h.1), kept states v w h.0.0)))
        λ pair.
          Triple-bind
            (Triple-try {J = Signs states v pair} _ (
              Triple-write (signs-IsStable states v pair) (λ w h. h) _
                (λ w h. (h.0, (h.1.0, Factor.touched now v w h.1.1)))))
            λ _.
              Triple-bind (Triple-record_audit (signs-IsStable states v pair) _ _)
                λ _. Triple-pure pair (λ w h. h)

  pub Triple-open_session :
      (states : OAuthStates) (fresh : String) (v : User)
      → Triple Anything
          (Keeps states v)
          (open_session idp redirect_uri jwt ttl now fresh v)
          (λ r w. OpenedFor v r × Kept states v w)
  unfolding issue_challenge
  Triple-open_session states fresh v =
      Triple-if (has_two_factor v) _ _
        (λ on.
          Triple-bind (Triple-or_fail _ _)
            λ token. Triple-pure _ (λ w h. ((refl, on, h.1), kept states v w h.0)))
        (λ off.
          Triple-bind (Triple-issue_session states fresh v)
            λ pair. Triple-pure _ (λ w h. ((refl, off, h.0.0, h.0.1), h.1)))
