-- ===== src/Service/OAuth/Administered.antt =====
-- internal/service/oauth.go: a sign-in with the identity provider keeps the administrators.
pub mod Resolved
use certio.Prelude.{ℕ, ◌≡◌, refl, ◌∙◌, List, [], Option, none, some, String, arith, any, ◌∷◌}
use certio.Text.{Text}
use certio.Store.{has_key, HasUniqueKeys}
use certio.Store.Models.{User, OAuthProvider}
use certio.Store.Exec.{Err, Result, ok, err, invalid_credentials}
use certio.Store.Exec.Triple.{
  Pred, Triple, Triple-pure, Triple-fail, Triple-bind, Triple-if, Triple-weaken, Triple-write,
  Triple-select_first, Triple-try, Triple-try_result, Triple-record_audit, Post,
}
use certio.Store.Repos.{update_row}
use certio.Store.Repos.OAuth
use certio.Store.Repos.OAuth.{first_provider, is_not_found}
use certio.Store.Repos.Users
use certio.Store.Repos.Users.{user_key, is_active_admin}
use certio.Service.TwoFactor.{has_two_factor}
use certio.Service.Auth.{
  Jwt, Lifetimes, issue_session, issue_for_session, issue_challenge, refuse_login,
}
use certio.Service.Auth.Administered.{Administered, administered-IsStable, Triple-or_fail}
use certio.Service.OAuth.{open_session, or_invalid_state, or_login_failed, log_in_with_oauth}
use certio.Service.OAuth.Provider.{Idp, fetch_oauth_profile}
use certio.Service.OAuth.Settings.{enabled_oauth_provider, enabled_of}
use certio.Service.OAuth.Administered.Resolved.{Triple-allowed, Triple-resolve}

Triple-enabled : Triple Administered Administered enabled_oauth_provider (λ _. Administered)
unfolding enabled_oauth_provider OAuth.get
Triple-enabled =
    Triple-bind
      (Triple-try_result _ (
        Triple-weaken {R = λ _. Administered} (λ p w h. h.0)
          (Triple-select_first {I = Administered} administered-IsStable (λ w h. h)
            (λ w. first_provider w.oauth_providers))))
      λ r. enabled r
  where
    enabled :
        (r : Result OAuthProvider)
        → Triple Administered
            (λ w. Post Administered (λ _. Administered) r w)
            (enabled_of r)
            (λ _. Administered)
    enabled (ok p) = Triple-bind (Triple-allowed _ _) λ _. Triple-pure p (λ w h. h)
    enabled (err e) =
        Triple-if (is_not_found e) _ _ (λ _. Triple-fail _ (λ w h. h))
          (λ _. Triple-fail _ (λ w h. h))

-- The time of a sign-in is no right.
any-update_row :
    (now : ℕ) (id : String) (rows : List User)
    → any is_active_admin (update_row user_key id (λ u. record u { last_login_at = some now }) rows)
      ≡ any is_active_admin rows
unfolding update_row
any-update_row now id [] = refl
any-update_row now id (x ∷ rows) = ground (arith, any-update_row now id rows)

any-key-update_row :
    (now : ℕ) (id : String) (rows : List User) (j : String)
    → any
        (has_key user_key j)
        (update_row user_key id (λ u. record u { last_login_at = some now }) rows)
      ≡ any (has_key user_key j) rows
unfolding update_row
any-key-update_row now id [] j = refl
any-key-update_row now id (x ∷ rows) j = ground (arith, any-key-update_row now id rows j)

update_row-HasUniqueKeys :
    (now : ℕ) (id : String) (rows : List User)
    → HasUniqueKeys user_key rows
    → HasUniqueKeys user_key
        (update_row user_key id (λ u. record u { last_login_at = some now }) rows)
unfolding update_row
update_row-HasUniqueKeys now id [] h = tt
update_row-HasUniqueKeys now id (x ∷ rows) (new, h) =
    ground
      (arith, any-key-update_row now id rows (user_key x), update_row-HasUniqueKeys now id rows h)

Triple-touch_login :
    (now : ℕ) (id : String)
    → Triple Administered Administered (Users.touch_login now id) (λ _. Administered)
unfolding Users.touch_login
Triple-touch_login now id =
    Triple-write administered-IsStable (λ w h. h) _
      λ w h. (update_row-HasUniqueKeys now id w.users h.0, any-update_row now id w.users ∙ h.1)

module _ (idp : Idp) (redirect_uri : Text) (jwt : Jwt) (ttl : Lifetimes) (now : ℕ) where
  Triple-fetch :
      (p : OAuthProvider) (token : Text)
      → Triple Administered Administered
          (fetch_oauth_profile idp redirect_uri p token)
          (λ _. Administered)
  unfolding fetch_oauth_profile
  Triple-fetch p token = Triple-bind (Triple-or_fail _ _ (λ w h. h)) λ fields.
      Triple-bind (Triple-allowed _ _)
        λ _. Triple-bind (Triple-allowed _ _) λ _. Triple-pure _ (λ w h. h)

  Triple-refuse_login :
      {A : Type 0} (Q : A → Pred) (id : String) (e : Err)
      → Triple Administered Administered (refuse_login id e) Q
  Triple-refuse_login Q id e =
      Triple-bind (Triple-record_audit administered-IsStable _ _) λ _. Triple-fail e (λ w h. h)

  Triple-or_invalid_state :
      (r : Option Text)
      → Triple Administered Administered (or_invalid_state idp redirect_uri r) (λ _. Administered)
  Triple-or_invalid_state none = Triple-refuse_login (λ _. Administered) "" invalid_credentials
  Triple-or_invalid_state (some verifier) = Triple-pure verifier (λ w h. h)

  Triple-or_login_failed :
      (r : Result User)
      → Triple Administered
          (λ w. Post Administered (λ _. Administered) r w)
          (or_login_failed idp redirect_uri r)
          (λ _. Administered)
  Triple-or_login_failed (ok u) = Triple-pure u (λ w h. h)
  Triple-or_login_failed (err e) = Triple-refuse_login (λ _. Administered) "" e

  Triple-open_session :
      (fresh : String) (v : User)
      → Triple Administered Administered
          (open_session idp redirect_uri jwt ttl now fresh v)
          (λ _. Administered)
  unfolding issue_challenge issue_session issue_for_session
  Triple-open_session fresh v =
      Triple-if (has_two_factor v) _ _
        (λ _. Triple-bind (Triple-or_fail _ _ (λ w h. h)) λ token. Triple-pure _ (λ w h. h))
        (λ _.
          Triple-bind
            (Triple-bind
              (Triple-bind (Triple-or_fail _ _ (λ w h. h)) λ access.
                Triple-bind (Triple-or_fail _ _ (λ w h. h)) λ refresh. Triple-pure _ (λ w h. h))
              λ pair. Triple-bind (Triple-try _ (Triple-touch_login now v.id)) λ _.
                Triple-bind (Triple-record_audit administered-IsStable _ _)
                  λ _. Triple-pure pair (λ w h. h))
            λ pair. Triple-pure _ (λ w h. h))

  pub Triple-log_in_with_oauth :
      (new_id fresh : String) (code : Text) (state : String)
      → Triple Administered Administered
          (log_in_with_oauth idp redirect_uri jwt ttl now new_id fresh code state)
          (λ _. Administered)
  unfolding log_in_with_oauth
  Triple-log_in_with_oauth new_id fresh code state = Triple-bind Triple-enabled λ p.
      Triple-bind {Q = λ _. Administered} (record { at = λ w h. h })
        λ redeemed. Triple-bind (Triple-or_invalid_state redeemed) λ verifier.
          Triple-bind (Triple-allowed _ _) λ _.
            Triple-bind (Triple-or_fail _ _ (λ w h. h)) λ secret.
              Triple-bind (Triple-or_fail _ _ (λ w h. h)) λ token.
                Triple-bind (Triple-fetch p token) λ profile.
                  Triple-bind (Triple-try_result _ (Triple-resolve new_id p profile)) λ r.
                    Triple-bind (Triple-or_login_failed r)
                      λ user. Triple-bind (Triple-allowed _ _) λ _. Triple-open_session fresh user
