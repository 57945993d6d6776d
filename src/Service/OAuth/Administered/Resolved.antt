-- ===== src/Service/OAuth/Administered/Resolved.antt =====
-- internal/service/oauth.go: the account that a profile leads to keeps the administrators.
use certio.Prelude.{◌≡◌, refl, sym, subst, ◌∙◌, Bool, some, String, first, is_empty, ◌||◌}
use certio.Text.{Text}
use certio.Store.{find-first, find, save-HasUniqueKeys}
use certio.Store.Counts.{any-save}
use certio.Store.Models.{User, OAuthProvider}
use certio.Store.Exec.{Err, Result, ok, err, Exec, fail_if, select_first}
use certio.Store.Exec.Triple.{
  Pred, IsStable, Triple, Triple-pure, Triple-fail, Triple-fail_if, Triple-bind, Triple-if,
  Triple-of, Triple-weaken, Triple-write, Triple-select_first, Triple-try_result,
  Triple-record_audit, Post,
}
use certio.Store.Repos.OAuth.{is_not_found}
use certio.Store.Repos.Users
use certio.Store.Repos.Users.{user_key, has_email, has_oauth, is_active_admin}
use certio.Service.Auth.Administered.{Administered, administered-IsStable, Triple-create}
use certio.Service.OAuth.Provider.{OAuthProfile}
use certio.Service.OAuth.Resolution.{
  follows, has_moved, linked, follow_oauth_user, link_oauth_user, provision_oauth_user, found_or,
  resolve_oauth_user,
}

-- The row that was found is there.
abbrev Has : User → Pred
Has u w = Administered w × (find user_key u.id w.users ≡ some u)

has-IsStable : (u : User) → IsStable (Has u)
has-IsStable u = record { faults = λ w fs h. h; audit = λ w log h. h }

-- A row with the rights of the one that was found is written over it.
Triple-put :
    (u v : User)
    → v.id ≡ u.id
    → is_active_admin v ≡ is_active_admin u
    → Triple Administered (Has u) (Users.update v) (λ _. Administered)
unfolding Users.update
Triple-put u v same rights =
    Triple-write (has-IsStable u) (λ w h. h.0) _
      λ w ((keys, some_admin), found). (
        save-HasUniqueKeys user_key v w.users keys,
        any-save user_key is_active_admin w.users u v
            (subst (λ id. find user_key id w.users ≡ some u) (sym same) found) (λ e. rights ∙ e)
            some_admin,
      )

Triple-follow :
    (profile : OAuthProfile) (u : User)
    → Triple Administered (Has u) (follow_oauth_user profile u) (λ _. Administered)
unfolding follow_oauth_user
Triple-follow profile u =
    Triple-if (has_moved u profile) _ _
      (λ _. Triple-bind (Triple-put u (follows u profile) refl refl) λ _. Triple-pure _ (λ w h. h))
      (λ _. Triple-pure u (λ w h. h.0))

Triple-link :
    (p : OAuthProvider) (profile : OAuthProfile) (u : User)
    → Triple Administered (Has u) (link_oauth_user p profile u) (λ _. Administered)
unfolding link_oauth_user
Triple-link p profile u = Triple-bind (Triple-fail_if _ _ (λ w h. h.0)) λ _.
    Triple-bind (Triple-of (λ w h. h.0) (Triple-put u (linked p profile u) refl refl))
      λ _. Triple-bind (Triple-record_audit administered-IsStable _ _) λ _. Triple-pure _ (λ w h. h)

Triple-provision :
    (new_id : String) (p : OAuthProvider) (profile : OAuthProfile)
    → Triple Administered Administered (provision_oauth_user new_id p profile) (λ _. Administered)
unfolding provision_oauth_user
Triple-provision new_id p profile =
    Triple-bind (Triple-create _)
      λ _. Triple-bind (Triple-record_audit administered-IsStable _ _) λ _. Triple-pure _ (λ w h. h)

pub Triple-allowed :
    (b : Bool) (e : Err) → Triple Administered Administered (fail_if b e) (λ _. Administered)
Triple-allowed b e = Triple-weaken (λ a w h. h.0) (Triple-fail_if b e (λ w h. h))

-- What is done with the answer of a look-up.
Triple-found :
    (there : User → Exec User) (absent : Exec User) (r : Result User)
    → ((u : User) → Triple Administered (Has u) (there u) (λ _. Administered))
    → Triple Administered Administered absent (λ _. Administered)
    → Triple Administered
        (λ w. Post Administered Has r w)
        (found_or r there absent)
        (λ _. Administered)
Triple-found there absent (ok u) k n = k u
Triple-found there absent (err e) k n =
    Triple-if (is_not_found e) _ _ (λ _. n) (λ _. Triple-fail e (λ w h. h))

pub Triple-look :
    (test : User → Bool)
    → Triple Administered Administered (select_first (λ w. first test w.users)) Has
Triple-look test =
    Triple-weaken (λ u w h. (h.0, find-first user_key test w.users u h.0.0 h.1))
      (Triple-select_first administered-IsStable (λ w h. h) (λ w. first test w.users))

Triple-get_by_oauth :
    (provider subject : Text)
    → Triple Administered Administered (Users.get_by_oauth provider subject) Has
unfolding Users.get_by_oauth
Triple-get_by_oauth provider subject =
    Triple-if (is_empty provider || is_empty subject) _ _ (λ _. Triple-fail _ (λ w h. h))
      (λ _. Triple-look (has_oauth provider subject))

pub Triple-resolve :
    (new_id : String) (p : OAuthProvider) (profile : OAuthProfile)
    → Triple Administered Administered (resolve_oauth_user new_id p profile) (λ _. Administered)
unfolding resolve_oauth_user Users.get_by_email
Triple-resolve new_id p profile = Triple-bind (Triple-allowed _ _) λ _.
    Triple-bind (Triple-try_result _ (Triple-get_by_oauth p.name profile.subject)) λ r.
      Triple-found _ _ r (Triple-follow profile) (
        Triple-bind (Triple-allowed _ _) λ _.
          Triple-bind (Triple-try_result _ (Triple-look (has_email profile.email))) λ found.
            Triple-found _ _ found (Triple-link p profile)
              (Triple-bind (Triple-allowed _ _) λ _. Triple-provision new_id p profile))
