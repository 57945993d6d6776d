-- ===== src/Service/Auth/Administered/Requests.antt =====
-- internal/service/auth.go: sequences of the requests that write accounts, each at its own time and
-- with its own schedule of failing queries.
use certio.Prelude.{ℕ, refl, Bool, ◌||◌, List, [], ◌∷◌, Option, none, some, String, ltb, is_empty}
use certio.Text.{Text}
use certio.Store.Exec.{World, Exec, pure}
use certio.Store.Exec.Triple.{
  Triple, Triple-pure, Triple-fail_if, Triple-bind, Triple-if, Triple-weaken, Triple-select,
  Triple-record_audit, Triple-Keeps,
}
use certio.Store.Exec.Triple.{Pred}
use certio.Store.Repos.Users
use certio.Store.Repos.Users.{is_admin}
use certio.Service.Auth.{Lifetimes, Jwt}
use certio.Service.OAuth.{log_in_with_oauth}
use certio.Service.OAuth.Provider.{Idp}
use certio.Service.OAuth.Administered.{Triple-log_in_with_oauth}
use certio.Service.Auth.Accounts.{
  hash_if_given, create_user, update_user, delete_user, bootstrap, UserChanges, losing_admin,
  apply_changes,
}
use certio.Service.Auth.Administered.{
  Administered, administered-IsStable, Triple-or_fail, Triple-end_sessions, Triple-get,
  Triple-check, Triple-create, Triple-delete, Triple-update, Triple-keep_last_admin, kept-changes,
}

module _ (hash_password : Text → Option Text) where
  pub Triple-create_user :
      (new_id : String) (email name password : Text) (role : String)
      → Triple Administered Administered
          (create_user hash_password new_id email name password role)
          (λ _. Administered)
  unfolding create_user
  Triple-create_user new_id email name password role =
      Triple-bind (Triple-weaken (λ a w h. h.0) (Triple-fail_if _ _ (λ w h. h))) λ _.
        Triple-bind (Triple-weaken (λ a w h. h.0) (Triple-fail_if _ _ (λ w h. h))) λ _.
          Triple-bind (Triple-weaken (λ a w h. h.0) (Triple-fail_if _ _ (λ w h. h))) λ _.
            Triple-bind (Triple-or_fail _ _ (λ w h. h)) λ hash. Triple-bind (Triple-create _) λ _.
              Triple-bind (Triple-record_audit administered-IsStable _ _)
                λ _. Triple-pure _ (λ w h. h)

  Triple-hash :
      {P : Pred} (old : Text) (given_password : Option Text)
      → ((w : World) → P w → Administered w)
      → Triple Administered P (hash_if_given hash_password old given_password) (λ _. P)
  Triple-hash old none weak = Triple-pure old (λ w h. h)
  Triple-hash old (some password) weak = Triple-or_fail _ _ weak

  pub Triple-update_user :
      (ttl : Lifetimes) (now : ℕ) (id : String) (changes : UserChanges)
      → Triple Administered Administered
          (update_user hash_password ttl now id changes)
          (λ _. Administered)
  unfolding update_user
  Triple-update_user ttl now id changes = Triple-bind (Triple-get id) λ user.
      Triple-bind (Triple-keep_last_admin id user _) λ _.
        Triple-bind (Triple-check id user _ _) λ _. Triple-bind (Triple-check id user _ _) λ _.
          Triple-bind (Triple-hash user.password_hash changes.password (λ w h. h.0.0)) λ hash.
            Triple-bind
              (Triple-update id user (apply_changes changes hash user) (losing_admin user changes)
                refl (kept-changes user changes hash))
              λ _. Triple-bind (Triple-end_sessions ttl now _ user.id) λ _.
                Triple-bind (Triple-record_audit administered-IsStable _ _)
                  λ _. Triple-pure _ (λ w h. h)

  pub Triple-bootstrap :
      (new_id : String) (email password name : Text)
      → Triple Administered Administered
          (bootstrap hash_password new_id email password name)
          (λ _. Administered)
  unfolding bootstrap Users.count
  Triple-bootstrap new_id email password name =
      Triple-bind (Triple-weaken (λ a w h. h.0) (Triple-select administered-IsStable (λ w h. h) _))
        λ count.
          Triple-if (ltb 0 count || is_empty email || is_empty password) (pure none) _
            (λ _. Triple-pure none (λ w h. h))
            (λ _.
              Triple-bind (Triple-create_user new_id email name password "admin")
                λ user. Triple-pure (some user) (λ w h. h))

pub Triple-delete_user :
    (id : String) → Triple Administered Administered (delete_user id) (λ _. Administered)
unfolding delete_user
Triple-delete_user id = Triple-bind (Triple-get id) λ user.
    Triple-bind (Triple-keep_last_admin id user (is_admin user)) λ _.
      Triple-bind (Triple-delete id user (is_admin user) refl)
        λ _. Triple-record_audit administered-IsStable _ _

pub data AccountRequest : Type 0 where
  creating : String → Text → Text → Text → String → AccountRequest
  changing : String → UserChanges → AccountRequest
  deleting : String → AccountRequest
  bootstrapping : String → Text → Text → Text → AccountRequest
  signing_in : String → String → Text → String → AccountRequest

module _ (hash_password : Text → Option Text) (ttl : Lifetimes) (idp : Idp) (redirect_uri : Text)
    (jwt : Jwt) where
  unfoldable perform : AccountRequest → ℕ → World → World
  perform (creating new_id email name password role) now w =
      (create_user hash_password new_id email name password role w).1
  perform (changing id changes) now w = (update_user hash_password ttl now id changes w).1
  perform (deleting id) now w = (delete_user id w).1
  perform (bootstrapping new_id email password name) now w =
      (bootstrap hash_password new_id email password name w).1
  perform (signing_in new_id fresh code state) now w =
      (log_in_with_oauth idp redirect_uri jwt ttl now new_id fresh code state w).1

  -- The schedule of faults that the environment sets up for one request, its time, and the request.
  unfoldable pub serve_accounts : List (List Bool × ℕ × AccountRequest) → World → World
  unfolding perform
  serve_accounts [] w = w
  serve_accounts ((faults, now, request) ∷ requests) w =
      serve_accounts requests (perform request now (record w { faults = faults }))

  by_triple :
      {A : Type 0} {m : Exec A} (w : World)
      → Triple Administered Administered m (λ _. Administered)
      → Administered w
      → Administered (m w).1
  by_triple w t h = (Triple-Keeps t).at w h

  perform-Administered :
      (request : AccountRequest) (now : ℕ) (w : World)
      → Administered w
      → Administered (perform request now w)
  unfolding perform
  perform-Administered (creating new_id email name password role) now w h =
      by_triple w (Triple-create_user hash_password new_id email name password role) h
  perform-Administered (changing id changes) now w h =
      by_triple w (Triple-update_user hash_password ttl now id changes) h
  perform-Administered (deleting id) now w h = by_triple w (Triple-delete_user id) h
  perform-Administered (bootstrapping new_id email password name) now w h =
      by_triple w (Triple-bootstrap hash_password new_id email password name) h
  perform-Administered (signing_in new_id fresh code state) now w h =
      by_triple w (Triple-log_in_with_oauth idp redirect_uri jwt ttl now new_id fresh code state) h

  -- Where accounts have different keys and one is an active administrator, one is after any sequence
  -- of requests that create, change, delete or bootstrap accounts or sign in with the identity
  -- provider, which may link or make an account, carried out one after the other, whatever the
  -- provider answers and whatever queries the driver fails, and the keys still differ.
  pub serve_accounts-Administered :
      (requests : List (List Bool × ℕ × AccountRequest)) (w : World)
      → Administered w
      → Administered (serve_accounts requests w)
  unfolding serve_accounts
  serve_accounts-Administered [] w h = h
  serve_accounts-Administered ((faults, now, request) ∷ requests) w h =
      serve_accounts-Administered requests _
        (perform-Administered request now (record w { faults = faults }) h)
