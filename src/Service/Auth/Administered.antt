-- ===== src/Service/Auth/Administered.antt =====
-- internal/service/auth.go: the administrators of an instance, through the requests that write
-- accounts.
pub mod Requests
use certio.Prelude.{
  any-first_of, ℕ, ◌≤◌, ◌≡◌, refl, sym, ◌∙◌, Bool, true, false, List, [], ◌∷◌, Option, none, some,
  String, arith, any, leb, length, keep, subst, eq_iff, any-append,
}
use certio.Text.{Text}
use certio.Store.{
  find, has_key, save, delete, HasUniqueKeys, save-HasUniqueKeys, keep-HasUniqueKeys,
  append-HasUniqueKeys, find-key,
}
use certio.Store.Counts.{any-count, any-save, count-save, count-delete, any-delete}
use certio.Store.Models.{User}
use certio.Store.Exec.{World, Err, fail_if, validation}
use certio.Store.Exec.Triple.{
  Pred, IsStable, Triple, Triple-pure, Triple-fail, Triple-fail_if, Triple-bind, Triple-weaken,
  Triple-try, Triple-select, Triple-select_first, Triple-write, Triple-write_if,
}
use certio.Store.Repos.{Triple-transaction}
use certio.Store.Repos.Users
use certio.Store.Repos.Users.{user_key, is_active_admin, is_admin}
use certio.Service.Loading.{or_fail}
use certio.Service.Auth.{Lifetimes}
use certio.Service.Auth.Access.{revoke_all_sessions}
use certio.Store.Repos.Sessions
use certio.Service.Auth.Accounts.{
  end_sessions, UserChanges, losing_admin, keep_last_admin, apply_changes, given, differs,
}

-- Accounts have different keys, and one of them is an active administrator.
abbrev pub Administered : Pred
Administered w = HasUniqueKeys user_key w.users × (any is_active_admin w.users ≡ true)

pub administered-IsStable : IsStable Administered
administered-IsStable = record { faults = λ w fs h. h; audit = λ w log h. h }

-- The row of an id that was read.
abbrev pub Reads : String → User → Pred
Reads id u w = Administered w × (find user_key id w.users ≡ some u)

reads-IsStable : (id : String) (u : User) → IsStable (Reads id u)
reads-IsStable id u = record { faults = λ w fs h. h; audit = λ w log h. h }

-- A write of the row that was read may take a right away if there are other administrators.
abbrev pub Spare : String → User → Bool → Pred
Spare id u losing w = Reads id u w × (losing ≡ true → 2 ≤ length (keep is_active_admin w.users))

spare-IsStable : (id : String) (u : User) (losing : Bool) → IsStable (Spare id u losing)
spare-IsStable id u losing = record { faults = λ w fs h. h; audit = λ w log h. h }

pub Triple-keep_last_admin :
    (id : String) (u : User) (losing : Bool)
    → Triple Administered (Reads id u) (keep_last_admin losing) (λ _. Spare id u losing)
unfolding keep_last_admin Users.count_admins
Triple-keep_last_admin id u true =
    Triple-bind (Triple-select (reads-IsStable id u) (λ w h. h.0) _) λ admins.
      Triple-weaken (λ a w h. (h.0.0, λ _. ground (arith, h.0.1)))
        (Triple-fail_if (leb admins 1) _ (λ w h. h.0.0))
Triple-keep_last_admin id u false = Triple-pure tt (λ w h. (h, λ e. absurd (cc)))

-- A row is written back that takes no right away, or there is another administrator.
any-updated :
    (u v : User) (losing : Bool) (rows : List User)
    → v.id ≡ u.id
    → (losing ≡ false → is_active_admin u ≡ true → is_active_admin v ≡ true)
    → (losing ≡ true → 2 ≤ length (keep is_active_admin rows))
    → find user_key u.id rows ≡ some u
    → any is_active_admin rows ≡ true
    → any is_active_admin (save user_key v rows) ≡ true
any-updated u v true rows same kept spare found h =
    any-count user_key is_active_admin (save user_key v rows)
      (ground (arith, spare refl, count-save user_key is_active_admin rows v))
any-updated u v false rows same kept spare found h =
    any-save user_key is_active_admin rows u v
      (subst (λ id. find user_key id rows ≡ some u) (sym same) found) (kept refl) h

pub found-own :
    (id : String) (u : User) (rows : List User)
    → find user_key id rows ≡ some u
    → find user_key u.id rows ≡ some u
found-own id u rows found =
    subst (λ i. find user_key i rows ≡ some u) (sym (find-key user_key id rows u found)) found

pub Triple-update :
    (id : String) (u v : User) (losing : Bool)
    → v.id ≡ u.id
    → (losing ≡ false → is_active_admin u ≡ true → is_active_admin v ≡ true)
    → Triple Administered (Spare id u losing) (Users.update v) (λ _. Administered)
unfolding Users.update
Triple-update id u v losing same kept =
    Triple-write (spare-IsStable id u losing) (λ w h. h.0.0) _
      λ w (((keys, some_admin), found), spare). (
        save-HasUniqueKeys user_key v w.users keys,
        any-updated u v losing w.users same kept spare (found-own id u w.users found) some_admin,
      )

-- Changes of an active administrator's role and status that take nothing away.
kept-given :
    (word old : String) (given_word : Option String)
    → differs word given_word ≡ false
    → old ≡ word
    → given old given_word ≡ word
kept-given word old none e h = h
kept-given word old (some new) e h = ground (arith, eq_iff new word)

-- What a change keeps of an account.
pub kept-changes :
    (user : User) (changes : UserChanges) (hash : Text)
    → losing_admin user changes ≡ false
    → is_active_admin user ≡ true
    → is_active_admin (apply_changes changes hash user) ≡ true
kept-changes user changes hash e h = ground (
  arith,
  kept-given "admin" user.role changes.role,
  kept-given "active" user.status changes.status,
  eq_iff user.role "admin",
  eq_iff user.status "active",
  eq_iff (given user.role changes.role) "admin",
  eq_iff (given user.status changes.status) "active",
)

-- Nothing of the accounts changes.
module _ {P : Pred} {A : Type 0} where
  pub Triple-or_fail :
      (e : Err) (o : Option A)
      → ((w : World) → P w → Administered w)
      → Triple Administered P (or_fail e o) (λ _. P)
  Triple-or_fail e none weak = Triple-fail e weak
  Triple-or_fail e (some a) weak = Triple-pure a (λ w h. h)

pub Triple-end_sessions :
    (ttl : Lifetimes) (now : ℕ) (ends : Bool) (id : String)
    → Triple Administered Administered (end_sessions ttl now ends id) (λ _. Administered)
unfolding revoke_all_sessions Sessions.revoke_all_for_user Sessions.revoke
Triple-end_sessions ttl now true id =
    Triple-bind (Triple-try _ (Triple-write administered-IsStable (λ w h. h) _ (λ w h. h)))
      λ _. Triple-pure tt (λ w h. h)
Triple-end_sessions ttl now false id = Triple-pure tt (λ w h. h)

pub Triple-get : (id : String) → Triple Administered Administered (Users.get id) (λ u. Reads id u)
unfolding Users.get
Triple-get id = Triple-select_first administered-IsStable (λ w h. h) _

pub Triple-check :
    (id : String) (u : User) (losing b : Bool)
    → Triple Administered (Spare id u losing) (fail_if b validation) (λ _. Spare id u losing)
Triple-check id u losing b =
    Triple-weaken (λ a w h. h.0) (Triple-fail_if b validation (λ w h. h.0.0))

pub Triple-create :
    (u : User) → Triple Administered Administered (Users.create u) (λ _. Administered)
unfolding Users.create
Triple-create u =
    Triple-write_if administered-IsStable (λ w h. h) _ _ _
      λ w new h. (
        append-HasUniqueKeys user_key _ w.users h.0 (
            any-first_of (has_key user_key u.id) (Users.has_email u.email) w.users
              (ground (arith, new))),
        ground (
          arith,
          any-append is_active_admin w.users
              (record u { email = Users.canonical_email u.email } ∷ []),
          h.1,
        ),
      )

any-deleted :
    (id : String) (u : User) (losing : Bool) (rows : List User)
    → losing ≡ is_admin u
    → HasUniqueKeys user_key rows
    → (losing ≡ true → 2 ≤ length (keep is_active_admin rows))
    → find user_key id rows ≡ some u
    → any is_active_admin rows ≡ true
    → any is_active_admin (delete user_key id rows) ≡ true
any-deleted id u true rows same keys spare found h =
    any-count user_key is_active_admin (delete user_key id rows)
      (ground (arith, spare refl, count-delete user_key is_active_admin id rows keys))
any-deleted id u false rows same keys spare found h =
    any-delete user_key is_active_admin id rows u keys found (ground (arith, same)) ∙ h

pub Triple-delete :
    (id : String) (u : User) (losing : Bool)
    → losing ≡ is_admin u
    → Triple Administered (Spare id u losing) (Users.delete id) (λ _. Administered)
unfolding Users.delete
Triple-delete id u losing same =
    Triple-transaction (spare-IsStable id u losing) (λ w h. h.0.0) _
      (Triple-bind (Triple-write (spare-IsStable id u losing) (λ w h. tt) _ (λ w h. h)) λ _.
        Triple-write_if (spare-IsStable id u losing) (λ w h. tt) _ _ _
          λ w there h. (
            keep-HasUniqueKeys user_key _ w.users h.0.0.0,
            any-deleted id u losing w.users same h.0.0.0 h.1 h.0.1 h.0.0.1,
          ))
