-- ===== src/Service/Auth/Factor.antt =====
-- internal/service/auth.go: what a sign-in has checked when it returns.
pub mod Logins
use certio.Store.Exec.{◌>>◌}
use certio.Prelude.{
  ℕ, ◌+◌, ◌≡◌, ◌∙◌, eq_iff, refl, subst, Bool, true, false, List, Option, some, String,
  if◌then◌else◌,
}
use certio.Text.{Text, trim_space}
use certio.Store.Models.{User}
use certio.Store.Exec.{World, Exec, Result, ok, err, ◌>>=◌}
use certio.Store.Exec.Triple.{
  Anything, Pred, IsStable, Post, Triple, Triple-pure, Triple-bind, Triple-if, Triple-write,
  Triple-try, Triple-record_audit,
}
use certio.Store.{find}
use certio.Store.Repos.{update_row, find-update_row}
use certio.Store.Repos.Users
use certio.Store.Repos.Users.{user_key, is_active}
use certio.Service.Crl.Steps.{Triple-or_fail}
use certio.Service.TwoFactor.{Authenticator, has_two_factor}
use certio.Service.TwoFactor.Factors.{Used, Stored, Triple-verify_second_factor}
use certio.Service.Auth.{
  Jwt, Lifetimes, TokenPair, LoginResult, challenge_ttl, signed_in, challenged, claims_of,
  token_type_access, token_type_refresh, token_type_challenge, issue_for_session, issue_session,
  second_factor, complete_login, is_wrong_password,
}

-- The rows of the accounts when a request begins.
abbrev pub Accounts : List User → Pred
Accounts rows w = w.users ≡ rows

pub accounts-IsStable : (rows : List User) → IsStable (Accounts rows)
accounts-IsStable rows = record { faults = λ w fs h. h; audit = λ w log h. h }

pub found_in :
    (rows : List User) (f : List User → Option User) (u : User) (users : List User)
    → users ≡ rows
    → f users ≡ some u
    → f rows ≡ some u
found_in rows f u users same e = subst (λ k. f k ≡ some u) same e

anything :
    (I : Pred) {A : Type 0} (Q R : A → Pred) (r : Result A) (w : World)
    → ((a : A) (w : World) → Q a w → R a w)
    → Post I Q r w
    → Post Anything R r w
anything I Q R (ok a) w k h = k a w h
anything I Q R (err e) w k h = tt

pub Triple-anything :
    {I P : Pred} {A : Type 0} {Q R : A → Pred} {m : Exec A}
    → ((a : A) (w : World) → Q a w → R a w)
    → Triple I P m Q
    → Triple Anything P m R
Triple-anything {I = I} {Q = Q} {R = R} {m = m} k t = record {
  at = λ w h. anything I Q R (m w).0 (m w).1 k (t.at w h);
}

-- The account is in the table, and no more than the time of its last sign-in was written to it.
abbrev pub Kept : User → Pred
Kept v w = (at : Option ℕ) × (find user_key v.id w.users ≡ some (record v { last_login_at = at }))

-- The time of the sign-in is written.
pub touched :
    (now : ℕ) (v : User) (w : World)
    → Kept v w
    → Kept v (record w {
      users = update_row user_key v.id (λ u. record u { last_login_at = some now }) w.users;
    })
touched now v w (at, there) = (
  some now,
  find-update_row user_key v.id (λ u. record u { last_login_at = some now }) w.users v.id
        (λ x. refl)
      ∙ rw (there, (eq_iff v.id v.id).1 refl) refl,
)

module _ (jwt : Jwt) (authenticator : Authenticator) (ttl : Lifetimes) (now : ℕ) where
  -- The account that signs in is the one that was read, where it has no second factor; else a code
  -- of its second factor was used up.
  abbrev pub PassedFactor : User → Text → Bool → User → Type 0
  PassedFactor u code used v =
      if has_two_factor u then Used authenticator now u (trim_space code) used v else (v ≡ u)

  -- The tokens of a pair name the account.
  abbrev pub IsPairOf : User → TokenPair → Type 0
  IsPairOf v pair =
      (jwt.sign (claims_of v token_type_access (now + ttl.access_ttl) now pair.session_id)
        ≡ some pair.access_token)
      × (jwt.sign (claims_of v token_type_refresh (now + ttl.refresh_ttl) now pair.session_id)
          ≡ some pair.refresh_token)

  -- A sign-in that was completed, or one that needs a second factor.
  abbrev pub SignedIn : User → Text → LoginResult → Pred
  SignedIn u code (signed_in pair v used left) w =
      PassedFactor u code used v × IsPairOf v pair × Kept v w
  SignedIn u code (challenged v challenge seconds) w = ⊥

  abbrev pub Challenged : User → LoginResult → Type 0
  Challenged u (signed_in pair v used left) = ⊥
  Challenged u (challenged v challenge seconds) =
      (v ≡ u)
      × (has_two_factor u ≡ true)
      × (jwt.sign (claims_of u token_type_challenge (now + challenge_ttl) now "") ≡ some challenge)

  abbrev pub Checked : Text → User → Type 0
  Checked password u =
      (is_wrong_password jwt ttl now authenticator "" u password ≡ false) × (is_active u ≡ true)

  module _ (fresh : String) where
    abbrev Paired : Type 0 → User → TokenPair → Pred
    Paired F v pair w = (F × IsPairOf v pair) × Kept v w

    paired-IsStable : (F : Type 0) (v : User) (pair : TokenPair) → IsStable (Paired F v pair)
    paired-IsStable F v pair = record { faults = λ w fs h. h; audit = λ w log h. h }

    Triple-issue_session :
        (F : Type 0) (v : User)
        → Triple Anything (λ w. F × Kept v w) (issue_session jwt ttl now fresh v) (Paired F v)
    unfolding issue_session issue_for_session Users.touch_login
    Triple-issue_session F v =
        Triple-bind {Q = Paired F v}
          (Triple-bind (Triple-or_fail _ _) λ access.
            Triple-bind (Triple-or_fail _ _)
              λ refresh. Triple-pure _ (λ w h. ((h.0.0.0, (h.0.1, h.1)), h.0.0.1)))
          λ pair.
            Triple-bind
              (Triple-try {J = Paired F v pair} _ (
                Triple-write (paired-IsStable F v pair) (λ w h. h) _
                  (λ w h. (h.0, touched now v w h.1))))
              λ _.
                Triple-bind (Triple-record_audit (paired-IsStable F v pair) _ _)
                  λ _. Triple-pure pair (λ w h. h)

    Triple-second_factor :
        (u : User) (code : Text)
        → Triple Anything
            (Stored u)
            (second_factor jwt ttl now authenticator fresh u code)
            (λ (used, v) w. PassedFactor u code used v × Kept v w)
    Triple-second_factor u code =
        Triple-if (has_two_factor u) _ _
          (λ on.
            Triple-anything (λ (used, v) w h. rw on (h.0, (v.last_login_at, h.2)))
              (Triple-verify_second_factor authenticator now u code))
          (λ off. Triple-pure _ (λ w h. rw off (refl, (u.last_login_at, h))))

    pub Triple-complete_login :
        (u : User) (code : Text)
        → Triple Anything
            (Stored u)
            (complete_login jwt ttl now authenticator fresh u code)
            (SignedIn u code)
    unfolding complete_login
    Triple-complete_login u code = Triple-bind (Triple-second_factor u code) λ (used, v).
        Triple-bind (Triple-issue_session (PassedFactor u code used v) v)
          λ pair. Triple-pure _ (λ w h. (h.0.0, h.0.1, h.1))
