-- ===== src/Service/Auth/Factor/Logins.antt =====
-- internal/service/auth.go: the two steps of a sign-in.
use certio.Store.Exec.{invalid_credentials}
use certio.Prelude.{
  ℕ, ◌≡◌, refl, sym, subst, Bool, true, false, ◌&&◌, List, Option, none, some, String, eq_iff,
  arith, first, is_empty, inl, inr, ◌⊎◌, if◌then◌else◌,
}
use certio.Text.{Text}
use certio.Store.{find, find-first, HasUniqueKeys}
use certio.Store.Models.{User}
use certio.Store.Exec.{Err, Result, ok, err}
use certio.Store.Exec.Triple.{
  Anything, Triple-known, Pred, IsStable, Post, Triple, Triple-pure, Triple-fail, Triple-fail_if,
  Triple-bind, Triple-if, Triple-of, Triple-fact, Triple-weaken, Triple-try_result,
  Triple-select_first, Triple-record_audit,
}
use certio.Store.Repos.Users
use certio.Store.Repos.Users.{user_key, has_email, is_active}
use certio.Service.Auth.Administered.{found-own}
use certio.Service.TwoFactor.{Authenticator, has_two_factor}
use certio.Service.TwoFactor.Factors.{Stored}
use certio.Service.Auth.{
  Claims, Jwt, Lifetimes, LoginResult, token_type_challenge, issue_challenge, complete_login,
  challenge_user, log_in, complete_two_factor_login, refuse_if, or_refuse, or_credentials,
}
use certio.Service.Crl.Steps.{Triple-or_fail}
use certio.Service.Auth.Factor.{
  Accounts, accounts-IsStable, found_in, Triple-complete_login, SignedIn, Challenged, Checked,
}

module _ (jwt : Jwt) (authenticator : Authenticator) (ttl : Lifetimes) (now : ℕ)
    (fresh : String) where
  -- The account that a sign-in is for, if there is one, and what was checked of it.
  abbrev pub LoggedIn : Text → Text → Option User → LoginResult → Pred
  LoggedIn password code none r w = ⊥
  LoggedIn password code (some u) r w =
      Checked jwt authenticator ttl now password u
      × (SignedIn jwt authenticator ttl now u code r w ⊎ Challenged jwt authenticator ttl now u r)

  abbrev pub CompletedBy : Text → Option User → LoginResult → Pred
  CompletedBy code none r w = ⊥
  CompletedBy code (some u) r w =
      (is_active u ≡ true) × SignedIn jwt authenticator ttl now u code r w

  Triple-or_credentials :
      (Q : User → Pred) (r : Result User)
      → Triple Anything (λ w. Post (λ _. Unit) Q r w) (or_credentials r) Q
  Triple-or_credentials Q (ok u) = Triple-pure u (λ w h. h)
  Triple-or_credentials Q (err e) = Triple-fail _ (λ w h. tt)

  Triple-or_refuse :
      (P : Pred) (Q : User → Pred) (id : String) (r : Result User)
      → IsStable P
      → Triple Anything (λ w. Post P Q r w) (or_refuse id r) Q
  Triple-or_refuse P Q id (ok u) stable = Triple-pure u (λ w h. h)
  Triple-or_refuse P Q id (err e) stable =
      Triple-bind (Triple-record_audit stable _ _) λ _. Triple-fail _ (λ w h. tt)

  Triple-refuse_if :
      (P : Pred) (b : Bool) (id : String) (e : Err)
      → Triple Anything P (refuse_if b id e) (λ _ w. P w × (b ≡ false))
  Triple-refuse_if P true id e =
      Triple-bind {Q = λ _ _. Unit} (Triple-of {P = λ _. Unit} (λ w h. tt) (Triple-known Unit _))
        λ _. Triple-fail e (λ w h. tt)
  Triple-refuse_if P false id e = Triple-pure tt (λ w h. (h, refl))

  Triple-challenge_user :
      (u : User)
      → has_two_factor u ≡ true
      → Triple Anything
          (Stored u)
          (challenge_user jwt ttl now authenticator fresh u)
          (λ r _. Challenged jwt authenticator ttl now u r)
  unfolding issue_challenge
  Triple-challenge_user u on =
      Triple-bind (Triple-or_fail _ _) λ challenge. Triple-pure _ (λ w h. (refl, on, h.1))

  -- The account that was found.
  Triple-log_in_found :
      (u : User) (code : Text)
      → Triple Anything
          (Stored u)
          (if has_two_factor u && is_empty code
            then challenge_user jwt ttl now authenticator fresh u
            else complete_login jwt ttl now authenticator fresh u code)
          (λ r w.
            SignedIn jwt authenticator ttl now u code r w
            ⊎ Challenged jwt authenticator ttl now u r)
  Triple-log_in_found u code =
      Triple-if (has_two_factor u && is_empty code) _ _
        (λ e. Triple-weaken (λ r w h. inr h) (Triple-challenge_user u (ground arith)))
        (λ _.
          Triple-weaken (λ r w h. inl h)
            (Triple-complete_login jwt authenticator ttl now fresh u code))

  -- Where accounts have different keys, a sign-in that returns found an active account of the
  -- address by its password. It either opened a session, with tokens that name the account, after a
  -- code of the second factor was used up if the account has one, and the account is in the table as
  -- that left it, up to the time of its last sign-in; or it returned a challenge
  -- that names the account, which has a second factor.
  pub log_in_lem :
      (rows : List User) (email password code : Text)
      → HasUniqueKeys user_key rows
      → Triple Anything
          (Accounts rows)
          (log_in jwt ttl now authenticator fresh email password code)
          (LoggedIn password code (first (has_email email) rows))
  unfolding log_in Users.get_by_email
  log_in_lem rows email password code keys =
      Triple-bind
        (Triple-try_result _ (
          Triple-select_first {I = Accounts rows} (accounts-IsStable rows) (λ w h. h)
            (λ w. first (has_email email) w.users)))
        λ found.
          Triple-bind (Triple-or_refuse (Accounts rows) _ "" found (accounts-IsStable rows)) λ user.
            Triple-bind (Triple-refuse_if _ _ _ _) λ _. Triple-bind (Triple-refuse_if _ _ _ _) λ _.
              Triple-fact
                {F = (first (has_email email) rows ≡ some user)
                  × Checked jwt authenticator ttl now password user}
                (λ w h. (
                  found_in rows (first (has_email email)) user w.users h.0.0.0 h.0.0.1,
                  (h.0.1, ground (arith, h.1)),
                ))
                λ (e, checked).
                  Triple-weaken
                    (λ r w h. subst (λ o. LoggedIn password code o r w) (sym e) (checked, h))
                    (Triple-of
                      (λ w h.
                        find-first user_key (has_email email) w.users user
                          (subst (HasUniqueKeys user_key) (sym h.0.0.0) keys) h.0.0.1)
                      (Triple-log_in_found user code))

  -- What was checked of a challenge, and the account that it names.
  abbrev pub Completed : Text → List User → Option Claims → LoginResult → Pred
  Completed code rows none r w = ⊥
  Completed code rows (some c) r w =
      (c.typ ≡ token_type_challenge) × CompletedBy code (find user_key c.sub rows) r w

  -- Where accounts have different keys, a second step that returns was given a challenge, and no
  -- token of another type; it found the active account that the challenge names, and opened a
  -- session with tokens that name it, after a code of its second factor was used up if it has one;
  -- the account is in the table as that left it, up to the time of its last sign-in.
  pub complete_two_factor_login_lem :
      (rows : List User) (challenge code : Text)
      → HasUniqueKeys user_key rows
      → Triple Anything
          (Accounts rows)
          (complete_two_factor_login jwt ttl now authenticator fresh challenge code)
          (Completed code rows (jwt.parse now challenge))
  unfolding complete_two_factor_login Users.get
  complete_two_factor_login_lem rows challenge code keys =
      Triple-bind (Triple-or_fail invalid_credentials (jwt.parse now challenge)) λ c.
        Triple-bind (Triple-fail_if _ _ (λ w h. tt)) λ _.
          Triple-bind
            (Triple-try_result _ (
              Triple-select_first {I = λ _. Unit}
                (record { faults = λ w fs h. h; audit = λ w log h. h }) (λ w h. tt)
                (λ w. find user_key c.sub w.users)))
            λ found. Triple-bind (Triple-or_credentials _ found) λ user.
              Triple-bind (Triple-fail_if _ _ (λ w h. tt)) λ _.
                Triple-fact
                  {F = (jwt.parse now challenge ≡ some c)
                    × (c.typ ≡ token_type_challenge)
                    × (find user_key c.sub rows ≡ some user)
                    × (is_active user ≡ true)}
                  (λ w h. (
                    h.0.0.0.1,
                    ground (arith, h.0.0.1, eq_iff c.typ token_type_challenge),
                    found_in rows (find user_key c.sub) user w.users h.0.0.0.0 h.0.1,
                    ground (arith, h.1),
                  ))
                  λ (parsed, typed, e, active).
                    Triple-weaken
                      (λ r w h.
                        subst (λ o. Completed code rows o r w) (sym parsed)
                          (typed, subst (λ o. CompletedBy code o r w) (sym e) (active, h)))
                      (Triple-of (λ w h. found-own c.sub user w.users h.0.1)
                        (Triple-complete_login jwt authenticator ttl now fresh user code))
