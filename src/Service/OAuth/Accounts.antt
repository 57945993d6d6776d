-- ===== src/Service/OAuth/Accounts.antt =====
-- internal/service/oauth.go: the account that a profile of the identity provider leads to.
use certio.Prelude.{
  ◌≡◌, refl, sym, subst, ap, ◌∙◌, ◌++◌, eq_iff, any, any-first_of, ◌⊎◌, inl, inr, Bool, true, false,
  not, ◌||◌, List, [], ◌∷◌, Option, none, some, String, arith, first, is_empty, Bool-cases,
  if◌then◌else◌,
}
use certio.Text.{Text, to_lower, trim_space}
use certio.Text.Trim.{to_lower_idem, trim_space-to_lower, trim_space_idem}
use certio.Store.{find, find-first, find-save, find-append, save, has_key, HasUniqueKeys}
use certio.Store.Models.{User, OAuthProvider, OAuthStates}
use certio.Store.Exec.{
  Result, ok, err, World, Exec, fail, fail_if, query, try, ◌>>◌, oauth_denied, select_first,
  or_not_found,
}
use certio.Store.Exec.Triple.{
  Pred, IsStable, Triple, Triple-pure, Triple-fail, Triple-fail_if, Triple-bind, Triple-if,
  Triple-of, Triple-fact, Triple-weaken, Triple-write, Triple-write_if, Triple-record_audit,
  Anything,
}
use certio.Store.Repos.OAuth.{is_not_found}
use certio.Store.Repos.Users
use certio.Store.Repos.Users.{user_key, has_email, has_oauth, canonical_email}
use certio.Service.OAuth.Provider.{OAuthProfile}
use certio.Service.OAuth.Resolution.{
  check_oauth_domain, follows, has_moved, linked, provisioned, follow_oauth_user, is_taken,
  link_oauth_user, provision_oauth_user, found_or, resolve_oauth_user,
}

-- What a look-up for the first row tells: the row, or that there is none.
abbrev pub Tells : {A : Type 0} → (World → Option A) → Result A → Pred
Tells f (ok a) w = f w ≡ some a
Tells f (err e) w = is_not_found e ≡ true → f w ≡ none

Tells-first :
    {A : Type 0} (f : World → Option A) (w : World) (o : Option A)
    → f w ≡ o
    → Tells f (or_not_found o) w
Tells-first f w none e = λ _. e
Tells-first f w (some a) e = e

module _ {P : Pred} (stable : IsStable P) {A : Type 0} (f : World → Option A) where
  try_first-at :
      (w : World) (fs : List Bool)
      → w.faults ≡ fs
      → P w
      → P (select_first f w).1 × Tells f (select_first f w).0 (select_first f w).1
  unfolding select_first query
  try_first-at w [] e h = rw (e, query) (h, Tells-first f w (f w) refl)
  try_first-at w (true ∷ fs) e h = rw (e, query) (stable.faults w fs h, λ k. absurd (cc))
  try_first-at w (false ∷ fs) e h = rw (e, query) (stable.faults w fs h, Tells-first f _ _ refl)

  pub Triple-try_first : {I : Pred} → Triple I P (try (select_first f)) (λ r w. P w × Tells f r w)
  unfolding try
  Triple-try_first = record { at = λ w h. try_first-at w w.faults refl h }

-- A request begins with these accounts and these pending sign-ins.
abbrev pub Begins : List User → OAuthStates → Pred
Begins rows states w = (w.users ≡ rows) × (w.oauth_states ≡ states)

pub begins-IsStable : (rows : List User) (states : OAuthStates) → IsStable (Begins rows states)
begins-IsStable rows states = record { faults = λ w fs h. h; audit = λ w log h. h }

abbrev pub Remembers : OAuthStates → Pred
Remembers states w = w.oauth_states ≡ states

pub remembers-IsStable : (states : OAuthStates) → IsStable (Remembers states)
remembers-IsStable states = record { faults = λ w fs h. h; audit = λ w log h. h }

-- The row of the account's key is the account.
abbrev pub Keeps : OAuthStates → User → Pred
Keeps states v w = Remembers states w × (find user_key v.id w.users ≡ some v)

Keeps-IsStable : (states : OAuthStates) (v : User) → IsStable (Keeps states v)
Keeps-IsStable states v = record { faults = λ w fs h. h; audit = λ w log h. h }

canonical_email_idem :
    (email : Text) → canonical_email (canonical_email email) ≡ canonical_email email
canonical_email_idem email =
    ap to_lower (trim_space-to_lower (trim_space email) ∙ ap to_lower (trim_space_idem email))
    ∙ to_lower_idem (trim_space email)

-- The first account that is bound to an identity.
abbrev pub bound_to : Text → Text → List User → Option User
bound_to provider subject rows =
    if is_empty provider || is_empty subject then none else first (has_oauth provider subject) rows

-- The row of an account that is bound to the identity, that takes it over, or that is new.
abbrev pub Binds : OAuthProfile → Option User → User → Type 0
Binds profile none v = ⊥
Binds profile (some u) v = v ≡ (if has_moved u profile then follows u profile else u)

abbrev pub TakesOver : String → OAuthProvider → OAuthProfile → Option User → User → Type 0
TakesOver new_id p profile none v = (p.allow_signup ≡ true) × (v ≡ provisioned new_id p profile)
TakesOver new_id p profile (some u) v = (is_taken profile u ≡ false) × (v ≡ linked p profile u)

abbrev pub Admitted : String → OAuthProvider → OAuthProfile → List User → User → Type 0
Admitted new_id p profile rows v =
    (check_oauth_domain p.allowed_domains profile.email ≡ true)
    × (Binds profile (bound_to p.name profile.subject rows) v
        ⊎ ((bound_to p.name profile.subject rows ≡ none)
            × ((profile.email_verified || p.allow_unverified_email) ≡ true)
            × TakesOver new_id p profile (first (has_email profile.email) rows) v))

bound_to-first :
    (provider subject : Text) (rows : List User) (u : User)
    → bound_to provider subject rows ≡ some u
    → first (has_oauth provider subject) rows ≡ some u
bound_to-first provider subject rows u e = ground arith

module _ (rows : List User) (states : OAuthStates) (keys : HasUniqueKeys user_key rows) where
  abbrev Ends : Type 0 → User → Pred
  Ends F v w = F × Keeps states v w

  Triple-found_or :
      (f : World → Option User) (F : User → Type 0) (r : Result User) (there : User → Exec User)
      (absent : Exec User) (g : List User → Option User)
      → ((w : World) → f w ≡ g w.users)
      → ((u : User)
          → g rows ≡ some u
          → Triple Anything (Begins rows states) (there u) (λ v. Ends (F v) v))
      → (g rows ≡ none → Triple Anything (Begins rows states) absent (λ v. Ends (F v) v))
      → Triple Anything
          (λ w. Begins rows states w × Tells f r w)
          (found_or r there absent)
          (λ v. Ends (F v) v)
  Triple-found_or f F (ok u) there absent g same k n =
      Triple-fact {F = g rows ≡ some u}
        (λ w h. subst (λ l. g l ≡ some u) h.0.0 (sym (same w) ∙ h.1))
        λ e. Triple-of (λ w h. h.0) (k u e)
  Triple-found_or f F (err e) there absent g same k n =
      Triple-if (is_not_found e) _ _
        (λ missing.
          Triple-fact {F = g rows ≡ none}
            (λ w h. subst (λ l. g l ≡ none) h.0.0 (sym (same w) ∙ h.1 missing))
            λ none_there. Triple-of (λ w h. h.0) (n none_there))
        (λ _. Triple-fail e (λ w h. tt))

  saved : (v : User) (w : World) → find user_key v.id (save user_key v w.users) ≡ some v
  saved v w = ground (arith, find-save user_key v w.users v.id, eq_iff v.id v.id)

  Triple-follow_oauth_user :
      (profile : OAuthProfile) (u : User)
      → find user_key u.id rows ≡ some u
      → Triple Anything
          (Begins rows states)
          (follow_oauth_user profile u)
          (λ v. Ends (Binds profile (some u) v) v)
  unfolding follow_oauth_user Users.update
  Triple-follow_oauth_user profile u there =
      Triple-if (has_moved u profile) _ _
        (λ moved.
          Triple-bind {Q = λ _. Keeps states (follows u profile)}
            (Triple-write (begins-IsStable rows states) (λ w h. tt) _
              (λ w h. (h.1, saved (follows u profile) w)))
            λ _. Triple-pure (follows u profile) (λ w h. (rw moved refl, h)))
        (λ same. Triple-pure u (λ w h.
          (rw same refl, (h.1, subst (λ l. find user_key u.id l ≡ some u) (sym h.0) there))))

  Triple-link_oauth_user :
      (new_id : String) (p : OAuthProvider) (profile : OAuthProfile) (u : User)
      → Triple Anything
          (Begins rows states)
          (link_oauth_user p profile u)
          (λ v. Ends (TakesOver new_id p profile (some u) v) v)
  unfolding link_oauth_user Users.update
  Triple-link_oauth_user new_id p profile u = Triple-bind (Triple-fail_if _ _ (λ w h. tt)) λ _.
      Triple-fact {F = is_taken profile u ≡ false} (λ w h. h.1)
        λ free.
          Triple-bind {Q = λ _. Keeps states (linked p profile u)}
            (Triple-of {P = Begins rows states} (λ w h. h.0)
              (Triple-write (begins-IsStable rows states) (λ w h. tt) _
                (λ w h. (h.1, saved (linked p profile u) w))))
            λ _.
              Triple-bind (Triple-record_audit (Keeps-IsStable states (linked p profile u)) _ _)
                λ _. Triple-pure (linked p profile u) (λ w h. ((free, refl), h))

  created :
      (v : User) (w : World)
      → not (any (λ row. has_key user_key v.id row || has_email v.email row) w.users) ≡ true
      → canonical_email v.email ≡ v.email
      → find user_key v.id (w.users ++ record v { email = canonical_email v.email } ∷ []) ≡ some v
  created v w new canonical = rw canonical (
      ground (
        arith,
        find-append user_key v w.users v.id,
        any-first_of (has_key user_key v.id) (has_email v.email) w.users,
        eq_iff v.id v.id,
      ))

  Triple-provision_oauth_user :
      (new_id : String) (p : OAuthProvider) (profile : OAuthProfile)
      → p.allow_signup ≡ true
      → Triple Anything
          (Begins rows states)
          (provision_oauth_user new_id p profile)
          (λ v. Ends (TakesOver new_id p profile none v) v)
  unfolding provision_oauth_user Users.create
  Triple-provision_oauth_user new_id p profile open_to_all =
      Triple-bind {Q = λ _. Keeps states (provisioned new_id p profile)}
        (Triple-write_if (begins-IsStable rows states) (λ w h. tt) _ _ _
          (λ w new h. (
            h.1,
            created (provisioned new_id p profile) w new (canonical_email_idem profile.email),
          )))
        λ _.
          Triple-bind
            (Triple-record_audit (Keeps-IsStable states (provisioned new_id p profile)) _ _)
            λ _. Triple-pure (provisioned new_id p profile) (λ w h. ((open_to_all, refl), h))

  Triple-get_by_oauth :
      (provider subject : Text)
      → Triple Anything
          (Begins rows states)
          (try (Users.get_by_oauth provider subject))
          (λ r w. Begins rows states w × Tells (λ w. bound_to provider subject w.users) r w)
  unfolding Users.get_by_oauth try fail
  Triple-get_by_oauth provider subject = elim (Bool-cases (is_empty provider || is_empty subject)) [
    | inl unnamed ↦ record { at = λ w h. rw unnamed (h, λ e. refl) }
    | inr named ↦ rw named (
        Triple-try_first (begins-IsStable rows states)
          (λ w. first (has_oauth provider subject) w.users))
  ]

  -- The steps after no account was found for the identity.
  Triple-by_email :
      (new_id : String) (p : OAuthProvider) (profile : OAuthProfile) (r : Result User)
      → Triple Anything
          (λ w. Begins rows states w × Tells (λ w. first (has_email profile.email) w.users) r w)
          (found_or r
            (link_oauth_user p profile)
            (do fail_if (not p.allow_signup) oauth_denied; provision_oauth_user new_id p profile))
          (λ v. Ends (TakesOver new_id p profile (first (has_email profile.email) rows) v) v)
  Triple-by_email new_id p profile r =
      Triple-found_or (λ w. first (has_email profile.email) w.users) _ r _ _
        (first (has_email profile.email)) (λ w. refl)
        (λ u e.
          Triple-weaken (λ v w h. (subst (λ o. TakesOver new_id p profile o v) (sym e) h.0, h.1))
            (Triple-link_oauth_user new_id p profile u))
        (λ none_there. Triple-bind (Triple-fail_if _ _ (λ w h. tt)) λ _.
          Triple-fact {F = p.allow_signup ≡ true} (λ w h. ground (arith, h.1))
            λ open_to_all.
              Triple-weaken
                (λ v w h. (subst (λ o. TakesOver new_id p profile o v) (sym none_there) h.0, h.1))
                (Triple-of (λ w h. h.0) (Triple-provision_oauth_user new_id p profile open_to_all)))

  -- The account that a profile leads to, if it leads to one.
  pub Triple-resolve_oauth_user :
      (new_id : String) (p : OAuthProvider) (profile : OAuthProfile)
      → Triple Anything
          (Begins rows states)
          (resolve_oauth_user new_id p profile)
          (λ v. Ends (Admitted new_id p profile rows v) v)
  unfolding resolve_oauth_user Users.get_by_email Users.get_by_oauth
  Triple-resolve_oauth_user new_id p profile = Triple-bind (Triple-fail_if _ _ (λ w h. tt)) λ _.
      Triple-fact {F = check_oauth_domain p.allowed_domains profile.email ≡ true}
        (λ w h. ground (arith, h.1))
        λ domain.
          Triple-of {P = Begins rows states} (λ w h. h.0)
            (Triple-bind (Triple-get_by_oauth p.name profile.subject) λ r.
              Triple-found_or _ _ r _ _ (bound_to p.name profile.subject) (λ w. refl)
                (λ u e.
                  Triple-weaken
                    (λ v w h. ((domain, inl (subst (λ o. Binds profile o v) (sym e) h.0)), h.1))
                    (Triple-follow_oauth_user profile u (
                      find-first user_key (has_oauth p.name profile.subject) rows u keys
                        (bound_to-first p.name profile.subject rows u e))))
                (λ unbound. Triple-bind (Triple-fail_if _ _ (λ w h. tt)) λ _.
                  Triple-fact {F = (profile.email_verified || p.allow_unverified_email) ≡ true}
                    (λ w h. ground (arith, h.1))
                    λ vouched.
                      Triple-of {P = Begins rows states} (λ w h. h.0)
                        (Triple-bind
                          (Triple-try_first (begins-IsStable rows states)
                            (λ w. first (has_email profile.email) w.users))
                          λ found.
                            Triple-weaken (λ v w h. ((domain, inr (unbound, vouched, h.0)), h.1))
                              (Triple-by_email new_id p profile found))))
