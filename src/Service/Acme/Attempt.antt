-- ===== src/Service/Acme/Attempt.antt =====
-- internal/service/acme.go: an attempt at a challenge, from `ACMEValidateChallenge`.
use certio.Prelude.{
  ℕ, ◌+◌, ◌≡◌, refl, ◌⊎◌, inl, inr, Bool, true, false, ◌<◌, Option, none, some, String, arith,
  eq_iff, all,
}
use certio.Text.{Text}
use certio.Store.{find, find-save}
use certio.Store.Models.{
  AcmeAccount, AcmeAuthorization, AcmeOrder, AcmeChallenge, ChallengeType, valid, invalid,
}
use certio.Store.Exec.{Err, Result, ok, err, World, Exec}
use certio.Store.Exec.Triple.{
  Pred, IsStable, Post, Triple, Triple-pure, Triple-fail, Triple-bind, Triple-of, Triple-fact,
  Triple-weaken, Triple-fail_if, Triple-select, Triple-select_first, Triple-write, Triple-try,
}
use certio.Store.Repos.Acme
use certio.Store.Repos.Acme.{challenge_key}
use certio.Service.Loading.{or_fail}
use certio.Service.Acme.{
  attempt, settle, tried, ready_if, is_valid, refresh_order_status, max_challenge_attempts,
}

any_world : IsStable (λ _. Unit)
any_world = record { faults = λ w fs h. h; audit = λ w log h. h }

post_any : {A : Type 0} (r : Result A) (w : World) → Post (λ _. Unit) (λ _ _. Unit) r w
post_any (ok a) w = tt
post_any (err e) w = tt

Triple-any : {A : Type 0} (m : Exec A) → Triple (λ _. Unit) (λ _. Unit) m (λ _ _. Unit)
Triple-any m = record { at = λ w h. post_any (m w).0 (m w).1 }

Triple-or_fail :
    {A : Type 0} (e : Err) (o : Option A)
    → Triple (λ _. Unit) (λ _. Unit) (or_fail e o) (λ a _. o ≡ some a)
Triple-or_fail e none = Triple-fail e (λ w h. tt)
Triple-or_fail e (some a) = Triple-pure a (λ w h. refl)

module _ (c : AcmeChallenge) where
  abbrev pub Stored : Pred
  Stored w = find challenge_key c.id w.acme_challenges ≡ some c

  stored-IsStable : IsStable Stored
  stored-IsStable = record { faults = λ w fs h. h; audit = λ w log h. h }

  Triple-ready_if : (o : AcmeOrder) (b : Bool) → Triple Stored Stored (ready_if o b) (λ _. Stored)
  unfolding Acme.update_order
  Triple-ready_if o false = Triple-pure tt (λ w h. h)
  Triple-ready_if o true =
      Triple-bind (Triple-try _ (Triple-write stored-IsStable (λ w h. h) _ (λ w h. h)))
        λ _. Triple-pure tt (λ w h. h)

  Triple-refresh : (j : String) → Triple Stored Stored (refresh_order_status j) (λ _. Stored)
  unfolding refresh_order_status Acme.get_order Acme.authorizations_by_order
  Triple-refresh j =
      Triple-bind (Triple-weaken (λ a w h. h.0) (Triple-select_first stored-IsStable (λ w h. h) _))
        λ o. Triple-bind (Triple-weaken (λ a w h. h.0) (Triple-fail_if _ _ (λ w h. h))) λ _.
          Triple-bind (Triple-weaken (λ a w h. h.0) (Triple-select stored-IsStable (λ w h. h) _))
            λ authzs. Triple-ready_if o (all (λ a. is_valid a.status) authzs)

  Triple-store : Triple (λ _. Unit) (λ _. Unit) (Acme.update_challenge c) (λ _. Stored)
  unfolding Acme.update_challenge
  Triple-store =
      Triple-write any_world (λ w h. tt) _
        (λ w h. ground (arith, find-save challenge_key c w.acme_challenges c.id, eq_iff c.id c.id))

  Triple-grant :
      (a : AcmeAuthorization)
      → Triple (λ _. Unit) Stored (Acme.update_authorization a) (λ _. Stored)
  unfolding Acme.update_authorization
  Triple-grant a = Triple-write stored-IsStable (λ w h. tt) _ (λ w h. h)

-- A challenge as its validation leaves it: recorded if it is valid.
abbrev pub Settled : Bool → AcmeChallenge → Pred
Settled b c w =
    ((b ≡ true) × (c.status ≡ valid) × Stored c w) ⊎ ((b ≡ false) × (c.status ≡ invalid))

module _ (now : ℕ) (key_authorization : AcmeAccount → String → Option Text)
    (validate : ChallengeType → Text → String → Text → Bool) where
  Triple-settle :
      (c : AcmeChallenge) (a : AcmeAuthorization) (b : Bool)
      → Triple
          (λ _. Unit)
          (λ _. Unit)
          (settle now key_authorization validate c a b)
          (λ d w. (d.attempts ≡ c.attempts) × Settled b d w)
  Triple-settle c a false =
      Triple-bind (Triple-any _)
        λ _. Triple-bind (Triple-any _) λ _. Triple-pure _ (λ w h. (refl, inr (refl, refl)))
  Triple-settle c a true = Triple-bind (Triple-store _) λ _. Triple-bind (Triple-grant _ _) λ _.
      Triple-bind (Triple-bind (Triple-try _ (Triple-refresh _ _)) λ _. Triple-pure tt (λ w h. h))
        λ _. Triple-pure _ (λ w h. (refl, inl (refl, refl, h)))

  -- What an attempt that returns leads to.
  abbrev pub Attempted : AcmeAccount → AcmeChallenge → AcmeAuthorization → AcmeChallenge → Pred
  Attempted account challenge authz c w =
      (c.attempts ≡ challenge.attempts + 1)
      × (challenge.attempts < max_challenge_attempts)
      × ((proof : Text) × (key_authorization account challenge.token ≡ some proof)
          × Settled (validate challenge.type authz.identifier challenge.token proof) c w)

  -- An attempt that returns was one of the first ten, and is counted. The challenge comes back valid,
  -- and is recorded so, if its name was proved for the account's key, and invalid if it was not,
  -- whatever queries the driver fails.
  pub attempt-Settled :
      (account : AcmeAccount) (challenge : AcmeChallenge) (authz : AcmeAuthorization)
      → Triple
          (λ _. Unit)
          (λ _. Unit)
          (attempt now key_authorization validate account challenge authz)
          (Attempted account challenge authz)
  unfolding attempt
  attempt-Settled account challenge authz = Triple-bind (Triple-fail_if _ _ (λ w h. tt)) λ _.
      Triple-fact (λ w h. h.1)
        λ few. Triple-bind (Triple-of (λ w h. tt) (Triple-or_fail _ _)) λ proof.
          Triple-fact (λ w h. h)
            λ found. Triple-bind (Triple-of (λ w h. tt) (Triple-any _)) λ _.
              Triple-weaken (λ c w h. (h.0, ground arith, (proof, found, h.1)))
                (Triple-settle (tried challenge) authz _)
