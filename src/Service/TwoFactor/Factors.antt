-- ===== src/Service/TwoFactor/Factors.antt =====
-- internal/service/twofactor.go: `verifySecondFactor`.
use certio.Prelude.{
  ℕ, ◌+◌, ◌/◌, ◌≤◌, ◌<◌, ◌≡◌, refl, sym, subst, ◌∙◌, Bool, true, false, not, ◌&&◌, List, [], ◌∷◌,
  Option, none, some, arith, leb, any, keep, eq_iff, length, Bool-cases, inl, inr,
}
use certio.Text.{Text, text_eq, text_eq_iff, trim_space}
use certio.Store.{find, find-save}
use certio.Store.Models.{User}
use certio.Store.Exec.{Err}
use certio.Store.Exec.Triple.{
  Pred, IsStable, Triple, Triple-pure, Triple-fail, Triple-bind, Triple-if, Triple-weaken,
  Triple-fail_if, Triple-write, Triple-of, Triple-fact, Triple-record_audit,
}
use certio.Store.Repos.Users
use certio.Store.Repos.Users.{user_key}
use certio.Service.Loading.{or_fail}
use certio.Service.TwoFactor.{
  Authenticator, consume_recovery_code, refuse, spend_recovery, spend_step, open_sealed,
  verify_second_factor, verify_totp_step, normalize_totp_code, totp_period, totp_digits,
}
use certio.Service.TwoFactor.Steps.{IsCodeOf, verify_totp_step-window}

-- The row of a user's id.
abbrev pub Stored : User → Pred
Stored u w = find user_key u.id w.users ≡ some u

stored-IsStable : (u : User) → IsStable (Stored u)
stored-IsStable u = record { faults = λ w fs h. h; audit = λ w log h. h }

-- What stays of a list of digests once those of a code are dropped: the other digests.
any-keep-text_eq :
    (want hash : Text) (hashes : List Text)
    → any (text_eq hash) (keep (λ h. not (text_eq h want)) hashes)
      ≡ (any (text_eq hash) hashes && not (text_eq hash want))
any-keep-text_eq want hash [] = refl
any-keep-text_eq want hash (h ∷ hashes) = ground (
  arith,
  any-keep-text_eq want hash hashes,
  text_eq_iff hash h,
  text_eq_iff h want,
  text_eq_iff hash want,
)

Triple-update :
    (u v : User) → v.id ≡ u.id → Triple (Stored u) (Stored u) (Users.update v) (λ _. Stored v)
unfolding Users.update
Triple-update u v same =
    Triple-write (stored-IsStable u) (λ w h. h) _
      (λ w h. ground (arith, find-save user_key v w.users v.id, eq_iff v.id v.id))

some_injective : {A : Type 0} {a b : A} → some a ≡ some b → a ≡ b
some_injective e = cc

module _ (authenticator : Authenticator) (now : ℕ) where
  open authenticator use {hash_recovery_code, open_secret}

  -- The keyring opens the secret of the user.
  abbrev pub Opened : User → Text → Type 0
  Opened u secret =
      (sealed : Text) × (u.totp_secret ≡ some sealed) × (open_secret sealed ≡ some secret)

  -- The code is the one of a step for the user's secret, the step is the current one or one to
  -- either side, and later than the last one. It is the last one now, and that is all that changed.
  pub record UsedStep (u : User) (code : Text) (v : User) : Type 0 where
    pub secret : Text
    pub opened : Opened u secret
    pub of_step : IsCodeOf authenticator secret code v.totp_last_step
    pub digits : length (normalize_totp_code code) ≡ totp_digits
    pub not_before : now / totp_period ≤ v.totp_last_step + 1
    pub not_after : v.totp_last_step ≤ now / totp_period + 1
    pub later : u.totp_last_step < v.totp_last_step
    pub rest : v ≡ record u { totp_last_step = v.totp_last_step }

  -- The code is a recovery code of the user, and its digest is what is gone.
  pub record UsedRecovery (u : User) (code : Text) (v : User) : Type 0 where
    pub there : any (text_eq (hash_recovery_code code)) u.recovery_codes ≡ true
    pub left :
        (hash : Text)
        → any (text_eq hash) v.recovery_codes
          ≡ (any (text_eq hash) u.recovery_codes && not (text_eq hash (hash_recovery_code code)))
    pub rest : v ≡ record u { recovery_codes = v.recovery_codes }

  abbrev pub Used : User → Text → Bool → User → Type 0
  Used u code false v = UsedStep u code v
  Used u code true v = UsedRecovery u code v

  abbrev pub Outcome : User → Text → Bool × User → Pred
  Outcome u code (used, v) w = Used u code used v × (v.id ≡ u.id) × Stored v w

  Triple-refuse :
      {A : Type 0} {Q : A → Pred} (u : User)
      → Triple (Stored u) (Stored u) (refuse authenticator u) Q
  Triple-refuse u =
      Triple-bind (Triple-record_audit (stored-IsStable u) _ _) λ _. Triple-fail _ (λ w h. h)

  matches-text_eq :
      (want : Text) (hashes : List Text)
      → any (λ hash. text_eq hash want) hashes ≡ any (text_eq want) hashes
  matches-text_eq want [] = refl
  matches-text_eq want (h ∷ hashes) =
      ground (arith, matches-text_eq want hashes, text_eq_iff h want, text_eq_iff want h)

  consumed :
      (u : User) (code : Text) (v : User)
      → consume_recovery_code authenticator u code ≡ some v
      → UsedRecovery u code v × (v.id ≡ u.id)
  unfolding consume_recovery_code
  consumed u code v e =
      let want = hash_recovery_code code in
      elim (Bool-cases (any (λ hash. text_eq hash want) u.recovery_codes)) [
        | inr absent ↦ absurd (cc (rw absent at e))
        | inl there ↦
            subst (λ v. UsedRecovery u code v × (v.id ≡ u.id)) (some_injective (rw there at e))
              (
                record {
                  there = sym (matches-text_eq want u.recovery_codes) ∙ there;
                  left = λ hash. any-keep-text_eq want hash u.recovery_codes;
                  rest = refl;
                },
                refl,
              )
      ]

  Triple-spend_recovery :
      (u : User) (code : Text) (o : Option User)
      → consume_recovery_code authenticator u code ≡ o
      → Triple (Stored u) (Stored u) (spend_recovery authenticator u o) (Outcome u code)
  Triple-spend_recovery u code none e = Triple-refuse u
  Triple-spend_recovery u code (some v) e =
      let (used, same) = consumed u code v e in
      Triple-bind (Triple-update u v same) λ _.
        Triple-bind (Triple-record_audit (stored-IsStable v) _ _)
          λ _. Triple-pure _ (λ w h. (used, same, h))

  Triple-spend_step :
      (u : User) (secret code : Text) (o : Option ℕ)
      → Opened u secret
      → verify_totp_step authenticator secret code now ≡ o
      → Triple (Stored u) (Stored u) (spend_step authenticator u code o) (Outcome u code)
  Triple-spend_step u secret code none opened e = Triple-spend_recovery u code _ refl
  Triple-spend_step u secret code (some step) opened e =
      let spent : User = record u { totp_last_step = step } in
      let (of_step, digits, low, high) =
        verify_totp_step-window authenticator secret code now step e in
      Triple-if (leb step u.totp_last_step) _ _ (λ _. Triple-refuse u)
        λ later. Triple-bind (Triple-update u spent refl) λ _. Triple-pure _ (λ w h. (
          record {
            secret = secret;
            opened = opened;
            of_step = of_step;
            digits = digits;
            not_before = low;
            not_after = high;
            later = ground arith;
            rest = refl;
          },
          refl,
          h,
        ))

  Triple-or_fail :
      {A : Type 0} (u : User) (e : Err) (o : Option A)
      → Triple (Stored u) (Stored u) (or_fail e o) (λ a w. Stored u w × (o ≡ some a))
  Triple-or_fail u e none = Triple-fail e (λ w h. h)
  Triple-or_fail u e (some a) = Triple-pure a (λ w h. (h, refl))

  Triple-open :
      (u : User) (o : Option Text)
      → u.totp_secret ≡ o
      → Triple
          (Stored u)
          (Stored u)
          (open_sealed authenticator o)
          (λ secret w. Stored u w × Opened u secret)
  Triple-open u none e = Triple-fail _ (λ w h. h)
  Triple-open u (some sealed) e =
      Triple-weaken (λ secret w h. (h.0, (sealed, e, h.1))) (Triple-or_fail u _ _)

  -- Where the row of the user's id is the user: a code that is accepted is either the one of a time
  -- step for the user's secret, has six digits, and its step is the current one or one to either side,
  -- later than the last one that was used, and the last one now; or it is a recovery code of the user,
  -- whose digest alone is not there any more. The row is the user with that change and no other. Where
  -- the code is refused or the driver fails, the row is as it was.
  pub Triple-verify_second_factor :
      (u : User) (raw : Text)
      → Triple
          (Stored u)
          (Stored u)
          (verify_second_factor authenticator now u raw)
          (Outcome u (trim_space raw))
  unfolding verify_second_factor
  Triple-verify_second_factor u raw =
      Triple-bind (Triple-weaken (λ a w h. h.0) (Triple-fail_if _ _ (λ w h. h))) λ _.
        Triple-bind (Triple-open u u.totp_secret refl) λ secret.
          Triple-fact {F = Opened u secret} (λ w h. h.1)
            λ opened. Triple-of (λ w h. h.0) (Triple-spend_step u secret _ _ opened refl)
