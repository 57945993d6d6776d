-- ===== src/Service/TwoFactor/Steps.antt =====
-- internal/crypto/totp.go: `VerifyTOTPStep`.
use certio.Prelude.{
  ℕ, ◌+◌, ◌/◌, ◌≡◌, ◌≤◌, ◌⊎◌, Bool, true, List, [], ◌∷◌, Option, none, some, arith, length, Exists,
  inl, inr, Bool-cases, Option-cases, subst,
}
use certio.Text.{Text, text_eq_iff}
use certio.Service.TwoFactor.{
  Authenticator, last_match, candidates, verify_totp_step, step_of, is_code, normalize_totp_code,
  totp_period, totp_digits,
}

-- What is found matches, or was found before.
last_match-holds :
    (matches : ℕ → Bool) (found : Option ℕ) (rest : List ℕ) (step : ℕ)
    → last_match matches found rest ≡ some step
    → (found ≡ some step) ⊎ ((matches step ≡ true) × Exists (λ c. c ≡ step) rest)
unfolding last_match
last_match-holds matches found [] step e = inl e
last_match-holds matches found (c ∷ rest) step e = elim (Bool-cases (matches c)) [
  | inl yes_it ↦ ground (arith, last_match-holds matches (some c) rest step)
  | inr no_it ↦ ground (arith, last_match-holds matches found rest step)
]

near :
    (counter step : ℕ)
    → Exists (λ c. c ≡ step) (candidates counter)
    → (counter ≤ step + 1) × (step ≤ counter + 1)
near counter step h = ground arith

module _ (authenticator : Authenticator) where
  -- The code is the one of a step for a secret.
  abbrev pub IsCodeOf : Text → Text → ℕ → Type 0
  IsCodeOf secret code step =
      (key : authenticator.Key) × (authenticator.decode_secret secret ≡ some key)
      × (authenticator.hotp key step ≡ normalize_totp_code code)

  key_step :
      (key : authenticator.Key) (code : Text) (counter step : ℕ)
      → step_of authenticator (some key) code counter ≡ some step
      → (is_code authenticator key code step ≡ true)
        × (length code ≡ totp_digits)
        × (counter ≤ step + 1)
        × (step ≤ counter + 1)
  key_step key code counter step e = ground (
    arith,
    last_match-holds (is_code authenticator key code) none (candidates counter) step,
    near counter step,
  )

  -- A code that is accepted for a step is the one of that step, has six digits, and the step is the
  -- current one or one to either side.
  pub verify_totp_step-window :
      (secret code : Text) (now step : ℕ)
      → verify_totp_step authenticator secret code now ≡ some step
      → IsCodeOf secret code step
        × (length (normalize_totp_code code) ≡ totp_digits)
        × (now / totp_period ≤ step + 1)
        × (step ≤ now / totp_period + 1)
  unfolding verify_totp_step
  verify_totp_step-window secret code now step e =
      elim (Option-cases (authenticator.decode_secret secret)) [
        | inl none_there ↦
            absurd
              (cc (subst (λ o. step_of authenticator o digits counter ≡ some step) none_there e))
        | inr (key, there) ↦
            let (match, size, low, high) =
              key_step key digits counter step
                (subst (λ o. step_of authenticator o digits counter ≡ some step) there e) in
            ((key, there, (text_eq_iff _ _).0 match), size, low, high)
      ]
    where
      digits : Text
      digits = normalize_totp_code code

      counter : ℕ
      counter = now / totp_period
