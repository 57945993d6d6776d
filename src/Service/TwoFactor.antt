-- ===== src/Service/TwoFactor.antt =====
-- internal/service/twofactor.go, with the check of a code of internal/crypto/totp.go. HMAC, SHA-256,
-- the decoder of base 32, the keyring and the password hash are the record `Authenticator`; the
-- clock, fresh secrets and fresh recovery codes are arguments. What is shown to the user, such as
-- the QR code, is left out.
pub mod Steps
pub mod Factors
mod Tests
use certio.Prelude.{
  ℕ, ◌+◌, ◌-◌, ◌/◌, Bool, true, false, not, ◌&&◌, List, [], ◌∷◌, Option, none, some, String,
  if◌then◌else◌, leb, ◌==◌, any, keep, length, is_empty,
}
use certio.Text.{Text, text_eq, trim_space}
use certio.Store.Models.{User}
use certio.Store.Exec.{
  validation, invalid_code, invalid_credentials, unusable, Exec, pure, fail, fail_if, ◌>>=◌, ◌>>◌,
  record_audit, two_factor_enabled, two_factor_disabled, two_factor_reset, two_factor_failed,
  recovery_code_used, recovery_codes_renewed,
}
use certio.Store.Repos.Users
use certio.Service.Loading.{or_fail}

pub record Authenticator : Type 1 where
  pub Key : Type 0
  pub decode_secret : Text → Option Key
  pub hotp : Key → ℕ → Text
  pub hash_recovery_code : Text → Text
  pub open_secret : Text → Option Text
  pub verify_password : Text → Text → Bool

-- The length of a time step in seconds, and of a code.
abbrev pub totp_period : ℕ
totp_period = 30

abbrev pub totp_digits : ℕ
totp_digits = 6

-- The digits of a code as it was typed.
unfoldable pub normalize_totp_code : Text → Text
normalize_totp_code code = keep (λ c. leb b'0' c && leb c b'9') code

-- The steps that are accepted: the current one, and one to either side where there is one.
abbrev pub candidates : ℕ → List ℕ
candidates counter =
    if counter == 0
    then counter ∷ (counter + 1) ∷ []
    else (counter - 1) ∷ counter ∷ (counter + 1) ∷ []

-- Every candidate is tried, and the last one that matches counts.
unfoldable pub last_match : (ℕ → Bool) → Option ℕ → List ℕ → Option ℕ
last_match matches found [] = found
last_match matches found (candidate ∷ rest) =
    last_match matches (if matches candidate then some candidate else found) rest

abbrev pub is_set : Option Text → Bool
is_set none = false
is_set (some _) = true

abbrev pub has_two_factor : User → Bool
has_two_factor u = u.totp_enabled && is_set u.totp_secret

abbrev pub enrollment_pending : User → Bool
enrollment_pending u = not u.totp_enabled && is_set u.totp_secret

module _ (authenticator : Authenticator) where
  open authenticator use {
    Key, decode_secret, hotp, hash_recovery_code, open_secret, verify_password,
  }

  -- Whether the code is that of a step.
  abbrev pub is_code : Key → Text → ℕ → Bool
  is_code key code step = text_eq (hotp key step) code

  abbrev pub step_of : Option Key → Text → ℕ → Option ℕ
  step_of none code counter = none
  step_of (some key) code counter =
      if length code == totp_digits
      then last_match (is_code key code) none (candidates counter)
      else none

  unfoldable pub verify_totp_step : Text → Text → ℕ → Option ℕ
  unfolding last_match normalize_totp_code
  verify_totp_step secret code now =
      step_of (decode_secret secret) (normalize_totp_code code) (now / totp_period)

  -- The user without the codes that match, if some code matches.
  unfoldable pub consume_recovery_code : User → Text → Option User
  consume_recovery_code user code =
      let want = hash_recovery_code code in
      let remaining = keep (λ hash. not (text_eq hash want)) user.recovery_codes in
      if any (λ hash. text_eq hash want) user.recovery_codes
      then some (record user { recovery_codes = remaining })
      else none

  -- A refusal, which is recorded.
  abbrev pub refuse : {A : Type 0} → User → Exec A
  refuse user = do record_audit two_factor_failed user.id; fail invalid_code

  abbrev or_refuse : User → Option ℕ → Exec ℕ
  or_refuse user none = refuse user
  or_refuse user (some step) = pure step

  abbrev pub spend_recovery : User → Option User → Exec (Bool × User)
  spend_recovery user none = refuse user
  spend_recovery user (some spent) = do
    Users.update spent
    record_audit recovery_code_used spent.id
    pure (true, spent)

  abbrev pub spend_step : User → Text → Option ℕ → Exec (Bool × User)
  spend_step user code none = spend_recovery user (consume_recovery_code user code)
  spend_step user code (some step) =
      let spent : User = record user { totp_last_step = step } in
      let accepted = (do Users.update spent; pure (false, spent)) in
      if leb step user.totp_last_step then refuse user else accepted

  abbrev pub open_sealed : Option Text → Exec Text
  open_sealed none = fail validation
  open_sealed (some sealed) = or_fail unusable (open_secret sealed)

  abbrev pub open_totp_secret : User → Exec Text
  open_totp_secret user = open_sealed user.totp_secret

  -- Whether a recovery code was used, and the user as it is in memory afterwards.
  unfoldable pub verify_second_factor : ℕ → User → Text → Exec (Bool × User)
  unfolding verify_totp_step consume_recovery_code fail_if
  verify_second_factor now user raw = do
    fail_if (is_empty (trim_space raw)) invalid_code
    secret ← open_totp_secret user
    spend_step user (trim_space raw) (verify_totp_step secret (trim_space raw) now)

  abbrev pub clear_two_factor : User → User
  clear_two_factor user = record user {
    totp_enabled = false;
    totp_secret = none;
    totp_enabled_at = none;
    totp_last_step = 0;
    recovery_codes = [];
  }

  -- `sealed` is a fresh secret as the keyring seals it.
  unfoldable pub begin_totp_enrollment : String → Text → Exec (Unit {0})
  unfolding fail_if
  begin_totp_enrollment user_id sealed = do
    user ← Users.get user_id
    fail_if (has_two_factor user) validation
    Users.update (record (clear_two_factor user) { totp_secret = some sealed })

  -- `hashes` are the digests of fresh recovery codes.
  unfoldable pub confirm_totp_enrollment : ℕ → String → Text → List Text → Exec (Unit {0})
  unfolding verify_totp_step fail_if
  confirm_totp_enrollment now user_id code hashes = do
    user ← Users.get user_id
    fail_if (has_two_factor user) validation
    fail_if (not (enrollment_pending user)) validation
    secret ← open_totp_secret user
    step ← or_refuse user (verify_totp_step secret code now)
    Users.update (record user {
      totp_enabled = true;
      totp_enabled_at = some now;
      totp_last_step = step;
      recovery_codes = hashes;
    })
    record_audit two_factor_enabled user.id

  -- A confirmed factor has to be proved before it is removed.
  abbrev pub prove_factor : ℕ → User → Text → Exec User
  prove_factor now user code =
      let proof = (do (used, spent) ← verify_second_factor now user code; pure spent) in
      if has_two_factor user then proof else pure user

  unfoldable pub disable_two_factor : ℕ → String → Text → Text → Exec (Unit {0})
  unfolding verify_second_factor fail_if
  disable_two_factor now user_id password code = do
    user ← Users.get user_id
    fail_if (not (has_two_factor user) && not (enrollment_pending user)) validation
    fail_if (not (verify_password password user.password_hash)) invalid_credentials
    spent ← prove_factor now user code
    Users.update (clear_two_factor spent)
    record_audit two_factor_disabled spent.id

  unfoldable pub reset_two_factor : String → Exec (Unit {0})
  unfolding fail_if
  reset_two_factor user_id = do
    user ← Users.get user_id
    fail_if (not (has_two_factor user) && not (enrollment_pending user)) validation
    Users.update (clear_two_factor user)
    record_audit two_factor_reset user.id

  unfoldable pub regenerate_recovery_codes : ℕ → String → Text → List Text → Exec (Unit {0})
  unfolding verify_second_factor fail_if
  regenerate_recovery_codes now user_id code hashes = do
    user ← Users.get user_id
    fail_if (not (has_two_factor user)) validation
    (used, spent) ← verify_second_factor now user code
    Users.update (record spent { recovery_codes = hashes })
    record_audit recovery_codes_renewed spent.id
