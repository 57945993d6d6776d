-- ===== src/Service/TwoFactor/Tests.antt =====
-- Codes at concrete inputs.
use certio.Prelude.{none, ◌+◌, ◌/◌, ◌≡◌, ◌≤◌, refl, true, [], ◌∷◌, some, length, leb, if◌then◌else◌}
use certio.Text.{Text, txt, text_eq, trim_space}
use certio.Store.Models.{User}
use certio.Store.Exec.Triple.{Triple}
use certio.Service.TwoFactor.{
  Authenticator, verify_totp_step, verify_second_factor, normalize_totp_code, totp_period,
  totp_digits,
}
use certio.Service.TwoFactor.Steps.{IsCodeOf, verify_totp_step-window}
use certio.Service.TwoFactor.Factors.{Stored, Outcome, Triple-verify_second_factor}

-- The code of the steps from 4 on is not that of the others.
abbrev authenticator : Authenticator
authenticator = record {
  Key = Text;
  decode_secret = λ secret. some secret;
  hotp = λ key step. if leb step 3 then txt "123456" else txt "654321";
  hash_recovery_code = λ code. code;
  open_secret = λ sealed. some sealed;
  verify_password = λ password hash. true;
}

abbrev enrolled : User
enrolled = record {
  id = "u";
  email = txt "u@example.com";
  name = txt "U";
  password_hash = txt "hash";
  role = "viewer";
  status = "active";
  last_login_at = none;
  oauth_provider = [];
  oauth_subject = [];
  totp_enabled = true;
  totp_secret = some (txt "secret");
  totp_enabled_at = some 1;
  totp_last_step = 2;
  recovery_codes = txt "aaaa" ∷ [];
}

verify_totp_step-window_example :
    IsCodeOf authenticator (txt "secret") (txt "123 456") 3
    × (length (normalize_totp_code (txt "123 456")) ≡ totp_digits)
    × (100 / totp_period ≤ 3 + 1)
    × (3 ≤ 100 / totp_period + 1)
unfolding verify_totp_step text_eq
verify_totp_step-window_example =
    verify_totp_step-window authenticator (txt "secret") (txt "123 456") 100 3 refl

Triple-verify_second_factor_example :
    Triple
      (Stored enrolled)
      (Stored enrolled)
      (verify_second_factor authenticator 100 enrolled (txt "123 456"))
      (Outcome authenticator 100 enrolled (trim_space (txt "123 456")))
Triple-verify_second_factor_example =
    Triple-verify_second_factor authenticator 100 enrolled (txt "123 456")
