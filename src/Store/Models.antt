-- ===== src/Store/Models.antt =====
-- internal/store/models.go, models_acme.go: the rows. Times are numbers of seconds; a column of
-- bytes that may be empty is an option. A column that no modelled operation reads is left out.
use certio.Prelude.{ℕ, Bool, List, Option, String}
use certio.Text.{Text}
use certio.Pki.Constraints.{NameConstraints}
use certio.Pki.San.{SanSet}
use certio.Pki.Subject.{Subject}
use certio.Pki.Keys.{KeySpec}

pub data Status : Type 0 where
  active expiring expired revoked held : Status

-- `type` holds the words of the code, "root" and "intermediate".
pub record Authority : Type 0 where
  pub id : String
  pub name : Text
  pub slug : Text
  pub type : String
  pub parent_id : Option String
  pub description : Text
  pub subject : Subject
  pub key_spec : KeySpec
  pub serial_number : String
  pub not_before : ℕ
  pub not_after : ℕ
  pub path_len : Option ℕ
  pub name_constraints : NameConstraints
  pub cert_pem : Text
  pub key : Option Text
  pub passphrase_protected : Bool
  pub crl_url : Text
  pub ocsp_url : Text
  pub crl_number : ℕ
  pub crl : Option Text
  pub next_crl_update : Option ℕ
  pub fingerprint : String
  pub status : Status

pub record Certificate : Type 0 where
  pub id : String
  pub authority_id : String
  pub common_name : Text
  pub profile : Text
  pub serial_number : String
  pub sans : SanSet
  pub not_before : ℕ
  pub not_after : ℕ
  pub validity_days : ℕ
  pub cert_pem : Text
  pub key : Option Text
  pub fingerprint : String
  pub status : Status
  pub auto_renew : Bool
  pub renew_before_days : ℕ
  pub renewed_from_id : Option String
  pub key_download_count : ℕ
  pub last_downloaded_at : Option ℕ
  pub labels : List (String × String)
  pub notes : Text

pub record Revocation : Type 0 where
  pub id : String
  pub certificate_id : String
  pub authority_id : String
  pub serial_number : String
  pub reason_code : ℕ
  pub revoked_at : ℕ
  pub revoked_by : String

-- `role` and `status` hold the words of the code, such as "admin" and "active". `oauth_provider` is
-- empty for an account that signs in with a password.
pub record User : Type 0 where
  pub id : String
  pub email : Text
  pub name : Text
  pub password_hash : Text
  pub role : String
  pub status : String
  pub last_login_at : Option ℕ
  pub oauth_provider : Text
  pub oauth_subject : Text
  pub totp_enabled : Bool
  pub totp_secret : Option Text
  pub totp_enabled_at : Option ℕ
  pub totp_last_step : ℕ
  pub recovery_codes : List Text

-- The one identity provider of an instance. The sealed client secret is one value.
pub record OAuthProvider : Type 0 where
  pub id : String
  pub name : Text
  pub display_name : Text
  pub client_id : Text
  pub client_secret : Option Text
  pub auth_url : Text
  pub token_url : Text
  pub user_info_url : Text
  pub scopes : List Text
  pub subject_field : Text
  pub email_field : Text
  pub name_field : Text
  pub allowed_domains : List Text
  pub allow_signup : Bool
  pub allow_unverified_email : Bool
  pub default_role : String
  pub enabled : Bool

-- A sign-in with the provider that waits for its answer, and those that the service remembers.
pub record OAuthPending : Type 0 where
  pub state : String
  pub verifier : Text
  pub expires_at : ℕ

pub record OAuthStates : Type 0 where
  pub entries : List OAuthPending
  pub last_gc : ℕ

pub record ApiToken : Type 0 where
  pub id : String
  pub user_id : String
  pub name : Text
  pub token_hash : Text
  pub scopes : List Text
  pub expires_at : Option ℕ
  pub last_used_at : Option ℕ
  pub revoked_at : Option ℕ

pub record RevokedSession : Type 0 where
  pub session_id : String
  pub user_id : String
  pub reason : String
  pub expires_at : ℕ
  pub revoked_at : ℕ

pub data AcmeStatus : Type 0 where
  pending ready processing valid invalid deactivated : AcmeStatus

pub record AcmeAccount : Type 0 where
  pub id : String
  pub key_thumbprint : String
  pub status : AcmeStatus
  pub external_account_id : Option String

pub record AcmeExternalAccount : Type 0 where
  pub id : String
  pub kid : String
  pub allowed_domains : List Text
  pub enabled : Bool
  pub expires_at : Option ℕ

pub record AcmeOrder : Type 0 where
  pub id : String
  pub account_id : String
  pub status : AcmeStatus
  pub identifiers : List Text
  pub expires_at : ℕ
  pub certificate_id : Option String

pub record AcmeAuthorization : Type 0 where
  pub id : String
  pub order_id : String
  pub account_id : String
  pub identifier : Text
  pub wildcard : Bool
  pub status : AcmeStatus
  pub expires_at : ℕ

pub data ChallengeType : Type 0 where
  http_01 dns_01 : ChallengeType

pub record AcmeChallenge : Type 0 where
  pub id : String
  pub authorization_id : String
  pub type : ChallengeType
  pub token : String
  pub status : AcmeStatus
  pub validated_at : Option ℕ
  pub attempts : ℕ

pub record AcmeNonce : Type 0 where
  pub value : String
  pub expires_at : ℕ
