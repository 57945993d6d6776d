-- ===== src/Store/Exec.antt =====
-- Actions on the database: they return a result or an error beside the tables they leave, because
-- what was written before an error stays written.
pub mod Triple
pub mod Quiet
use certio.Prelude.{
  Bool, true, false, List, [], ◌∷◌, ◌++◌, Option, none, some, String, if◌then◌else◌,
}
use certio.Store.Models.{
  Authority, Certificate, Revocation, AcmeExternalAccount, AcmeOrder, AcmeAuthorization,
  AcmeChallenge, AcmeNonce, AcmeAccount, User, ApiToken, RevokedSession, OAuthProvider, OAuthStates,
}

-- The errors that a caller can tell apart. `driver` is what the database reports of itself.
pub data Err : Type 0 where
  not_found conflict validation forbidden key_unavailable in_use : Err
  ocsp_unauthorized invalid_code invalid_credentials account_disabled unusable driver : Err
  oauth_not_configured oauth_denied : Err

pub data Result {ℓ} (A : Type ℓ) : Type ℓ where
  ok : A → Result A
  err : Err → Result A

pub data Action : Type 0 where
  cert_revoke cert_release_hold cert_update cert_delete : Action
  key_download key_download_denied crl_issued : Action
  two_factor_enabled two_factor_disabled two_factor_reset two_factor_failed : Action
  recovery_code_used recovery_codes_renewed : Action
  login login_failed logout user_create user_update user_delete token_issued token_revoked : Action
  cert_issue cert_sign_csr cert_renew ca_create ca_import ca_update ca_delete ca_renew : Action
  acme_account_create acme_external_create acme_external_delete : Action
  oauth_configured oauth_removed oauth_linked oauth_provisioned : Action

-- An audit record: what was done to which row, whether or not it succeeded.
pub record Entry : Type 0 where
  pub action : Action
  pub resource_id : String

-- The tables, the sign-ins that the service remembers, the audit log, and which of the coming queries the driver fails.
pub record World : Type 0 where
  pub authorities : List Authority
  pub certificates : List Certificate
  pub revocations : List Revocation
  pub users : List User
  pub api_tokens : List ApiToken
  pub revoked_sessions : List RevokedSession
  pub acme_accounts : List AcmeAccount
  pub acme_external_accounts : List AcmeExternalAccount
  pub acme_orders : List AcmeOrder
  pub acme_authorizations : List AcmeAuthorization
  pub acme_challenges : List AcmeChallenge
  pub acme_nonces : List AcmeNonce
  pub oauth_providers : List OAuthProvider
  pub oauth_states : OAuthStates
  pub audit : List Entry
  pub faults : List Bool

-- The database of a new instance, whose driver fails no query.
abbrev pub empty_world : World
empty_world = record {
  authorities = [];
  certificates = [];
  revocations = [];
  users = [];
  api_tokens = [];
  revoked_sessions = [];
  acme_accounts = [];
  acme_external_accounts = [];
  acme_orders = [];
  acme_authorizations = [];
  acme_challenges = [];
  acme_nonces = [];
  oauth_providers = [];
  oauth_states = record { entries = []; last_gc = 0 };
  audit = [];
  faults = [];
}

abbrev pub Exec : Type 0 → Type 0
Exec A = World → Result A × World

module _ {A : Type 0} where
  unfoldable pub pure : A → Exec A
  pure a w = (ok a, w)

  unfoldable pub fail : Err → Exec A
  fail e w = (err e, w)

  -- One query, which the driver fails if the next entry of the schedule says so.
  unfoldable pub query : Exec A → Exec A
  query m w = elim w.faults [
    | [] ↦ m w
    | true ∷ faults ↦ (err driver, record w { faults = faults })
    | false ∷ faults ↦ m (record w { faults = faults })
  ]

  -- The error of an action that the caller looks at.
  unfoldable pub try : Exec A → Exec (Result A)
  try m w = let (r, w') = m w in (ok r, w')

module _ {A B : Type 0} where
  abbrev continue : Result A → (A → Exec B) → Exec B
  continue (ok a) f w = f a w
  continue (err e) f w = (err e, w)

  infixl 5 ◌>>=◌ ◌>>◌
  unfoldable pub ◌>>=◌ : Exec A → (A → Exec B) → Exec B
  ◌>>=◌ m f w = let (r, w') = m w in continue r f w'

  abbrev pub ◌>>◌ : Exec A → Exec B → Exec B
  m >> n = m >>= λ _. n

module _ {A : Type 0} where
  -- A query that answers from the tables and changes nothing.
  unfoldable pub select : (World → A) → Exec A
  unfolding query
  select f = query (λ w. (ok (f w), w))

  -- `First`: no row is an error.
  abbrev pub or_not_found : Option A → Result A
  or_not_found none = err not_found
  or_not_found (some a) = ok a

  unfoldable pub select_first : (World → Option A) → Exec A
  unfolding query
  select_first f = query (λ w. (or_not_found (f w), w))

-- A statement that writes.
unfoldable pub write : (World → World) → Exec (Unit {0})
unfolding query
write f = query (λ w. (ok tt, f w))

-- An INSERT, refused by a unique index, or an UPDATE or DELETE that meets no row.
unfoldable pub write_if : (World → Bool) → Err → (World → World) → Exec (Unit {0})
unfolding query
write_if test e f = query (λ w. if test w then (ok tt, f w) else (err e, w))

-- audit.Logger: a failure to write the record is logged and goes no further.
abbrev audit_entry : Entry → World → World
audit_entry entry w = record w { audit = w.audit ++ entry ∷ [] }

abbrev ignore : Result (Unit {0}) × World → Result (Unit {0}) × World
ignore (r, w) = (ok tt, w)

unfoldable pub record_audit : Action → String → Exec (Unit {0})
unfolding write
record_audit action id w =
    ignore (write (audit_entry (record { action = action; resource_id = id })) w)

-- An early return with an error.
unfoldable pub fail_if : Bool → Err → Exec (Unit {0})
fail_if true e w = (err e, w)
fail_if false e w = (ok tt, w)
