-- ===== src/Service/Acme.antt =====
-- internal/service/acme.go: authorizations and challenges of the ACME server, and the order that
-- they make ready. The digest of a token with the account's key is the argument `key_authorization`,
-- and the fetch or lookup that proves a name the argument `validate`. The text of a problem is left
-- out; an early `return` of a function without a result is an error that its caller ignores.
pub mod Nonces
pub mod Orders
pub mod Offers
pub mod Csr
pub mod Ready
pub mod Attempt
mod Tests
use certio.Prelude.{
  ℕ, ◌+◌, ◌*◌, Bool, true, false, not, ◌||◌, Option, some, String, str_eq, if◌then◌else◌, leb, all,
}
use certio.Text.{Text}
use certio.Store.Models.{
  AcmeAccount, AcmeStatus, pending, ready, processing, valid, invalid, AcmeOrder, AcmeAuthorization,
  AcmeChallenge, ChallengeType,
}
use certio.Store.Exec.{
  Result, ok, err, conflict, forbidden, unusable, Exec, pure, fail_if, try, ◌>>=◌, ◌>>◌,
}
use certio.Store.Repos.Acme
use certio.Service.Loading.{or_fail}
use certio.Store.Repos.Authorities

abbrev pub is_pending : AcmeStatus → Bool
is_pending pending = true
is_pending _ = false

abbrev pub is_valid : AcmeStatus → Bool
is_valid valid = true
is_valid _ = false

abbrev pub is_invalid : AcmeStatus → Bool
is_invalid invalid = true
is_invalid _ = false

-- A failure that is logged and goes no further.
abbrev pub ignore : Exec (Unit {0}) → Exec (Unit {0})
ignore m = do try m; pure tt

abbrev pub ready_if : AcmeOrder → Bool → Exec (Unit {0})
ready_if order true = ignore (Acme.update_order (record order { status = ready }))
ready_if order false = pure tt

-- Moves an order to ready once every authorization is valid.
unfoldable pub refresh_order_status : String → Exec (Unit {0})
unfolding fail_if
refresh_order_status order_id = do
  order ← Acme.get_order order_id
  fail_if (not (is_pending order.status)) conflict
  authzs ← Acme.authorizations_by_order order_id
  ready_if order (all (λ a. is_valid a.status) authzs)

abbrev invalidate_order : Result AcmeOrder → Exec (Unit {0})
invalidate_order (ok order) = ignore (Acme.update_order (record order { status = invalid }))
invalidate_order (err _) = pure tt

-- Marks an authorization invalid once no challenge on it can still succeed.
unfoldable pub fail_authorization_if_exhausted : AcmeAuthorization → Exec (Unit {0})
unfolding fail_if
fail_authorization_if_exhausted authz = do
  challenges ← Acme.challenges_by_authorization authz.id
  fail_if (not (all (λ c. is_invalid c.status) challenges)) conflict
  Acme.update_authorization (record authz { status = invalid })
  order ← try (Acme.get_order authz.order_id)
  invalidate_order order

abbrev pub max_challenge_attempts : ℕ
max_challenge_attempts = 10

abbrev pub day : ℕ
day = 86400

-- An order may be completed for seven days; a valid authorization is used again for thirty.
abbrev pub order_ttl : ℕ
order_ttl = 7 * day

abbrev pub authorization_ttl : ℕ
authorization_ttl = 30 * day

abbrev pub tried : AcmeChallenge → AcmeChallenge
tried challenge = record challenge { attempts = challenge.attempts + 1; status = processing }

-- `validate` returns whether the name was proved.
module _ (now : ℕ) (key_authorization : AcmeAccount → String → Option Text)
    (validate : ChallengeType → Text → String → Text → Bool) where
  abbrev pub settle : AcmeChallenge → AcmeAuthorization → Bool → Exec AcmeChallenge
  settle challenge authz false = do
    let failed : AcmeChallenge = record challenge { status = invalid }
    ignore (Acme.update_challenge failed)
    ignore (fail_authorization_if_exhausted authz)
    pure failed
  settle challenge authz true = do
    let proved : AcmeChallenge = record challenge { status = valid; validated_at = some now }
    Acme.update_challenge proved
    Acme.update_authorization
        (record authz { status = valid; expires_at = now + authorization_ttl })
    ignore (refresh_order_status authz.order_id)
    pure proved

  unfoldable pub attempt : AcmeAccount → AcmeChallenge → AcmeAuthorization → Exec AcmeChallenge
  unfolding fail_if refresh_order_status fail_authorization_if_exhausted
  attempt account challenge authz = do
    fail_if (leb max_challenge_attempts challenge.attempts) forbidden
    proof ← or_fail unusable (key_authorization account challenge.token)
    ignore (Acme.update_challenge (tried challenge))
    settle (tried challenge) authz (validate challenge.type authz.identifier challenge.token proof)

  -- Performs a challenge and updates the state of the order.
  unfoldable pub validate_challenge : AcmeAccount → String → Exec AcmeChallenge
  unfolding fail_if attempt
  validate_challenge account challenge_id = do
    challenge ← Acme.get_challenge challenge_id
    authz ← Acme.get_authorization challenge.authorization_id
    fail_if (not (str_eq authz.account_id account.id)) forbidden
    if is_valid challenge.status || is_invalid challenge.status
        then pure challenge
        else attempt account challenge authz
