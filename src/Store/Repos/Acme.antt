-- ===== src/Store/Repos/Acme.antt =====
-- internal/store/repo_acme.go: the repository of the ACME server, `ACMERepo`.
use certio.Prelude.{
  ℕ, ◌+◌, Bool, not, ◌&&◌, List, [], ◌∷◌, ◌++◌, String, str_eq, any, keep, ltb, if◌then◌else◌,
}
use certio.Store.{find, has_key, save}
use certio.Store.Models.{
  AcmeAuthorization, AcmeChallenge, AcmeNonce, AcmeOrder, AcmeExternalAccount,
}
use certio.Store.Exec.{ok, conflict, World, Exec, query, select, select_first, write, write_if}

abbrev pub order_key : AcmeOrder → String
order_key o = o.id

abbrev pub authorization_key : AcmeAuthorization → String
authorization_key a = a.id

abbrev pub challenge_key : AcmeChallenge → String
challenge_key c = c.id

unfoldable pub get_external_account : String → Exec AcmeExternalAccount
get_external_account id = select_first (λ w. find (λ e. e.id) id w.acme_external_accounts)

unfoldable pub create_order : AcmeOrder → Exec (Unit {0})
create_order o =
    write_if (λ w. not (any (has_key order_key o.id) w.acme_orders)) conflict
      (λ w. record w { acme_orders = w.acme_orders ++ o ∷ [] })

unfoldable pub update_order : AcmeOrder → Exec (Unit {0})
update_order o = write (λ w. record w { acme_orders = save order_key o w.acme_orders })

unfoldable pub get_order : String → Exec AcmeOrder
get_order id = select_first (λ w. find order_key id w.acme_orders)

unfoldable pub create_authorization : AcmeAuthorization → Exec (Unit {0})
create_authorization a =
    write_if (λ w. not (any (has_key authorization_key a.id) w.acme_authorizations)) conflict
      (λ w. record w { acme_authorizations = w.acme_authorizations ++ a ∷ [] })

unfoldable pub update_authorization : AcmeAuthorization → Exec (Unit {0})
update_authorization a =
    write (λ w. record w { acme_authorizations = save authorization_key a w.acme_authorizations })

unfoldable pub get_authorization : String → Exec AcmeAuthorization
get_authorization id = select_first (λ w. find authorization_key id w.acme_authorizations)

abbrev pub is_of_order : String → AcmeAuthorization → Bool
is_of_order order_id a = str_eq a.order_id order_id

unfoldable pub authorizations_by_order : String → Exec (List AcmeAuthorization)
authorizations_by_order order_id = select (λ w. keep (is_of_order order_id) w.acme_authorizations)

unfoldable pub create_challenge : AcmeChallenge → Exec (Unit {0})
create_challenge c =
    write_if (λ w. not (any (has_key challenge_key c.id) w.acme_challenges)) conflict
      (λ w. record w { acme_challenges = w.acme_challenges ++ c ∷ [] })

unfoldable pub update_challenge : AcmeChallenge → Exec (Unit {0})
update_challenge c =
    write (λ w. record w { acme_challenges = save challenge_key c w.acme_challenges })

unfoldable pub get_challenge : String → Exec AcmeChallenge
get_challenge id = select_first (λ w. find challenge_key id w.acme_challenges)

unfoldable pub challenges_by_authorization : String → Exec (List AcmeChallenge)
challenges_by_authorization id =
    select (λ w. keep (λ c. str_eq c.authorization_id id) w.acme_challenges)

abbrev pub is_nonce : String → AcmeNonce → Bool
is_nonce value n = str_eq n.value value

abbrev pub with_nonces : (List AcmeNonce → List AcmeNonce) → World → World
with_nonces f w = record w { acme_nonces = f w.acme_nonces }

abbrev pub add_nonce : AcmeNonce → List AcmeNonce → List AcmeNonce
add_nonce n rows = if any (is_nonce n.value) rows then rows else rows ++ n ∷ []

-- A value that is there already is left alone.
unfoldable pub issue_nonce : ℕ → String → ℕ → Exec (Unit {0})
issue_nonce now value ttl =
    write (with_nonces (add_nonce (record { value = value; expires_at = now + ttl })))

abbrev pub is_spendable : ℕ → String → AcmeNonce → Bool
is_spendable now value n = is_nonce value n && ltb now n.expires_at

-- The delete is the check.
unfoldable pub spend_nonce : ℕ → String → Exec Bool
unfolding query
spend_nonce now value = query (λ w. (
  ok (any (is_spendable now value) w.acme_nonces),
  with_nonces (keep (λ n. not (is_spendable now value n))) w,
))

unfoldable pub prune_nonces : ℕ → Exec (Unit {0})
prune_nonces before = write (with_nonces (keep (λ n. not (ltb n.expires_at before))))
