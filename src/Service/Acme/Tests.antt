-- ===== src/Service/Acme/Tests.antt =====
-- The ACME server at concrete inputs.
use certio.Prelude.{
  ℕ, ◌≡◌, ◌≢◌, refl, ◌↔◌, ◌⊎◌, All, Exists, Bool, true, false, List, [], ◌∷◌, Option, none, some,
  String,
}
use certio.Text.{Text, txt, to_lower, trim_space}
use certio.Store.Models.{
  AcmeAccount, AcmeAuthorization, AcmeChallenge, ChallengeType, http_01, dns_01, pending, valid,
}
use certio.Store.Exec.{World, empty_world, ok}
use certio.Store.Exec.Triple.{Triple, Keeps}
use certio.Store.Repos.Acme.{spend_nonce}
use certio.Service.Acme.{attempt, refresh_order_status}
use certio.Service.Acme.Nonces.{Event, issuing, spending, pruning, run, spend_once}
use certio.Service.Acme.Ready.{Proved, refresh_order_status-Proved}
use certio.Service.Acme.Attempt.{Attempted, attempt-Settled}
use certio.Service.Acme.Orders.{AcmeConfig, challenge_types, is_malformed}
use certio.Service.Acme.Csr.{
  Csr, IsOfOrder, NamesHost, check_csr_against_order, check_csr_against_order_iff,
}

abbrev with_nonce : World
with_nonce = record empty_world { acme_nonces = record { value = "n"; expires_at = 100 } ∷ [] }

abbrev events : List (List Bool × ℕ × Event)
events = ([], 11, issuing "m" 60) ∷ (true ∷ [], 12, spending "n") ∷ ([], 200, pruning) ∷ []

spend_once_example :
    (spend_nonce 13 "n" (record (run events (spend_nonce 10 "n" with_nonce).1) { faults = [] })).0
    ≢ ok true
unfolding spend_nonce
spend_once_example = spend_once 10 "n" events 13 [] with_nonce (refl, tt) refl refl

refresh_order_status-Proved_example : Keeps (Proved "o") (refresh_order_status "o")
refresh_order_status-Proved_example = refresh_order_status-Proved "o" "o"

abbrev account : AcmeAccount
account = record { id = "acc"; key_thumbprint = "k"; status = valid; external_account_id = none }

abbrev star_authorization : AcmeAuthorization
star_authorization = record {
  id = "z";
  order_id = "o";
  account_id = "acc";
  identifier = txt "*.example.com";
  wildcard = true;
  status = pending;
  expires_at = 700;
}

abbrev dns_challenge : AcmeChallenge
dns_challenge = record {
  id = "h";
  authorization_id = "z";
  type = dns_01;
  token = "t";
  status = pending;
  validated_at = none;
  attempts = 0;
}

abbrev digest : AcmeAccount → String → Option Text
digest a token = some (txt token)

abbrev accept : ChallengeType → Text → String → Text → Bool
accept http_01 name token proof = false
accept dns_01 name token proof = true

attempt-Settled_example :
    Triple
      (λ _. Unit)
      (λ _. Unit)
      (attempt 10 digest accept account dns_challenge star_authorization)
      (Attempted 10 digest accept account dns_challenge star_authorization)
attempt-Settled_example = attempt-Settled 10 digest accept account dns_challenge star_authorization

abbrev both : AcmeConfig
both = record { authority = none; http_01_enabled = true; dns_01_enabled = true }

abbrev csr : Csr
csr = record {
  common_name = txt "A.example.com";
  dns_names = txt "a.Example.com" ∷ [];
  has_other_names = false;
}

check_csr_against_order_iff_example :
    (check_csr_against_order csr (txt "a.example.com" ∷ []) ≡ true) ↔ (
      (csr.has_other_names ≡ false)
      × All (IsOfOrder (txt "a.example.com" ∷ [])) csr.dns_names
      × (NamesHost csr
          → Exists
              (λ i. to_lower i ≡ to_lower (trim_space csr.common_name))
              (txt "a.example.com" ∷ []))
      × ((csr.dns_names ≢ []) ⊎ NamesHost csr))
check_csr_against_order_iff_example = check_csr_against_order_iff csr (txt "a.example.com" ∷ [])

wildcard_accepted : is_malformed (λ name. false) (txt "*.a.com") ≡ false
unfolding is_malformed
wildcard_accepted = refl

inner_star_refused : is_malformed (λ name. false) (txt "a.*.com") ≡ true
unfolding is_malformed
inner_star_refused = refl

types_of_wildcard : challenge_types both true ≡ dns_01 ∷ []
unfolding challenge_types
types_of_wildcard = refl

types_of_host : challenge_types both false ≡ dns_01 ∷ http_01 ∷ []
unfolding challenge_types
types_of_host = refl
