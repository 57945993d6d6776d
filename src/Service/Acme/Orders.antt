-- ===== src/Service/Acme/Orders.antt =====
-- internal/service/acme.go: a new order. The parser of IP addresses is an argument, as are the
-- identifiers and tokens of the rows; the dates that a client may ask for are left out.
use certio.Prelude.{
  ℕ, ◌+◌, Bool, true, false, not, ◌&&◌, ◌||◌, List, [], ◌∷◌, Option, none, some, String,
  if◌then◌else◌, ltb, is_empty, length,
}
use certio.Text.{Text, trim_space, to_lower, has_prefix, trim_prefix, contains, count}
use certio.Pki.Constraints.{NameConstraints, is_zero, permits_dns}
use certio.Store.Models.{
  Authority, AcmeAccount, AcmeExternalAccount, pending, AcmeOrder, AcmeAuthorization, AcmeChallenge,
  ChallengeType, http_01, dns_01,
}
use certio.Store.Exec.{
  Result, ok, err, validation, forbidden, unusable, Exec, pure, fail, fail_if, try, ◌>>=◌, ◌>>◌,
}
use certio.Store.Repos.Acme
use certio.Store.Repos.Authorities
use certio.Service.Acme.{order_ttl}

-- The part of the configuration that an order depends on. `authority` is empty where none is set.
pub record AcmeConfig : Type 0 where
  pub authority : Option String
  pub http_01_enabled : Bool
  pub dns_01_enabled : Bool

abbrev pub if_enabled : Bool → ChallengeType → List ChallengeType
if_enabled true t = t ∷ []
if_enabled false t = []

-- The ways an identifier may be proved: http-01 cannot prove a wildcard.
unfoldable pub challenge_types : AcmeConfig → Bool → List ChallengeType
challenge_types config wildcard =
    let http = if_enabled (not wildcard && config.http_01_enabled) http_01 in
    if config.dns_01_enabled then dns_01 ∷ http else http

abbrev pub offered : AcmeAuthorization → ChallengeType → String × String → AcmeChallenge
offered authz t (id, token) = record {
  id = id;
  authorization_id = authz.id;
  type = t;
  token = token;
  status = pending;
  validated_at = none;
  attempts = 0;
}

-- The key and the token of each challenge are taken from `fresh`.
unfoldable pub create_each :
    AcmeAuthorization → List ChallengeType → (ChallengeType → String × String) → Exec (Unit {0})
create_each authz [] fresh = pure tt
create_each authz (t ∷ types) fresh = do
  Acme.create_challenge (offered authz t (fresh t))
  create_each authz types fresh

unfoldable pub create_challenges :
    AcmeConfig → AcmeAuthorization → (ChallengeType → String × String) → Exec (Unit {0})
unfolding challenge_types create_each fail_if
create_challenges config authz fresh = do
  fail_if (is_empty (challenge_types config authz.wildcard)) unusable
  create_each authz (challenge_types config authz.wildcard) fresh

-- "*." and "*".
abbrev star_dot : Text
star_dot = 42 ∷ 46 ∷ []

abbrev star : ℕ
star = 42

-- A name that is empty, an address, or has a star elsewhere than in front.
unfoldable pub is_malformed : (Text → Bool) → Text → Bool
unfolding trim_prefix count contains has_prefix
is_malformed is_ip name =
    is_empty name
    || is_ip (trim_prefix star_dot name)
    || ltb 1 (count star name)
    || (contains star name && not (has_prefix star_dot name))

abbrev pub only_permitted : List Text → NameConstraints
only_permitted names = record {
  permitted_dns = names;
  excluded_dns = [];
  permitted_email = [];
  excluded_email = [];
  permitted_ip = [];
  excluded_ip = [];
  permitted_uri = [];
  excluded_uri = [];
}

-- What the binding of an account refuses: nothing, if it cannot be read.
abbrev pub outside_binding : Text → Result AcmeExternalAccount → Bool
outside_binding name (err _) = false
outside_binding name (ok binding) =
    not (is_empty binding.allowed_domains)
    && not (permits_dns (only_permitted binding.allowed_domains) name)

abbrev check_binding : Text → Option String → Exec (Unit {0})
check_binding name none = pure tt
check_binding name (some id) = do
  binding ← try (Acme.get_external_account id)
  fail_if (outside_binding name binding) forbidden

abbrev pub acme_authority : Option String → Exec Authority
acme_authority none = fail unusable
acme_authority (some id) = Authorities.resolve id

module _ (config : AcmeConfig) (is_ip : Text → Bool) where
  -- Decides whether this server will issue for a name.
  unfoldable pub check_acme_identifier : AcmeAccount → Text → Exec (Unit {0})
  unfolding is_malformed fail_if
  check_acme_identifier account name = do
    fail_if (is_malformed is_ip name) validation
    check_binding name account.external_account_id
    ca ← acme_authority config.authority
    fail_if (not (is_zero ca.name_constraints) && not (permits_dns ca.name_constraints name))
        forbidden

  -- The type of each identifier, whether it is dns, and its value.
  unfoldable pub check_all : AcmeAccount → List (Bool × Text) → Exec (List Text)
  unfolding check_acme_identifier fail_if
  check_all account [] = pure []
  check_all account ((is_dns, value) ∷ rest) = do
    fail_if (not is_dns) validation
    check_acme_identifier account (to_lower (trim_space value))
    names ← check_all account rest
    pure (to_lower (trim_space value) ∷ names)

  -- The keys and tokens of the rows that a name leads to.
  pub record Fresh : Type 0 where
    pub authorization_id : Text → String
    pub challenge : Text → ChallengeType → String × String

  unfoldable pub authorize_each : ℕ → Fresh → AcmeOrder → List Text → Exec (List AcmeAuthorization)
  unfolding create_challenges
  authorize_each now fresh order [] = pure []
  authorize_each now fresh order (name ∷ names) = do
    let authz : AcmeAuthorization = record {
      id = fresh.authorization_id name;
      order_id = order.id;
      account_id = order.account_id;
      identifier = name;
      wildcard = has_prefix star_dot name;
      status = pending;
      expires_at = now + order_ttl;
    }
    Acme.create_authorization authz
    create_challenges config authz (fresh.challenge name)
    authzs ← authorize_each now fresh order names
    pure (authz ∷ authzs)

  -- A single order may carry at most a hundred identifiers.
  abbrev pub max_order_identifiers : ℕ
  max_order_identifiers = 100

  unfoldable pub new_order :
      ℕ
      → String
      → Fresh
      → AcmeAccount
      → List (Bool × Text)
      → Exec (AcmeOrder × List AcmeAuthorization)
  unfolding check_all authorize_each fail_if
  new_order now order_id fresh account identifiers = do
    fail_if (is_empty identifiers) validation
    fail_if (ltb max_order_identifiers (length identifiers)) forbidden
    names ← check_all account identifiers
    let order : AcmeOrder = record {
      id = order_id;
      account_id = account.id;
      status = pending;
      identifiers = names;
      expires_at = now + order_ttl;
      certificate_id = none;
    }
    Acme.create_order order
    authzs ← authorize_each now fresh order names
    pure (order, authzs)
