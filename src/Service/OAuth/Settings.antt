-- ===== src/Service/OAuth/Settings.antt =====
-- internal/service/oauth.go: the settings of the identity provider. `net/url.Parse`, as far as it
-- tells an absolute http or https URL, and the keyring are arguments.
use certio.Prelude.{
  Bool, not, ◌&&◌, ◌||◌, List, [], ◌∷◌, map, Option, none, some, String, if◌then◌else◌, is_empty,
  any,
}
use certio.Text.{Text, txt, text_eq, trim_space, trim_prefix, to_lower}
use certio.Store.Models.{OAuthProvider}
use certio.Store.Exec.{
  Result, ok, err, validation, unusable, oauth_not_configured, Exec, pure, fail, fail_if, try,
  ◌>>=◌, ◌>>◌, record_audit, oauth_configured, oauth_removed,
}
use certio.Store.Repos.OAuth
use certio.Store.Repos.OAuth.{is_not_found}
use certio.Service.Loading.{or_fail}
use certio.Service.Auth.Accounts.{validate_role, default_role}

pub record OAuthProviderInput : Type 0 where
  pub name : Text
  pub display_name : Text
  pub client_id : Text
  pub client_secret : Text
  pub auth_url : Text
  pub token_url : Text
  pub user_info_url : Text
  pub scopes : List Text
  pub subject_field : Text
  pub email_field : Text
  pub name_field : Text
  pub allowed_domains : List Text
  pub allow_signup : Bool
  pub allow_unverified_email : Bool
  pub default_role : String
  pub enabled : Bool

abbrev pub member : Text → List Text → Bool
member value seen = any (text_eq value) seen

-- The items in their order, trimmed, without blanks and repetitions; `seen` holds those before.
unfoldable pub normalize_from : List Text → List Text → List Text
unfolding trim_space text_eq
normalize_from seen [] = []
normalize_from seen (raw ∷ rest) =
    let value = trim_space raw in
    let kept = normalize_from (value ∷ seen) rest in
    let skipped = normalize_from seen rest in
    if is_empty value || member value seen then skipped else value ∷ kept

unfoldable pub normalize_list : List Text → List Text
unfolding normalize_from
normalize_list items = normalize_from [] items

unfoldable pub normalize_domains : List Text → List Text
unfolding normalize_list to_lower trim_prefix
normalize_domains items = map (λ raw. to_lower (trim_prefix (txt "@") raw)) (normalize_list items)

abbrev or_text : Text → Text → Text
or_text value fallback = if is_empty value then fallback else value

unfoldable pub apply_defaults : OAuthProvider → OAuthProvider
apply_defaults p = record p {
  subject_field = or_text p.subject_field (txt "sub");
  email_field = or_text p.email_field (txt "email");
  name_field = or_text p.name_field (txt "name");
  default_role = default_role p.default_role;
  scopes = if is_empty p.scopes then txt "openid" ∷ txt "email" ∷ txt "profile" ∷ [] else p.scopes;
}

unfoldable pub provider_of : String → OAuthProviderInput → OAuthProvider
unfolding apply_defaults normalize_list normalize_domains trim_space to_lower
provider_of new_id input = apply_defaults (record {
  id = new_id;
  name = to_lower (trim_space input.name);
  display_name = trim_space input.display_name;
  client_id = trim_space input.client_id;
  client_secret = none;
  auth_url = trim_space input.auth_url;
  token_url = trim_space input.token_url;
  user_info_url = trim_space input.user_info_url;
  scopes = normalize_list input.scopes;
  subject_field = trim_space input.subject_field;
  email_field = trim_space input.email_field;
  name_field = trim_space input.name_field;
  allowed_domains = normalize_domains input.allowed_domains;
  allow_signup = input.allow_signup;
  allow_unverified_email = input.allow_unverified_email;
  default_role = default_role input.default_role;
  enabled = input.enabled;
})

-- The configured provider if it is enabled; a query that fails is an error of its own.
abbrev pub enabled_of : Result OAuthProvider → Exec OAuthProvider
enabled_of (ok p) = do fail_if (not p.enabled) oauth_not_configured; pure p
enabled_of (err e) = if is_not_found e then fail oauth_not_configured else fail e

unfoldable pub enabled_oauth_provider : Exec OAuthProvider
unfolding fail_if
enabled_oauth_provider = do found ← try OAuth.get; enabled_of found

abbrev existing_of : Result OAuthProvider → Exec (Option OAuthProvider)
existing_of (ok p) = pure (some p)
existing_of (err e) = if is_not_found e then pure none else fail e

abbrev secret_of : Option OAuthProvider → Option Text
secret_of none = none
secret_of (some p) = p.client_secret

module _ (is_absolute_http : Text → Bool) (seal : Text → Option Text) where
  unfoldable pub validate_endpoint : Text → Bool
  unfolding trim_space
  validate_endpoint raw = not (is_empty (trim_space raw)) && is_absolute_http (trim_space raw)

  -- A new secret is sealed; a field that is left blank keeps the stored one.
  abbrev client_secret_for : Text → Option OAuthProvider → Exec Text
  client_secret_for secret existing =
      if is_empty secret
      then or_fail validation (secret_of existing)
      else or_fail unusable (seal secret)

  unfoldable pub save_oauth_provider : String → OAuthProviderInput → Exec OAuthProvider
  unfolding provider_of validate_endpoint fail_if
  save_oauth_provider new_id input = do
    let p = provider_of new_id input
    fail_if (is_empty p.name) validation
    fail_if (is_empty p.client_id) validation
    fail_if
        (not (
          validate_endpoint input.auth_url
          && validate_endpoint input.token_url
          && validate_endpoint input.user_info_url))
        validation
    fail_if (not (validate_role (default_role input.default_role))) validation
    found ← try OAuth.get
    existing ← existing_of found
    secret ← client_secret_for input.client_secret existing
    saved ← OAuth.save_provider (record p { client_secret = some secret })
    record_audit oauth_configured saved.id
    pure saved

unfoldable pub delete_oauth_provider : Exec (Unit {0})
delete_oauth_provider = do p ← OAuth.get; OAuth.delete; record_audit oauth_removed p.id
