-- ===== src/Service/OAuth/Resolution.antt =====
-- internal/service/oauth.go: the account that a profile of the identity provider is for.
use certio.Prelude.{
  Bool, true, false, not, ◌&&◌, ◌||◌, List, [], ◌∷◌, none, some, String, if◌then◌else◌, is_empty,
  any,
}
use certio.Text.{Text, text_eq, to_lower, cut}
use certio.Store.Models.{User, OAuthProvider}
use certio.Store.Exec.{
  Result, ok, err, oauth_denied, Exec, pure, fail, fail_if, try, ◌>>=◌, ◌>>◌, record_audit,
  oauth_linked, oauth_provisioned,
}
use certio.Store.Repos.OAuth.{is_not_found}
use certio.Store.Repos.Users
use certio.Store.Repos.Users.{canonical_email}
use certio.Service.Auth.Accounts.{default_role, default_name}
use certio.Service.OAuth.Provider.{OAuthProfile}

-- An empty list allows every address.
unfoldable pub check_oauth_domain : List Text → Text → Bool
unfolding cut to_lower text_eq
check_oauth_domain [] email = true
check_oauth_domain (d ∷ allowed) email =
    let (local_part, domain) = cut b'@' email in
    elim domain [ none ↦ false | some s ↦ any (text_eq (to_lower s)) (d ∷ allowed) ]

-- The address and the name follow the directory.
abbrev pub follows : User → OAuthProfile → User
follows u profile = record u {
  email = profile.email;
  name = if is_empty profile.name then u.name else profile.name;
}

abbrev pub has_moved : User → OAuthProfile → Bool
has_moved u profile =
    not (text_eq (to_lower u.email) (to_lower profile.email))
    || (not (is_empty profile.name) && not (text_eq u.name profile.name))

abbrev pub linked : OAuthProvider → OAuthProfile → User → User
linked p profile u = record u {
  oauth_provider = p.name;
  oauth_subject = profile.subject;
  name = if is_empty u.name && not (is_empty profile.name) then profile.name else u.name;
}

abbrev pub provisioned : String → OAuthProvider → OAuthProfile → User
provisioned new_id p profile = record {
  id = new_id;
  email = canonical_email profile.email;
  name = default_name profile.name profile.email;
  password_hash = [];
  role = default_role p.default_role;
  status = "active";
  last_login_at = none;
  oauth_provider = p.name;
  oauth_subject = profile.subject;
  totp_enabled = false;
  totp_secret = none;
  totp_enabled_at = none;
  totp_last_step = 0;
  recovery_codes = [];
}

unfoldable pub follow_oauth_user : OAuthProfile → User → Exec User
unfolding text_eq to_lower
follow_oauth_user profile u =
    let moved = (do Users.update (follows u profile); pure (follows u profile)) in
    if has_moved u profile then moved else pure u

abbrev pub is_taken : OAuthProfile → User → Bool
is_taken profile u = not (is_empty u.oauth_subject) && not (text_eq u.oauth_subject profile.subject)

unfoldable pub link_oauth_user : OAuthProvider → OAuthProfile → User → Exec User
unfolding text_eq fail_if
link_oauth_user p profile u = do
  fail_if (is_taken profile u) oauth_denied
  Users.update (linked p profile u)
  record_audit oauth_linked u.id
  pure (linked p profile u)

unfoldable pub provision_oauth_user : String → OAuthProvider → OAuthProfile → Exec User
provision_oauth_user new_id p profile = do
  Users.create (provisioned new_id p profile)
  record_audit oauth_provisioned new_id
  pure (provisioned new_id p profile)

-- What a look-up leads to: a row, or the absence of one; a query that fails is an error.
abbrev pub found_or : Result User → (User → Exec User) → Exec User → Exec User
found_or (ok u) there absent = there u
found_or (err e) there absent = if is_not_found e then absent else fail e

-- By the provider's own name for the person first, and by the address after that.
unfoldable pub resolve_oauth_user : String → OAuthProvider → OAuthProfile → Exec User
unfolding check_oauth_domain follow_oauth_user link_oauth_user provision_oauth_user fail_if
resolve_oauth_user new_id p profile =
    let provision = (do
      fail_if (not p.allow_signup) oauth_denied
      provision_oauth_user new_id p profile) in
    let by_email = (do
      fail_if (not profile.email_verified && not p.allow_unverified_email) oauth_denied
      existing ← try (Users.get_by_email profile.email)
      found_or existing (link_oauth_user p profile) provision) in
    do
      fail_if (not (check_oauth_domain p.allowed_domains profile.email)) oauth_denied
      user ← try (Users.get_by_oauth p.name profile.subject)
      found_or user (follow_oauth_user profile) by_email
