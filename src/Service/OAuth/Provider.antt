-- ===== src/Service/OAuth/Provider.antt =====
-- internal/service/oauth.go: what the identity provider is asked for, a token for a code and the profile
-- for a token. HTTP, JSON, the encodings of a query, SHA-256 and the keyring are the record `Idp`.
use certio.Prelude.{
  ℕ, Bool, true, not, ◌||◌, List, [], ◌∷◌, Option, none, some, if◌then◌else◌, is_empty, ◌==◌,
}
use certio.Text.{Text, txt, to_lower}
use certio.Store.Models.{OAuthProvider}
use certio.Store.Exec.{unusable, oauth_denied, Exec, pure, fail_if, ◌>>=◌, ◌>>◌}
use certio.Service.Loading.{or_fail}
use certio.Service.OAuth.Documents.{Fields, oauth_lookup, oauth_string, oauth_bool, Json}

-- What a provider told of the person who signs in.
pub record OAuthProfile : Type 0 where
  pub subject : Text
  pub email : Text
  pub name : Text
  pub email_verified : Bool

-- A form to post, with the name and the password of the client if they go into the header; or a
-- document to get, with a token.
pub data Request : Type 0 where
  post_form : Text → Text → Option (Text × Text) → Request
  get_document : Text → Text → Request

-- What the token endpoint answered: the two fields that are read.
pub record TokenAnswer : Type 0 where
  pub access_token : Text
  pub error : Text

-- `send` gives the status, which is 0 where there was no answer, and the body, if it was read.
pub record Idp : Type 1 where
  pub Number : Type 0
  pub send : Request → ℕ × Option Text
  pub encode_query : List (Text × Text) → Text
  pub escape : Text → Text
  pub challenge_of : Text → Text
  pub token_answer : Text → Option TokenAnswer
  pub document : Text → Option (Fields Number)
  pub format_number : Number → Text
  pub parse_bool : Text → Option Bool
  pub open_secret : Text → Option Text

module _ (idp : Idp) (redirect_uri : Text) where
  open idp use {
    Number, send, encode_query, escape, challenge_of, token_answer, document, format_number,
    parse_bool, open_secret,
  }

  abbrev token_of : ℕ → Option TokenAnswer → Option Text
  token_of status none = none
  token_of status (some answer) =
      if not (is_empty answer.error) || not (status == 200) || is_empty answer.access_token
      then none
      else some answer.access_token

  abbrev token_in : ℕ → Option Text → Option Text
  token_in status none = none
  token_in status (some body) = token_of status (token_answer body)

  -- The token, if one was given, and the status.
  unfoldable pub post_oauth_token :
      Text → List (Text × Text) → Option (Text × Text) → Option Text × ℕ
  post_oauth_token token_url form basic =
      let (status, body) = send (post_form token_url (encode_query form) basic) in
      (token_in status body, status)

  abbrev form_of : OAuthProvider → Text → Text → List (Text × Text)
  form_of p code verifier =
      (txt "grant_type", txt "authorization_code")
      ∷ (txt "code", code)
      ∷ (txt "redirect_uri", redirect_uri)
      ∷ (txt "client_id", p.client_id)
      ∷ (txt "code_verifier", verifier)
      ∷ []

  abbrev basic_of : Text → Text → Option (Text × Text)
  basic_of name password = if is_empty name then none else some (escape name, escape password)

  -- The secret goes into the form, and into the header where the provider answers 401 to that.
  unfoldable pub exchange_oauth_code : OAuthProvider → Text → Text → Text → Option Text
  unfolding post_oauth_token
  exchange_oauth_code p secret code verifier =
      let (token, status) =
        post_oauth_token p.token_url ((txt "client_secret", secret) ∷ form_of p code verifier)
          none in
      let (other, _) =
        post_oauth_token p.token_url (form_of p code verifier) (basic_of p.client_id secret) in
      elim token [ some t ↦ some t | none ↦ if status == 401 then other else none ]

  abbrev verified_of : Option (Json Number) → Bool
  verified_of none = true
  verified_of (some raw) = oauth_bool format_number parse_bool raw

  abbrev pub profile_of : OAuthProvider → Fields Number → OAuthProfile
  profile_of p fields = record {
    subject = oauth_string format_number parse_bool fields p.subject_field;
    email = to_lower (oauth_string format_number parse_bool fields p.email_field);
    name = oauth_string format_number parse_bool fields p.name_field;
    email_verified = verified_of (oauth_lookup fields (txt "email_verified"));
  }

  abbrev pub document_in : ℕ → Option Text → Option (Fields Number)
  document_in status none = none
  document_in status (some body) = if status == 200 then document body else none

  unfoldable pub fetch_oauth_profile : OAuthProvider → Text → Exec OAuthProfile
  unfolding oauth_string oauth_lookup oauth_bool to_lower fail_if
  fetch_oauth_profile p access_token = do
    let (status, body) = send (get_document p.user_info_url access_token)
    fields ← or_fail unusable (document_in status body)
    let profile = profile_of p fields
    fail_if (is_empty profile.subject) oauth_denied
    fail_if (is_empty profile.email) oauth_denied
    pure profile
