-- ===== src/Service/OAuth/Tests.antt =====
-- Sign-ins with an identity provider at concrete inputs.
use certio.Prelude.{
  ℕ, ◌≡◌, refl, true, false, List, [], ◌∷◌, Option, none, some, String, arith, if◌then◌else◌, ltb,
  ◌+◌,
}
use certio.Text.{txt, text_eq}
use certio.Store.Models.{User, OAuthProvider, OAuthStates}
use certio.Store.Exec.Triple.{Triple}
use certio.Store.Exec.{
  Result, ok, empty_world, ◌>>=◌, select_first, query, pure, write, write_if, record_audit, try,
  fail,
}
use certio.Store.Repos.OAuth
use certio.Store.Repos.Users
use certio.Service.Auth.{Jwt, Lifetimes, LoginResult, signed_in}
use certio.Service.OAuth.{log_in_with_oauth}
use certio.Service.OAuth.Provider.{Idp, post_form, get_document}
use certio.Service.OAuth.Resolution.{check_oauth_domain, provisioned}
use certio.Service.OAuth.Documents.{Fields, end, field, text, number, object, oauth_string}
use certio.Service.OAuth.Settings.{normalize_domains}
use certio.Service.OAuth.States.{issue, redeem, oauth_state_ttl}
use certio.Service.OAuth.States.Waiting.{Event, issuing, redeeming, run}
use certio.Service.OAuth.States.Once.{redeem_once}

-- What the provider tells of the person: a number for a subject, and a nested name.
abbrev fields : Fields ℕ
fields = field (txt "sub") (number 7) (
    field (txt "email") (text (txt " B@Corp.example ")) (
      field (txt "who") (object (field (txt "name") (text (txt "B")) end))
        (field (txt "email_verified") (text (txt "true")) end)))

abbrev pub idp : Idp
idp = record {
  Number = ℕ;
  send = λ request. elim request [
    | post_form url form basic ↦ (200, some (txt "token"))
    | get_document url token ↦ (200, some (txt "document"))
  ];
  encode_query = λ query. txt "query";
  escape = λ s. s;
  challenge_of = λ s. s;
  token_answer = λ body. some (record { access_token = txt "t"; error = [] });
  document = λ body. some fields;
  format_number = λ n. (b'0' + n) ∷ [];
  parse_bool = λ s. some (text_eq s (txt "true"));
  open_secret = λ sealed. some sealed;
}

abbrev provider : OAuthProvider
provider = record {
  id = "p";
  name = txt "corp";
  display_name = txt "Corp";
  client_id = txt "certio";
  client_secret = some (txt "secret");
  auth_url = txt "https://id/auth";
  token_url = txt "https://id/token";
  user_info_url = txt "https://id/me";
  scopes = txt "openid" ∷ [];
  subject_field = txt "sub";
  email_field = txt "email";
  name_field = txt "who.name";
  allowed_domains = txt "corp.example" ∷ [];
  allow_signup = true;
  allow_unverified_email = false;
  default_role = "viewer";
  enabled = true;
}

nested_name : oauth_string idp.format_number idp.parse_bool fields (txt "who.name") ≡ txt "B"
unfolding oauth_string
nested_name = refl

subject_number : oauth_string idp.format_number idp.parse_bool fields (txt "sub") ≡ txt "7"
unfolding oauth_string
subject_number = refl

other_domain : check_oauth_domain (txt "corp.example" ∷ []) (txt "b@corp.example.org") ≡ false
unfolding check_oauth_domain
other_domain = refl

normal_domains :
    normalize_domains (txt " @Corp.example" ∷ [] ∷ txt "b" ∷ txt "b" ∷ [])
    ≡ txt "corp.example" ∷ txt "b" ∷ []
unfolding normalize_domains
normal_domains = refl

abbrev states : OAuthStates
states = record {
  entries = record { state = "s"; verifier = txt "v"; expires_at = 600 } ∷ [];
  last_gc = 0;
}

abbrev pub jwt : Jwt
jwt = record { sign = λ claims. some (txt claims.typ); parse = λ now raw. none }

abbrev lifetimes : Lifetimes
lifetimes = record { access_ttl = 900; refresh_ttl = 3600; refresh_setting = 3600 }

-- The first sign-in of a person makes an account and opens its session.
abbrev opened : Result LoginResult → Option (User × String)
opened (ok (signed_in pair user used left)) = some (user, pair.session_id)
opened _ = none

first_sign_in :
    opened
      (log_in_with_oauth idp
        (txt "https://ca/oauth/callback")
        jwt
        lifetimes
        5
        "u"
        "f"
        (txt "code")
        "s"
        (record empty_world { oauth_providers = provider ∷ []; oauth_states = states })).0
    ≡ some (
      provisioned "u" provider (record {
        subject = txt "7";
        email = txt "b@corp.example";
        name = txt "B";
        email_verified = true;
      }),
      "f",
    )
unfolding log_in_with_oauth ◌>>=◌ OAuth.get Users.get_by_email Users.get_by_oauth Users.create
    Users.touch_login select_first query pure write write_if record_audit try fail
first_sign_in = refl

abbrev before : List (ℕ × Event)
before = (3, issuing (some "other") (some (txt "w"))) ∷ (4, redeeming "none") ∷ []

redeem_once_example :
    ((redeem "s" 5 (run before (issue (some "s") (some (txt "v")) 1 states).1)).0
      ≡ (if ltb (1 + oauth_state_ttl) 5 then none else some (txt "v")))
    × ((redeem "s" 6 (
          run
            ((5, redeeming "s") ∷ [])
            (redeem "s" 5 (run before (issue (some "s") (some (txt "v")) 1 states).1)).1)).0
        ≡ none)
redeem_once_example =
    redeem_once "s" (txt "v") 1 5 6 before ((5, redeeming "s") ∷ []) states (refl, tt) refl
      ((omega arith, refl), ((omega arith, refl), tt)) refl
