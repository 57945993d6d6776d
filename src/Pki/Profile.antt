-- ===== src/Pki/Profile.antt =====
-- internal/pki/profile.go: what a profile presets, and the names of usages. A bitmask of usages is the
-- list of its bits, where an empty list is 0.

use certio.Prelude.{
  ℕ, Bool, true, false, not, ◌||◌, List, [], ◌∷◌, Option, none, some, String, if◌then◌else◌, ◌==◌,
  keep,
}
use certio.Prelude.Attempts.{◌>>=◌}
use certio.Text.{Text, txt, text_eq, trim_space, to_lower}

pub data KeyUsage : Type 0 where
  digital_signature content_commitment key_encipherment data_encipherment key_agreement : KeyUsage
  cert_sign crl_sign encipher_only decipher_only : KeyUsage

pub data ExtKeyUsage : Type 0 where
  any_usage server_auth client_auth code_signing email_protection : ExtKeyUsage
  ipsec_end_system ipsec_tunnel ipsec_user time_stamping ocsp_signing : ExtKeyUsage

pub record Profile : Type 0 where
  pub key_usage : List KeyUsage
  pub ext_key_usage : List ExtKeyUsage
  pub validity_days : ℕ
  pub is_ca : Bool

abbrev pub max_leaf_validity_days : ℕ
max_leaf_validity_days = 397

abbrev leaf : List KeyUsage → List ExtKeyUsage → ℕ → Profile
leaf usages ext days = record {
  key_usage = usages;
  ext_key_usage = ext;
  validity_days = days;
  is_ca = false;
}

abbrev authority : ℕ → Profile
authority days = record {
  key_usage = cert_sign ∷ crl_sign ∷ digital_signature ∷ [];
  ext_key_usage = [];
  validity_days = days;
  is_ca = true;
}

-- `profiles`
abbrev pub profiles : List (String × Profile)
profiles =
    (
      "server",
      leaf (digital_signature ∷ key_encipherment ∷ []) (server_auth ∷ []) max_leaf_validity_days,
    )
    ∷ ("client", leaf (digital_signature ∷ []) (client_auth ∷ []) max_leaf_validity_days)
    ∷ (
      "peer",
      leaf (digital_signature ∷ key_encipherment ∷ []) (server_auth ∷ client_auth ∷ [])
          max_leaf_validity_days,
    )
    ∷ ("code-signing", leaf (digital_signature ∷ []) (code_signing ∷ []) 1095)
    ∷ ("intermediate", authority 1825)
    ∷ ("root", authority 3650)
    ∷ []

module _ {A : Type 0} where
  -- A map from names.
  unfoldable pub lookup : List (String × A) → Text → Option A
  unfolding text_eq
  lookup [] name = none
  lookup ((key, value) ∷ entries) name =
      let rest = lookup entries name in if text_eq name (txt key) then some value else rest

unfoldable pub lookup_profile : Text → Option Profile
unfolding lookup trim_space to_lower
lookup_profile name = lookup profiles (to_lower (trim_space name))

abbrev is_separator : ℕ → Bool
is_separator c = c == b' ' || c == b'-' || c == b'_'

unfoldable pub normalize_usage : Text → Text
unfolding trim_space to_lower
normalize_usage s = to_lower (keep (λ c. not (is_separator c)) (trim_space s))

abbrev pub key_usages : List (String × KeyUsage)
key_usages =
    ("digitalsignature", digital_signature)
    ∷ ("contentcommitment", content_commitment)
    ∷ ("nonrepudiation", content_commitment)
    ∷ ("keyencipherment", key_encipherment)
    ∷ ("dataencipherment", data_encipherment)
    ∷ ("keyagreement", key_agreement)
    ∷ ("certsign", cert_sign)
    ∷ ("keycertsign", cert_sign)
    ∷ ("crlsign", crl_sign)
    ∷ ("encipheronly", encipher_only)
    ∷ ("decipheronly", decipher_only)
    ∷ []

abbrev pub ext_key_usages : List (String × ExtKeyUsage)
ext_key_usages =
    ("any", any_usage)
    ∷ ("serverauth", server_auth)
    ∷ ("clientauth", client_auth)
    ∷ ("codesigning", code_signing)
    ∷ ("emailprotection", email_protection)
    ∷ ("ipsecendsystem", ipsec_end_system)
    ∷ ("ipsectunnel", ipsec_tunnel)
    ∷ ("ipsecuser", ipsec_user)
    ∷ ("timestamping", time_stamping)
    ∷ ("ocspsigning", ocsp_signing)
    ∷ []

module _ {A : Type 0} (table : List (String × A)) where
  -- The loops of `ParseKeyUsages` and `ParseExtKeyUsages`.
  unfoldable pub parse_each : List Text → Option (List A)
  unfolding lookup normalize_usage
  parse_each [] = some []
  parse_each (name ∷ names) = lookup table (normalize_usage name) >>= λ usage.
      parse_each names >>= λ usages. some (usage ∷ usages)

unfoldable pub parse_key_usages : List Text → Option (List KeyUsage)
unfolding parse_each
parse_key_usages names = parse_each key_usages names

unfoldable pub parse_ext_key_usages : List Text → Option (List ExtKeyUsage)
unfolding parse_each
parse_ext_key_usages names = parse_each ext_key_usages names
