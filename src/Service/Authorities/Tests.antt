-- ===== src/Service/Authorities/Tests.antt =====
-- Authorities at concrete inputs.
use certio.Prelude.{ℕ, ◌≤◌, ◌<◌, arith, ◌≡◌, refl, true, false, [], ◌∷◌, Option, none, some}
use certio.Prelude.Attempts
use certio.Text.{txt}
use certio.Pki.Profile.{cert_sign}
use certio.Pki.Sign.{X509}
use certio.Store.Models.{Authority}
use certio.Store.Exec.{
  World, empty_world, ok, err, Result, ◌>>=◌, select_first, query, pure, write, record_audit, try,
  fail,
}
use certio.Store.Exec.Triple.{Triple, Anything}
use certio.Store.Repos.Authorities
use certio.Service.Issuance.{Provider}
use certio.Service.Issuance.Tests.{x509, provider, authority, parsers}
use certio.Service.Authorities.{RenewAuthorityInput}
use certio.Service.Authorities.Slugs.{slugify, unique_slug}
use certio.Service.Authorities.Slugs.Free.{Finds, unique_slug-Finds}
use certio.Service.Authorities.Slugs.Shape.{IsSlug, slugify-IsSlug}
use certio.Service.Authorities.Renewal.{renew_authority}
use certio.Service.Issuance.Lookups.{Names}
use certio.Service.Authorities.Renewal.Renewed.{
  Renewed, renew_authority_lem, renew_authority-root_expiry,
}

one_authority : 1 < 98
one_authority = omega arith

slug_of_name : slugify (txt "  Corp -- Root CA! ") ≡ txt "corp-root-ca"
unfolding slugify
slug_of_name = refl

slug_of_nothing : slugify (txt "--") ≡ txt "ca"
unfolding slugify
slug_of_nothing = refl

slugify-IsSlug_example : IsSlug (slugify (txt "  Corp -- Root CA! "))
slugify-IsSlug_example = slugify-IsSlug (txt "  Corp -- Root CA! ")

-- A certificate is its expiry, and may have authorities below it.
abbrev signers : X509
signers = record x509 {
  issuer_of = λ cert. record {
    not_before = 0;
    not_after = cert;
    is_ca = true;
    key_usage = cert_sign ∷ [];
    max_path_len_zero = false;
  };
}

abbrev keyring : Provider
keyring = record provider { x509 = signers }

abbrev days : ℕ → RenewAuthorityInput
days n = record { validity_days = n; rekey = false; passphrase = []; parent_passphrase = [] }

abbrev world : World
world = record empty_world { authorities = authority ∷ [] }

abbrev expiry : Result Authority → Option ℕ
expiry (ok row) = some row.not_after
expiry (err e) = none

-- A root may be renewed for a shorter time than it has, and for no longer one.
shorter :
    expiry (renew_authority keyring parsers 1000 (some 7 ∷ []) "ca" (days 10) world).0 ≡ some 864700
unfolding renew_authority ◌>>=◌ Authorities.resolve Authorities.chain Authorities.update
    select_first query pure write record_audit try Attempts.◌>>=◌ Attempts.require
shorter = refl

longer :
    expiry (renew_authority keyring parsers 1000 (some 7 ∷ []) "root" (days 2000) world).0 ≡ none
unfolding renew_authority ◌>>=◌ Authorities.resolve Authorities.chain Authorities.update
    select_first query pure write record_audit try fail Attempts.◌>>=◌ Attempts.require
longer = refl

renew_authority_lem_example :
    Triple Anything
      (λ w. w.authorities ≡ authority ∷ [])
      (renew_authority keyring parsers 1000 (some 7 ∷ []) "ca" (days 10))
      (Renewed keyring parsers 1000 (authority ∷ []) "ca")
renew_authority_lem_example =
    renew_authority_lem keyring parsers 1000 (some 7 ∷ []) (authority ∷ []) "ca" (days 10)

renew_authority-root_expiry_example :
    Triple Anything
      (λ w. w.authorities ≡ authority ∷ [])
      (renew_authority keyring parsers 1000 (some 7 ∷ []) "ca" (days 10))
      (λ row w.
        (old : Authority) × (own : ℕ) × Names (authority ∷ []) "ca" old
        × (◌≡◌ {A = Option ℕ} (some 100000000) (some own))
        × (old.type ≡ "root" → row.not_after ≤ own))
renew_authority-root_expiry_example =
    renew_authority-root_expiry keyring parsers 1000 (λ t signer key signer_key c e. cc)
      (some 7 ∷ []) (authority ∷ []) "ca" (days 10)

unique_slug-Finds_example :
    Finds
      (slugify (txt "Root CA"))
      (record empty_world { authorities = authority ∷ [] })
      (unique_slug (txt "Root CA") (record empty_world { authorities = authority ∷ [] })).0
unique_slug-Finds_example =
    unique_slug-Finds (txt "Root CA") (record empty_world { authorities = authority ∷ [] }) refl
      one_authority
