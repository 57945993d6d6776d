-- ===== src/Service/Authorities/Renewal/Signing.antt =====
-- internal/service/authority.go: who signs the certificate of an authority that is renewed.
use certio.Prelude.{
  ℕ, ◌≡◌, ◌≢◌, refl, ◌∙◌, ◌⊎◌, inl, inr, true, List, Option, none, some, String, str_eq, eq_iff,
  arith, if◌then◌else◌,
}
use certio.Prelude.Attempts.{bind-elim}
use certio.Text.{Text, txt}
use certio.Pki.San.{Parsers}
use certio.Pki.Profile.{Profile, lookup_profile}
use certio.Pki.Sign.{Template, sign_public_key, template_of}
use certio.Pki.Sign.Within.{IsWithin, template_of-IsWithin, template_of-is_ca}
use certio.Store.{find}
use certio.Store.Models.{Authority}
use certio.Store.Exec.Triple.{
  Anything, Triple, Triple-fail, Triple-bind, Triple-if, Triple-of, Triple-fact, Triple-weaken,
}
use certio.Store.Repos.{authority_key}
use certio.Service.Crl.Steps.{Triple-or_fail}
use certio.Service.Issuance.{Provider}
use certio.Service.Authorities.Renewal.{renewal_of, sign_again, sign_by_parent}
use certio.Service.Issuance.Lookups.{Table, Triple-get, Triple-load_ca}

module _ (provider : Provider) (parsers : Parsers) (now : ℕ) where
  open provider use {x509, columns_of, parse_certificate}
  open x509 use {Cert, PrivateKey, public, is_url, issuer_of, create_certificate}

  -- The certificate is signed by the signer, from a template for an authority that is within what the
  -- signer may sign.
  pub record SignedBy (signer : Cert) (renewed : Cert) : Type 0 where
    pub signer_key : PrivateKey
    pub key : x509.PublicKey
    pub template : Template
    pub within : IsWithin parsers is_url now (issuer_of signer) template
    pub authority : template.is_ca ≡ true
    pub signed : create_certificate template signer key signer_key ≡ some renewed

  -- The signer is the certificate of the parent of the row.
  pub record IsParent (rows : List Authority) (row : Authority) (signer : Cert) : Type 0 where
    pub parent_id : String
    pub parent : Authority
    pub recorded : row.parent_id ≡ some parent_id
    pub there : find authority_key parent_id rows ≡ some parent
    pub parsed : parse_certificate parent.cert_pem ≡ some signer

  -- A root signs itself, and an intermediate is signed by its parent.
  abbrev pub Signs : List Authority → Authority → Cert → Cert → Type 0
  Signs rows row own signer =
      ((row.type ≡ "root") × (signer ≡ own)) ⊎ ((row.type ≢ "root") × IsParent rows row signer)

  module _ (rows : List Authority) where
    module _ (draws : List (Option ℕ)) where
      Triple-sign_again :
          (profile : Text) (p : Profile) (signer : Cert) (signer_key : PrivateKey) (cert : Cert)
          (key : PrivateKey) (days : ℕ)
          → lookup_profile profile ≡ some p
          → p.is_ca ≡ true
          → Triple Anything
              (Table rows)
              (sign_again provider parsers now draws profile signer signer_key cert key days)
              (λ renewed w. Table rows w × SignedBy signer renewed)
      unfolding sign_public_key
      Triple-sign_again profile p signer signer_key cert key days named ca =
          let req = renewal_of provider parsers now draws profile cert days in
          Triple-weaken
            (λ renewed w h. (
              h.0,
              bind-elim (template_of parsers is_url now draws (issuer_of signer) req) _ h.1
                  λ t made signed. record {
                    signer_key = signer_key;
                    key = public key;
                    template = t;
                    within =
                        template_of-IsWithin parsers is_url now draws (issuer_of signer) req t made;
                    authority =
                        template_of-is_ca parsers is_url now draws (issuer_of signer) req t p made
                          named
                        ∙ ca;
                    signed = signed;
                  },
            ))
            (Triple-or_fail _ _)

      Triple-sign_by_parent :
          (row : Authority) (parent_id : Option String) (passphrase : Text) (cert : Cert)
          (key : PrivateKey) (days : ℕ)
          → row.parent_id ≡ parent_id
          → Triple Anything
              (Table rows)
              (sign_by_parent provider parsers now draws parent_id passphrase cert key days)
              (λ renewed w. (signer : Cert) × IsParent rows row signer × SignedBy signer renewed)
      unfolding lookup_profile
      Triple-sign_by_parent row none passphrase cert key days e = Triple-fail _ (λ w h. tt)
      Triple-sign_by_parent row (some parent_id) passphrase cert key days e =
          Triple-bind (Triple-get rows parent_id) λ parent.
            Triple-fact {F = find authority_key parent_id rows ≡ some parent} (λ w h. h.1)
              λ there.
                Triple-of (λ w h. h.0)
                  (Triple-bind (Triple-load_ca provider rows parent passphrase)
                    λ (signer, signer_key).
                      Triple-fact {F = parse_certificate parent.cert_pem ≡ some signer} (λ w h. h.1)
                        λ parsed.
                          Triple-of (λ w h. h.0)
                            (Triple-weaken
                              (λ renewed w h. (
                                signer,
                                record {
                                  parent_id = parent_id;
                                  parent = parent;
                                  recorded = e;
                                  there = there;
                                  parsed = parsed;
                                },
                                h.1,
                              ))
                              (Triple-sign_again (txt "intermediate") _ signer signer_key cert key
                                days refl refl)))

      pub Triple-sign :
          (row : Authority) (passphrase : Text) (cert : Cert) (key : PrivateKey) (days : ℕ)
          → Triple Anything
              (Table rows)
              (if str_eq row.type "root"
                then sign_again provider parsers now draws (txt "root") cert key cert key days
                else sign_by_parent provider parsers now draws row.parent_id passphrase cert key
                    days)
              (λ renewed _. (signer : Cert) × Signs rows row cert signer × SignedBy signer renewed)
      unfolding lookup_profile
      Triple-sign row passphrase cert key days =
          Triple-if (str_eq row.type "root") _ _
            (λ root.
              Triple-weaken
                (λ renewed w h. (cert, inl (ground (arith, eq_iff row.type "root"), refl), h.1))
                (Triple-sign_again (txt "root") _ cert key cert key days refl refl))
            (λ other.
              Triple-weaken
                (λ renewed w (signer, parent, h).
                  (signer, inr ((λ same. ground (arith, eq_iff row.type "root")), parent), h))
                (Triple-sign_by_parent row row.parent_id passphrase cert key days refl))
