-- ===== src/Service/Issuance/Issued.antt =====
-- internal/service/certificate.go: what an issuance that returns has checked and written.
use certio.Prelude.{
  any-first_of, ℕ, ◌≡◌, refl, sym, subst, false, ◌&&◌, List, Option, none, some, String, str_eq,
  eq_iff, arith,
}
use certio.Prelude.Attempts.{bind-elim}
use certio.Text.{Text, txt}
use certio.Pki.San.{Parsers}
use certio.Pki.Constraints.{Networks}
use certio.Pki.Sign.{Template, sign_public_key, template_of, IssueRequest}
use certio.Pki.Sign.Within.{IsWithin, template_of-IsWithin}
use certio.Store.{find, has_key, find-append}
use certio.Store.Models.{Authority, Certificate, active}
use certio.Store.Exec.{World, pure, unusable, record_audit, cert_issue, ◌>>=◌, ◌>>◌}
use certio.Store.Exec.Triple.{
  Anything, Triple-known, Triple, Triple-pure, Triple-fail_if, Triple-bind, Triple-of, Triple-fact,
  Triple-weaken, Triple-write_if, Triple-record_audit,
}
use certio.Store.Repos.{certificate_key}
use certio.Store.Repos.Certificates
use certio.Service.Loading.{or_fail}
use certio.Service.Crl.Steps.{Triple-or_fail}
use certio.Service.Issue.{
  default_text, check_name_constraints, persist_certificate, certificate_row,
}
use certio.Service.Auth.Factor.{Triple-anything}
use certio.Service.Issuance.Lookups.{Names, Opens, Triple-resolve, Triple-load_ca}
use certio.Service.Issuance.{
  Provider, Defaults, Order, infer_profile, apply_subject_defaults, issue, request_of,
}

module _ (provider : Provider) (networks : Networks) (parsers : Parsers) (now : ℕ) where
  open provider use {x509, columns_of, usages_of, marshal_key, parse_certificate}
  open x509 use {PublicKey, PrivateKey, public, is_url, issuer_of, create_certificate}

  -- The template behind a certificate that was signed.
  signed_of :
      {F : Type 0} (draws : List (Option ℕ)) (ca : x509.Cert) (ca_key : PrivateKey)
      (key : PublicKey) (req : IssueRequest) (cert : x509.Cert)
      → sign_public_key x509 parsers now draws ca ca_key key req ≡ some cert
      → ((t : Template)
          → template_of parsers is_url now draws (issuer_of ca) req ≡ some t
          → IsWithin parsers is_url now (issuer_of ca) t
          → create_certificate t ca key ca_key ≡ some cert
          → F)
      → F
  unfolding sign_public_key
  signed_of draws ca ca_key key req cert e k =
      bind-elim (template_of parsers is_url now draws (issuer_of ca) req) _ e λ t made signed.
        k t made (template_of-IsWithin parsers is_url now draws (issuer_of ca) req t made) signed

  -- The row that was written is there.
  Triple-create :
      (row : Certificate)
      → Triple Anything Anything
          (Certificates.create row)
          (λ _ w. find certificate_key row.id w.certificates ≡ some row)
  unfolding Certificates.create
  Triple-create row =
      Triple-write_if (record { faults = λ w fs h. h; audit = λ w log h. h }) (λ w h. tt) _ _ _
        λ w new h. ground (
          arith,
          find-append certificate_key row w.certificates row.id,
          any-first_of (has_key certificate_key row.id)
              (λ r.
                str_eq r.authority_id row.authority_id && str_eq r.serial_number row.serial_number)
              w.certificates,
          eq_iff row.id row.id,
        )

  -- The row stays there until it is returned.
  Triple-recorded :
      (row : Certificate) (marshalled : Option Text)
      → Triple Anything Anything
          ((Certificates.create row >> pure row) >>= λ r.
            or_fail unusable marshalled >>= λ _. record_audit cert_issue r.id >>= λ _. pure r)
          (λ r w. (r ≡ row) × (find certificate_key row.id w.certificates ≡ some row))
  Triple-recorded row marshalled =
      Triple-bind {Q = λ r w. (r ≡ row) × (find certificate_key row.id w.certificates ≡ some row)}
        (Triple-bind (Triple-create row) λ _. Triple-pure row (λ w h. (refl, h)))
        λ r. Triple-bind (Triple-or_fail _ _) λ _.
          Triple-bind
            (Triple-record_audit (record { faults = λ w fs h. h; audit = λ w log h. h }) _ _)
            λ _. Triple-pure r (λ w h. h.0)

  module _ (defaults : Defaults) (draws : List (Option ℕ)) where
    -- What the certificate is asked for with: the names and the subject of the order.
    abbrev pub asked_of : Authority → Order → IssueRequest
    asked_of ca order =
        request_of provider networks parsers defaults now draws ca
          (default_text order.input.profile (txt "server"))
          (apply_subject_defaults defaults order.subject) order

    -- The authority that the order names, its certificate and its key, and what was asked for: within
    -- what the authority may sign, signed with its certificate and its key, for names that its
    -- constraints permit, and written as the active row of its own identifier.
    pub record Issued (rows : List Authority) (order : Order) (row : Certificate) (w : World)
        : Type 0 where
      pub ca : Authority
      pub issuer : x509.Cert
      pub ca_key : PrivateKey
      pub key : PublicKey
      pub template : Template
      pub certificate : x509.Cert
      pub named : Names rows order.authority_id ca
      pub parsed : parse_certificate ca.cert_pem ≡ some issuer
      pub opened : Opens provider rows ca.key order.ca_passphrase ca_key
      pub asked :
          template_of parsers is_url now draws (issuer_of issuer) (asked_of ca order)
          ≡ some template
      pub within : IsWithin parsers is_url now (issuer_of issuer) template
      pub signed : create_certificate template issuer key ca_key ≡ some certificate
      pub permitted :
          check_name_constraints networks ca.name_constraints
            (apply_subject_defaults defaults order.subject).common_name
            order.sans
          ≡ false
      pub authority : row.authority_id ≡ ca.id
      pub dates : row.not_after ≡ (columns_of certificate).not_after
      pub pem : row.cert_pem ≡ (columns_of certificate).pem
      pub begins_active : row.status ≡ active
      pub stored : find certificate_key row.id w.certificates ≡ some row

    -- An issuance that returns was asked of the authority that the identifier or the slug of the order
    -- names, whose name constraints permit the names of the order. The certificate was signed with the
    -- authority's certificate and its key, which the passphrase opens, from the template of the order.
    -- That lies within what the authority may sign: the authority is in force, is a CA and may have a
    -- CA below it if one is asked for, and the template has a serial number that is not 0, does not
    -- expire after the authority, and has valid names if it is a leaf. The row is active, has the
    -- certificate with its expiry and the authority's id, and is in the table, whatever queries the
    -- driver fails.
    pub issue_lem :
        (rows : List Authority) (new_id : String) (order : Order)
        → Triple Anything
            (λ w. w.authorities ≡ rows)
            (issue provider networks parsers defaults now draws new_id order)
            (Issued rows order)
    unfolding issue persist_certificate
    issue_lem rows new_id order =
        Triple-bind (Triple-anything (λ a w h. h) (Triple-resolve rows order.authority_id)) λ ca.
          Triple-fact {F = Names rows order.authority_id ca} (λ w h. h.1)
            λ named.
              Triple-bind
                (Triple-of (λ w h. h.0) (Triple-load_ca provider rows ca order.ca_passphrase))
                λ (issuer, ca_key).
                  Triple-fact
                    {F = (parse_certificate ca.cert_pem ≡ some issuer)
                      × Opens provider rows ca.key order.ca_passphrase ca_key}
                    (λ w h. (h.1, h.2))
                    λ (parsed, opened).
                      Triple-of {P = Anything} (λ w h. tt)
                        (Triple-bind (Triple-or_fail _ _) λ spec.
                          Triple-bind (Triple-or_fail _ _) λ profile.
                            Triple-bind (Triple-fail_if _ _ (λ w h. tt)) λ _.
                              Triple-bind (Triple-fail_if _ _ (λ w h. tt)) λ _.
                                Triple-bind (Triple-or_fail _ _) λ key.
                                  Triple-bind (Triple-or_fail _ _) λ cert.
                                    Triple-fact (λ w h. (h.0.0.1, h.1))
                                      λ (permitted, signed).
                                        signed_of draws issuer ca_key (public key)
                                          (asked_of ca order) cert signed
                                          λ template asked within made.
                                            Triple-of (λ w h. tt)
                                              (Triple-bind (Triple-known Unit _) λ _.
                                                Triple-bind (Triple-known Unit _) λ sealed.
                                                  Triple-weaken
                                                    (λ row w (same, stored).
                                                      subst (λ r. Issued rows order r w) (sym same)
                                                        (record {
                                                          ca = ca;
                                                          issuer = issuer;
                                                          ca_key = ca_key;
                                                          key = public key;
                                                          template = template;
                                                          certificate = cert;
                                                          named = named;
                                                          parsed = parsed;
                                                          opened = opened;
                                                          asked = asked;
                                                          within = within;
                                                          signed = made;
                                                          permitted = permitted;
                                                          authority = refl;
                                                          dates = refl;
                                                          pem = refl;
                                                          begins_active = refl;
                                                          stored = stored;
                                                        }))
                                                    (Triple-recorded
                                                      (certificate_row new_id ca.id
                                                        (infer_profile (usages_of cert))
                                                        (columns_of cert) (some sealed) order.input
                                                        none)
                                                      (marshal_key key))))
