-- ===== src/Service/Authorities/Renewal/Renewed.antt =====
-- internal/service/authority.go: what a renewal of an authority that returns has signed and written.
use certio.Prelude.{
  ℕ, ◌≤◌, ◌≡◌, refl, sym, subst, inl, inr, List, Option, some, String, eq_iff, arith,
}
use certio.Pki.San.{Parsers}
use certio.Pki.Sign.{Template}
use certio.Store.{find, find-save}
use certio.Store.Models.{Authority, active}
use certio.Store.Exec.{World, pure, record_audit, ca_renew, ◌>>=◌}
use certio.Store.Exec.Triple.{
  Anything, Pred, IsStable, Triple, Triple-pure, Triple-fail_if, Triple-bind, Triple-of,
  Triple-fact, Triple-weaken, Triple-write, Triple-record_audit,
}
use certio.Store.Repos.{authority_key}
use certio.Store.Repos.Authorities
use certio.Service.Auth.Factor.{Triple-anything}
use certio.Service.Issuance.{Provider}
use certio.Service.Authorities.{RenewAuthorityInput}
use certio.Service.Issuance.Lookups.{Names, Triple-resolve, Triple-load_ca}
use certio.Service.Authorities.Renewal.Signing.{SignedBy, Signs, Triple-sign}
use certio.Service.Authorities.Renewal.{days_of, renewed_row, renew_authority}

module _ (provider : Provider) (parsers : Parsers) (now : ℕ) where
  open provider use {x509, columns_of, parse_certificate}
  open x509 use {Cert, PrivateKey, public, is_url, issuer_of, create_certificate}

  -- The old row, its certificate, that of the signer, and the new one.
  pub record Renewed (rows : List Authority) (id : String) (row : Authority) (w : World)
      : Type 0 where
    pub old : Authority
    pub own : Cert
    pub signer : Cert
    pub certificate : Cert
    pub named : Names rows id old
    pub parsed : parse_certificate old.cert_pem ≡ some own
    pub right : Signs provider parsers now rows old own signer
    pub signs : SignedBy provider parsers now signer certificate
    pub written : row ≡ record old {
      cert_pem = (columns_of certificate).pem;
      serial_number = (columns_of certificate).serial_number;
      not_before = (columns_of certificate).not_before;
      not_after = (columns_of certificate).not_after;
      fingerprint = (columns_of certificate).fingerprint;
      status = active;
    }
    pub stored : find authority_key row.id w.authorities ≡ some row

  module _ (draws : List (Option ℕ)) where
    abbrev Stored : Authority → Pred
    Stored row w = find authority_key row.id w.authorities ≡ some row

    stored-IsStable : (row : Authority) → IsStable (Stored row)
    stored-IsStable row = record { faults = λ w fs h. h; audit = λ w log h. h }

    Triple-update :
        (row : Authority) → Triple Anything Anything (Authorities.update row) (λ _. Stored row)
    unfolding Authorities.update
    Triple-update row =
        Triple-write (record { faults = λ w fs h. h; audit = λ w log h. h }) (λ w h. tt) _
          λ w h.
            ground (arith, find-save authority_key row w.authorities row.id, eq_iff row.id row.id)

    -- The row stays there until it is returned.
    Triple-recorded :
        (row : Authority)
        → Triple Anything Anything
            (Authorities.update row >>= λ _. record_audit ca_renew row.id >>= λ _. pure row)
            (λ r w. (r ≡ row) × (find authority_key r.id w.authorities ≡ some r))
    Triple-recorded row = Triple-bind (Triple-update row) λ _.
        Triple-bind (Triple-record_audit (stored-IsStable row) _ _)
          λ _. Triple-pure row (λ w h. (refl, h))

    abbrev Signed : List Authority → Authority → Cert → Cert → Type 0
    Signed rows old own certificate =
        (signer : Cert) × Signs provider parsers now rows old own signer
        × SignedBy provider parsers now signer certificate

    -- A renewal that returns was of the authority that the identifier or the slug names. A root signs
    -- with the certificate that it has, and any other with the certificate of its parent, which is
    -- there. The template of the new certificate is one of an authority and lies within what the
    -- signer may sign: it does not expire after the signer, which is in force and may have an
    -- authority below it. It limits neither the length of a path nor the names, whatever limits the
    -- row has. The new row is the old one with the PEM, the serial number, the dates and the
    -- fingerprint of the new certificate, is active, keeps all else, also the limits, and is in the
    -- table.
    pub renew_authority_lem :
        (rows : List Authority) (id : String) (input : RenewAuthorityInput)
        → Triple Anything
            (λ w. w.authorities ≡ rows)
            (renew_authority provider parsers now draws id input)
            (Renewed rows id)
    unfolding renew_authority
    renew_authority_lem rows id input =
        Triple-bind (Triple-anything (λ a w h. h) (Triple-resolve rows id)) λ old.
          Triple-fact {F = Names rows id old} (λ w h. h.1)
            λ named. Triple-bind (Triple-fail_if _ _ (λ w h. tt)) λ _.
              Triple-bind
                (Triple-of (λ w h. h.0.0) (Triple-load_ca provider rows old input.passphrase))
                λ (own, key).
                  Triple-fact {F = parse_certificate old.cert_pem ≡ some own} (λ w h. h.1)
                    λ parsed.
                      Triple-of (λ w h. h.0)
                        (Triple-bind
                          (Triple-sign provider parsers now rows draws old input.parent_passphrase
                            own key (days_of provider parsers now draws input.validity_days old))
                          λ certificate.
                            Triple-fact {F = Signed rows old own certificate} (λ w h. h)
                              λ (signer, right, signs).
                                Triple-of (λ w h. tt)
                                  (Triple-weaken
                                    (λ row w (written, stored). record {
                                      old = old;
                                      own = own;
                                      signer = signer;
                                      certificate = certificate;
                                      named = named;
                                      parsed = parsed;
                                      right = right;
                                      signs = signs;
                                      written = written;
                                      stored = stored;
                                    })
                                    (Triple-recorded
                                      (renewed_row provider parsers now draws certificate old))))

  -- What a root signs itself does not outlive it.
  outlived :
      ((t : Template) (signer : Cert) (key : x509.PublicKey) (signer_key : PrivateKey) (c : Cert)
        → create_certificate t signer key signer_key ≡ some c
        → (columns_of c).not_after ≡ t.not_after)
      → (signer own renewed : Cert) → signer ≡ own
      → SignedBy provider parsers now signer renewed
      → (columns_of renewed).not_after ≤ (issuer_of own).not_after
  outlived copies signer own renewed same signs =
      let bound = signs.within.expires in
      let dates = copies signs.template signer signs.key signs.signer_key renewed signs.signed in
      subst (λ c. (columns_of renewed).not_after ≤ (issuer_of c).not_after) same
        (omega (arith, dates, bound))

  of_root :
      (rows : List Authority) (row : Authority) (own signer : Cert)
      → Signs provider parsers now rows row own signer
      → row.type ≡ "root"
      → signer ≡ own
  of_root rows row own signer (inl (root, same)) is = same
  of_root rows row own signer (inr (other, parent)) is = absurd (other is)

  -- Where a certificate that crypto/x509 makes has the expiry of its template: a root that was renewed
  -- does not expire later than the certificate that it had.
  pub renew_authority-root_expiry :
      ((t : Template) (signer : Cert) (key : x509.PublicKey) (signer_key : PrivateKey) (c : Cert)
        → create_certificate t signer key signer_key ≡ some c
        → (columns_of c).not_after ≡ t.not_after)
      → (draws : List (Option ℕ)) (rows : List Authority) (id : String)
        (input : RenewAuthorityInput)
      → Triple Anything
          (λ w. w.authorities ≡ rows)
          (renew_authority provider parsers now draws id input)
          (λ row w.
            (old : Authority) × (own : Cert) × Names rows id old
            × (parse_certificate old.cert_pem ≡ some own)
            × (old.type ≡ "root" → row.not_after ≤ (issuer_of own).not_after))
  renew_authority-root_expiry copies draws rows id input =
      Triple-weaken
        (λ row w r. (
          r.old,
          r.own,
          r.named,
          r.parsed,
          λ root.
              subst (λ x. x.not_after ≤ (issuer_of r.own).not_after) (sym r.written)
                (outlived copies r.signer r.own r.certificate
                  (of_root rows r.old r.own r.signer r.right root) r.signs),
        ))
        (renew_authority_lem draws rows id input)
