-- ===== src/Service/Issuance/Renewal/Linked.antt =====
-- internal/service/certificate.go: what a renewal that returns leaves.
use certio.Prelude.{
  ℕ, ◌≡◌, refl, sym, subst, Bool, true, false, List, [], ◌∷◌, Option, none, some, String,
}
use certio.Text.{Text}
use certio.Pki.San.{Parsers}
use certio.Pki.Keys.{KeySpec, parse_key_spec}
use certio.Store.{find}
use certio.Store.Models.{Certificate, active}
use certio.Store.Exec.{Exec, pure, try, unusable, validation, record_audit, cert_renew, ◌>>=◌, ◌>>◌}
use certio.Store.Exec.Triple.{
  Anything, Triple, Triple-pure, Triple-fail_if, Triple-bind, Triple-of, Triple-fact, Triple-weaken,
}
use certio.Store.Exec.Quiet.{
  On, IsQuiet, record_audit-IsQuiet, pure-IsQuiet, bind-IsQuiet, try-IsQuiet, Triple-IsQuiet,
}
use certio.Store.Repos.{certificate_key, is_revoked}
use certio.Store.Repos.Certificates
use certio.Service.Loading.{or_fail}
use certio.Service.Issue.{certificate_row, persist_certificate}
use certio.Service.Issuance.{Provider, infer_profile}
use certio.Service.Issuance.Renewal.{
  RenewInput, input_of, stop_renewing, old_key, wanted_spec, new_key, renew,
}
use certio.Service.Issuance.Renewal.Quiet.{
  or_fail-IsQuiet, open_sealed_key-IsQuiet, load_ca-IsQuiet,
}
use certio.Service.Issuance.Renewal.Rows.{
  Reads, Follows, Beside, Triple-create, Triple-stop_renewing, Triple-with_authority,
}

-- The new row is linked to the old one, which was not revoked, and takes over its renewal.
abbrev pub Renewed : Bool → Option Certificate → Certificate → List Certificate → Type 0
Renewed calm none row rows = ⊥
Renewed calm (some current) row rows =
    (is_revoked current.status ≡ false)
    × (row.renewed_from_id ≡ some current.id)
    × (row.auto_renew ≡ current.auto_renew)
    × (row.status ≡ active)
    × Follows calm current row rows

module _ (provider : Provider) where
  open provider use {
    x509, columns_of, usages_of, spec_of, generate_key, seal_key, marshal_key, parse_certificate,
  }
  open x509 use {PrivateKey, public}

  old_key-IsQuiet :
      (rekey : Bool) (current : Certificate) → IsQuiet (old_key provider rekey current)
  old_key-IsQuiet true current = pure-IsQuiet none
  old_key-IsQuiet false current =
      bind-IsQuiet (open_sealed_key-IsQuiet provider current.key []) λ key. pure-IsQuiet _

  wanted_spec-IsQuiet :
      (rekey : Bool) (algorithm : Text) → IsQuiet (wanted_spec provider rekey algorithm)
  wanted_spec-IsQuiet false algorithm = pure-IsQuiet none
  wanted_spec-IsQuiet true [] = pure-IsQuiet none
  wanted_spec-IsQuiet true (c ∷ algorithm) =
      bind-IsQuiet (or_fail-IsQuiet validation (parse_key_spec (c ∷ algorithm)))
        λ spec. pure-IsQuiet _

  new_key-IsQuiet :
      (kept : Option PrivateKey) (spec : Option KeySpec) (cert : x509.Cert)
      → IsQuiet (new_key provider kept spec cert)
  new_key-IsQuiet (some key) spec cert = pure-IsQuiet key
  new_key-IsQuiet none (some spec) cert = or_fail-IsQuiet _ _
  new_key-IsQuiet none none cert = bind-IsQuiet (or_fail-IsQuiet _ _) λ spec. or_fail-IsQuiet _ _

  module _ (parsers : Parsers) (now : ℕ) (draws : List (Option ℕ))
      (deploy : String → Exec (Unit {0})) (deploys : (id : String) → IsQuiet (deploy id)) where
    Triple-written :
        (calm : Bool) (current row : Certificate) (marshalled : Option Text)
        → Triple Anything
            (On calm (Reads current.id current))
            ((Certificates.create row >> pure row) >>= λ r. stop_renewing current >>= λ _.
              record_audit cert_renew r.id >>= λ _.
              try (deploy r.id) >>= λ _. or_fail unusable marshalled >>= λ _. pure r)
            (λ r w. (r ≡ row) × Follows calm current row w.certificates)
    Triple-written calm current row marshalled =
        let after = Follows calm current row in
        Triple-bind {Q = λ r w. (r ≡ row) × On calm (Beside current row) w}
          (Triple-bind (Triple-create calm current row) λ _. Triple-pure row (λ w h. (refl, h)))
          λ r.
            Triple-fact {F = r ≡ row} (λ w h. h.0)
              λ same.
                Triple-bind (Triple-of (λ w h. h.1) (Triple-stop_renewing calm current row)) λ _.
                  Triple-bind (Triple-IsQuiet false after _ (record_audit-IsQuiet _ _)) λ _.
                    Triple-bind (Triple-IsQuiet false after _ (try-IsQuiet _ (deploys r.id))) λ _.
                      Triple-bind (Triple-IsQuiet false after _ (or_fail-IsQuiet _ _))
                        λ _. Triple-pure r (λ w h. (same, h.0))

    -- Where the deployment of a certificate leaves the table of certificates as it is and itself lets
    -- the driver fail no query it did not fail before: a renewal that returns was of a certificate
    -- that is there and not revoked. Its result is active, names the old certificate as the one it
    -- renews, renews by itself exactly if the old one did, and is in the table; the old row is as it
    -- was but does not renew by itself any more, or, only where some query fails, is left as it was.
    pub renew_lem :
        (calm : Bool) (rows : List Certificate) (new_id id : String) (input : RenewInput)
        → Triple Anything
            (On calm (λ k. k ≡ rows))
            (renew provider parsers now draws deploy new_id id input)
            (λ row w. Renewed calm (find certificate_key id rows) row w.certificates)
    unfolding renew persist_certificate
    renew_lem calm rows new_id id input =
        Triple-bind (Triple-with_authority calm rows id) λ (current, ca).
          Triple-fact {F = (find certificate_key id rows ≡ some current)} (λ w h. h.1)
            λ found. Triple-bind (Triple-fail_if _ _ (λ w h. tt)) λ _.
              Triple-fact {F = is_revoked current.status ≡ false} (λ w h. h.1)
                λ usable.
                  let before : List Certificate → Type 0 = Reads current.id current in
                  Triple-of {P = On calm before} (λ w h. h.0.0)
                    (Triple-bind
                      (Triple-IsQuiet calm before _
                        (load_ca-IsQuiet provider ca input.ca_passphrase))
                      λ (issuer, ca_key).
                        Triple-bind (Triple-IsQuiet calm before _ (or_fail-IsQuiet _ _)) λ cert.
                          Triple-bind
                            (Triple-IsQuiet calm before _ (old_key-IsQuiet input.rekey current))
                            λ kept.
                              Triple-bind
                                (Triple-IsQuiet calm before _
                                  (wanted_spec-IsQuiet input.rekey input.key_algorithm))
                                λ spec.
                                  Triple-bind
                                    (Triple-IsQuiet calm before _ (new_key-IsQuiet kept spec cert))
                                    λ key.
                                      Triple-bind
                                        (Triple-IsQuiet calm before _ (or_fail-IsQuiet _ _))
                                        λ renewed.
                                          Triple-bind
                                            (Triple-IsQuiet calm before _ (or_fail-IsQuiet _ _))
                                            λ _.
                                              Triple-bind
                                                (Triple-IsQuiet calm before _ (or_fail-IsQuiet _ _))
                                                λ sealed.
                                                  Triple-weaken
                                                    (λ row w (same, follows).
                                                      subst (λ o. Renewed calm o row w.certificates)
                                                        (sym found)
                                                        (subst
                                                          (λ r.
                                                            Renewed calm (some current) r
                                                            w.certificates)
                                                          (sym same)
                                                          (usable, refl, refl, refl, follows)))
                                                    (Triple-written calm current
                                                      (certificate_row new_id ca.id
                                                        (infer_profile (usages_of renewed))
                                                        (columns_of renewed) (some sealed)
                                                        (input_of current) (some current.id))
                                                      (marshal_key key)))
