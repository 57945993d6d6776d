-- ===== src/Pki/Sign/Within.antt =====
-- internal/pki/sign.go and ca.go: what holds of every certificate that is asked for.
use certio.Prelude.{
  ℕ, zero, suc, ◌≤◌, ◌<◌, ◌≡◌, refl, Bool, true, false, List, [], ◌∷◌, Option, none, some, arith,
  subst, sym, ap, ◌∙◌,
}
use certio.Prelude.Attempts.{bind-elim, require-elim}
use certio.Text.{Text}
use certio.Pki.San.{SanSet, Parsers, add_dns, validate_set}
use certio.Pki.Profile.{Profile, lookup_profile}
use certio.Pki.Constraints.{no_constraints}
use certio.Pki.Subject.{Subject, validate_subject, normalize_subject}
use certio.Pki.Sign.{
  Issuer, IssueRequest, Template, check_issuer_can_sign, draw_serial, names_of, template_of,
  generate_serial,
}

draw_serial-positive :
    (rounds : ℕ) (draws : List (Option ℕ)) (n : ℕ) → draw_serial rounds draws ≡ some n → 0 < n
unfolding draw_serial
draw_serial-positive zero draws n e = cc
draw_serial-positive (suc rounds) [] n e = cc
draw_serial-positive (suc rounds) (none ∷ draws) n e = cc
draw_serial-positive (suc rounds) (some m ∷ draws) n e =
    ground (arith, draw_serial-positive rounds draws n)

check_issuer_can_sign-facts :
    (now : ℕ) (issuer : Issuer) (not_after : ℕ) (ca : Bool)
    → check_issuer_can_sign now issuer not_after ca ≡ true
    → (issuer.not_before ≤ now)
      × (now ≤ issuer.not_after)
      × (issuer.is_ca ≡ true)
      × (not_after ≤ issuer.not_after)
      × (ca ≡ true → issuer.max_path_len_zero ≡ false)
unfolding check_issuer_can_sign
check_issuer_can_sign-facts now issuer not_after ca e =
    (ground arith, ground arith, ground arith, ground arith, λ h. ground arith)

some_injective : {A : Type 0} {a b : A} → some a ≡ some b → a ≡ b
some_injective e = cc

module _ (parsers : Parsers) (is_url : Text → Bool) where
  -- What is asked for is within what the issuer may sign.
  pub record IsWithin (now : ℕ) (issuer : Issuer) (t : Template) : Type 0 where
    pub serial : 0 < t.serial_number
    pub lives : (issuer.not_before ≤ now) × (now ≤ issuer.not_after)
    pub expires : t.not_after ≤ issuer.not_after
    pub signs : issuer.is_ca ≡ true
    pub depth : t.is_ca ≡ true → issuer.max_path_len_zero ≡ false
    pub leaf : t.is_ca ≡ false → validate_set parsers t.sans ≡ true
    pub subject : validate_subject t.subject ≡ true
    pub unlimited : (t.max_path_len ≡ none) × (t.name_constraints ≡ no_constraints)

  names_of-leaf :
      (ca : Bool) (subject : Subject) (sans names : SanSet)
      → names_of parsers is_url ca subject sans ≡ some names
      → ca ≡ false
      → validate_set parsers names ≡ true
  unfolding names_of
  names_of-leaf true subject sans names e leaf = absurd (cc)
  names_of-leaf false subject sans names e leaf =
      require-elim (validate_set parsers (add_dns sans subject.common_name)) _ e
        (λ valid same. ground (arith, valid, same))

  pub template_of-IsWithin :
      (now : ℕ) (draws : List (Option ℕ)) (issuer : Issuer) (req : IssueRequest) (t : Template)
      → template_of parsers is_url now draws issuer req ≡ some t
      → IsWithin now issuer t
  unfolding template_of
  template_of-IsWithin now draws issuer req t e =
      bind-elim (lookup_profile req.profile) _ e λ profile _ e1.
        require-elim (validate_subject (normalize_subject req.subject)) _ e1 λ subject e2.
          bind-elim (names_of parsers is_url profile.is_ca (normalize_subject req.subject) req.sans)
            _ e2
            λ sans named e3. require-elim _ _ e3 λ _ e4. bind-elim _ _ e4 λ usage _ e5.
              bind-elim _ _ e5 λ ext _ e6. require-elim _ _ e6 λ signs e7.
                bind-elim (generate_serial draws) _ e7 λ serial drawn e8.
                  let (start, before, signer, expires, depth) =
                    check_issuer_can_sign-facts now issuer _ profile.is_ca signs in
                  subst (IsWithin now issuer) (some_injective e8) (record {
                    serial = draw_serial-positive 8 draws serial drawn;
                    lives = (start, before);
                    expires = expires;
                    signs = signer;
                    depth = depth;
                    leaf =
                        names_of-leaf profile.is_ca (normalize_subject req.subject) req.sans sans
                          named;
                    subject = subject;
                    unlimited = (refl, refl);
                  })

  -- A certificate is asked for an authority exactly if its profile is one of an authority.
  pub template_of-is_ca :
      (now : ℕ) (draws : List (Option ℕ)) (issuer : Issuer) (req : IssueRequest) (t : Template)
      (profile : Profile)
      → template_of parsers is_url now draws issuer req ≡ some t
      → lookup_profile req.profile ≡ some profile
      → t.is_ca ≡ profile.is_ca
  unfolding template_of
  template_of-is_ca now draws issuer req t profile e known =
      bind-elim (lookup_profile req.profile) _ e λ found same e1.
        require-elim (validate_subject (normalize_subject req.subject)) _ e1 λ subject e2.
          bind-elim (names_of parsers is_url found.is_ca (normalize_subject req.subject) req.sans) _
            e2
            λ sans named e3. require-elim _ _ e3 λ _ e4. bind-elim _ _ e4 λ usage _ e5.
              bind-elim _ _ e5 λ ext _ e6. require-elim _ _ e6 λ signs e7.
                bind-elim (generate_serial draws) _ e7 λ serial drawn e8.
                  let of_profile : found ≡ profile = some_injective (sym same ∙ known) in
                  subst (λ t. t.is_ca ≡ profile.is_ca) (some_injective e8)
                    (ap (λ p. p.is_ca) of_profile)
