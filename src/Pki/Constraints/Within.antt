-- ===== src/Pki/Constraints/Within.antt =====
-- internal/pki/constraints.go: `dnsWithin`.
use certio.Prelude.{
  ◌≡◌, refl, ◌≢◌, ◌↔◌, ◌⊎◌, inl, inr, true, [], ◌∷◌, ◌++◌, arith, ap, Bool-cases, sym, append_assoc,
}
use certio.Text.{Text, text_eq, text_eq_iff, text_eq_refl, has_suffix}
use certio.Pki.Constraints.{constraint_domain, dns_within}

-- A text ends in another.
abbrev pub EndsIn : Text → Text → Type 0
EndsIn s t = (front : Text) × (t ≡ front ++ s)

has_suffix_sound : (s t : Text) → has_suffix s t ≡ true → EndsIn s t
unfolding has_suffix
has_suffix_sound s [] h = ([], ground (arith, text_eq_iff s []))
has_suffix_sound s (c ∷ t) h = elim (Bool-cases (text_eq s (c ∷ t))) [
  | inl same ↦ ([], sym ((text_eq_iff s (c ∷ t)).0 same))
  | inr other ↦
      let (front, e) = has_suffix_sound s t (ground arith) in (c ∷ front, ap (λ r. c ∷ r) e)
]

has_suffix-append : (s front : Text) → has_suffix s (front ++ s) ≡ true
unfolding has_suffix
has_suffix-append [] [] = refl
has_suffix-append (c ∷ s) [] = ground (arith, text_eq_refl (c ∷ s))
has_suffix-append s (c ∷ front) = ground (arith, has_suffix-append s front)

pub has_suffix_iff : (s t : Text) → (has_suffix s t ≡ true) ↔ EndsIn s t
has_suffix_iff s t = (has_suffix_sound s t, λ (front, e). rw e (has_suffix-append s front))

abbrev pub Within : Text → Text → Type 0
Within name domain = (domain ≢ []) × ((name ≡ domain) ⊎ EndsIn (b'.' ∷ domain) name)

-- A name is within a constraint exactly when the constraint's domain is not empty and the name is
-- that domain, or ends in it behind a dot: the boundary falls on a label.
pub dns_within_iff :
    (name constraint : Text)
    → (dns_within name constraint ≡ true) ↔ Within name (constraint_domain constraint)
unfolding dns_within
dns_within_iff name constraint =
    let domain : Text = constraint_domain constraint in
    ground (arith, text_eq_iff name domain, has_suffix_iff (b'.' ∷ domain) name)

EndsIn-subdomain :
    (front name domain : Text)
    → EndsIn (b'.' ∷ domain) name
    → EndsIn (b'.' ∷ domain) (front ++ b'.' ∷ name)
EndsIn-subdomain front name domain (f, e) =
    (front ++ b'.' ∷ f, rw e (sym (append_assoc front (b'.' ∷ f) (b'.' ∷ domain))))

Within-subdomain :
    (front name domain : Text) → Within name domain → Within (front ++ b'.' ∷ name) domain
Within-subdomain front name domain (full, inl e) = (full, inr (front, rw e))
Within-subdomain front name domain (full, inr ends) =
    (full, inr (EndsIn-subdomain front name domain ends))

-- Whatever stands in front of a dot, a subdomain of a name that is within a constraint is within it.
dns_within-subdomain :
    (front name constraint : Text)
    → dns_within name constraint ≡ true
    → dns_within (front ++ b'.' ∷ name) constraint ≡ true
dns_within-subdomain front name constraint h =
    (dns_within_iff _ constraint).1
      (Within-subdomain front name _ ((dns_within_iff name constraint).0 h))
