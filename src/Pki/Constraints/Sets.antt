-- ===== src/Pki/Constraints/Sets.antt =====
-- internal/pki/constraints.go: `PermitsSANs`.
use certio.Prelude.{
  ◌≡◌, ◌↔◌, false, Bool-cases, inl, inr, [], ◌∷◌, ◌++◌, ap, sym, subst, arith, none, some, All,
}
use certio.Pki.San.{San, SanSet}
use certio.Pki.Constraints.{
  NameConstraints, Networks, permits_san, is_zero, first_refused, permits_sans,
}
use certio.Pki.Constraints.Admits.{Admits, permits_san_iff}

module _ (networks : Networks) where
  first_refused-none_iff :
      (n : NameConstraints) (sans : SanSet)
      → (first_refused networks n sans ≡ none) ↔ All (Admits networks n) sans
  unfolding first_refused
  first_refused-none_iff n [] = ground arith
  first_refused-none_iff n (san ∷ sans) =
      ground (arith, permits_san_iff networks n san, first_refused-none_iff n sans)

  -- The entry stands in the set, behind entries that are all admitted, and is not admitted.
  abbrev pub IsFirstRefused : NameConstraints → San → SanSet → Type 0
  IsFirstRefused n entry sans =
      (front : SanSet) × (back : SanSet) × (sans ≡ front ++ entry ∷ back)
      × All (Admits networks n) front
      × ¬ Admits networks n entry

  first_refused-some :
      (n : NameConstraints) (sans : SanSet) (entry : San)
      → first_refused networks n sans ≡ some entry
      → IsFirstRefused n entry sans
  unfolding first_refused
  first_refused-some n [] entry h = absurd (cc)
  first_refused-some n (san ∷ sans) entry h = elim (Bool-cases (permits_san networks n san)) [
    | inl permitted ↦
        let (front, back, same, admitted, refused) =
          first_refused-some n sans entry (rw permitted at h) in
        (
          san ∷ front,
          back,
          ap (λ rest. san ∷ rest) same,
          ((permits_san_iff networks n san).0 permitted, admitted),
          refused,
        )
    | inr other ↦
        let is : san ≡ entry = cc (rw other at h) in
        (
          [],
          sans,
          ap (λ e. e ∷ sans) is,
          tt,
          λ admitted. absurd (
              ground (
                arith,
                permits_san_iff networks n san,
                subst (Admits networks n) (sym is) admitted,
                other,
              )),
        )
  ]

  -- With some constraint set, `PermitsSANs` succeeds exactly when every entry is admitted: a DNS name
  -- by its base name, an address of IP and of e-mail by their lists, each in no excluded constraint
  -- and in a permitted one if any is listed, and a URI always; an error names the first entry that is
  -- not.
  pub permits_sans_result :
      (n : NameConstraints) (sans : SanSet)
      → is_zero n ≡ false
      → ((permits_sans networks n sans ≡ none) ↔ All (Admits networks n) sans)
        × ((entry : San) → permits_sans networks n sans ≡ some entry → IsFirstRefused n entry sans)
  unfolding permits_sans
  permits_sans_result n sans h = rw h (first_refused-none_iff n sans, first_refused-some n sans)
