-- ===== src/Service/Acme/Csr.antt =====
-- internal/service/acme.go: the names of a signing request against those of its order.
use certio.Prelude.{
  ℕ, ◌≡◌, ◌≢◌, ◌⊎◌, inl, inr, refl, all-append, ◌↔◌, Bool, true, false, not, ◌&&◌, List, [], ◌∷◌,
  ◌++◌, map, arith, any, all, is_empty, All, Exists, any_iff, if◌then◌else◌,
}
use certio.Text.{Text, text_eq, text_eq_iff, trim_space, to_lower, contains, contains_iff}

-- What the parser of x509 reads in a request.
pub record Csr : Type 0 where
  pub common_name : Text
  pub dns_names : List Text
  pub has_other_names : Bool

abbrev pub dot : ℕ
dot = 46

-- A common name that is a hostname counts as a name that is asked for.
abbrev pub common_names : Text → List Text
common_names cn = if not (is_empty cn) && contains dot cn then cn ∷ [] else []

unfoldable pub requested : Csr → List Text
requested csr = map to_lower csr.dns_names ++ common_names (to_lower (trim_space csr.common_name))

unfoldable pub is_authorized : List Text → Text → Bool
is_authorized identifiers name = any (λ identifier. text_eq (to_lower identifier) name) identifiers

unfoldable pub check_csr_against_order : Csr → List Text → Bool
unfolding requested is_authorized
check_csr_against_order csr identifiers =
    not csr.has_other_names
    && all (is_authorized identifiers) (requested csr)
    && not (is_empty (requested csr))

-- Some identifier of the order is the name, where the case of letters does not count.
abbrev pub IsOfOrder : List Text → Text → Type 0
IsOfOrder identifiers name = Exists (λ i. to_lower i ≡ to_lower name) identifiers

-- A common name with a dot in it is the name of a host.
abbrev pub NamesHost : Csr → Type 0
NamesHost csr = Exists (λ c. c ≡ dot) (to_lower (trim_space csr.common_name))

is_authorized_iff :
    (identifiers : List Text) (name : Text)
    → (is_authorized identifiers name ≡ true) ↔ Exists (λ i. to_lower i ≡ name) identifiers
unfolding is_authorized
is_authorized_iff identifiers name = any_iff (λ i. text_eq_iff (to_lower i) name) identifiers

authorized_names_iff :
    (identifiers names : List Text)
    → (all (is_authorized identifiers) (map to_lower names) ≡ true)
      ↔ All (IsOfOrder identifiers) names
authorized_names_iff identifiers [] = ground arith
authorized_names_iff identifiers (name ∷ names) =
    ground
      (arith, is_authorized_iff identifiers (to_lower name), authorized_names_iff identifiers names)

common_names_iff :
    (identifiers : List Text) (cn : Text)
    → (all (is_authorized identifiers) (common_names cn) ≡ true)
      ↔ (Exists (λ c. c ≡ dot) cn → Exists (λ i. to_lower i ≡ cn) identifiers)
unfolding contains
common_names_iff identifiers [] = ground arith
common_names_iff identifiers (c ∷ cn) =
    ground (arith, contains_iff dot (c ∷ cn), is_authorized_iff identifiers (c ∷ cn))

some_common_iff : (cn : Text) → (is_empty (common_names cn) ≡ false) ↔ Exists (λ c. c ≡ dot) cn
unfolding contains
some_common_iff [] = ground arith
some_common_iff (c ∷ cn) = ground (arith, contains_iff dot (c ∷ cn))

some_name_iff :
    (names : List Text) (cn : Text)
    → (is_empty (map to_lower names ++ common_names cn) ≡ false)
      ↔ ((names ≢ []) ⊎ Exists (λ c. c ≡ dot) cn)
some_name_iff [] cn = (
  λ e. inr ((some_common_iff cn).0 e),
  λ h. elim h [ inl some_dns ↦ absurd (some_dns refl) | inr host ↦ (some_common_iff cn).1 host ],
)
some_name_iff (name ∷ names) cn = (λ e. inl (λ nil. cc), λ h. refl)

-- A request is accepted exactly if it has none but DNS names; each of its DNS names is a name of the
-- order, where the case of letters does not count, and so is its common name without the white space
-- around it if that has a dot; and it has a DNS name or such a common name.
pub check_csr_against_order_iff :
    (csr : Csr) (identifiers : List Text)
    → (check_csr_against_order csr identifiers ≡ true) ↔ (
        (csr.has_other_names ≡ false)
        × All (IsOfOrder identifiers) csr.dns_names
        × (NamesHost csr
            → Exists (λ i. to_lower i ≡ to_lower (trim_space csr.common_name)) identifiers)
        × ((csr.dns_names ≢ []) ⊎ NamesHost csr))
unfolding check_csr_against_order requested
check_csr_against_order_iff csr identifiers =
    let cn : Text = to_lower (trim_space csr.common_name) in
    ground (
      arith,
      all-append (is_authorized identifiers) (map to_lower csr.dns_names) (common_names cn),
      authorized_names_iff identifiers csr.dns_names,
      common_names_iff identifiers cn,
      some_name_iff csr.dns_names cn,
    )
