-- ===== src/Service/Issue/Names.antt =====
-- internal/service/certificate.go: `checkNameConstraints`.
use certio.Prelude.{[], ◌∷◌, Exists, ◌≡◌, ◌↔◌, true, false, Option, none, some, arith, All}
use certio.Text.{Text, contains, contains_iff}
use certio.Pki.San.{San, SanSet}
use certio.Pki.Constraints.{Networks, NameConstraints, is_zero, base_name, permits_sans}
use certio.Pki.Constraints.Admits.{Admits}
use certio.Pki.Constraints.Permits.{AdmitsDns, permits_dns_iff}
use certio.Pki.Constraints.Sets.{permits_sans_result}
use certio.Service.Issue.{check_name_constraints, is_hostname, has_refusal}

-- There is a dot in the name, and no blank.
abbrev pub IsHostname : Text → Type 0
IsHostname name = Exists (λ c. c ≡ b'.') name × ¬ (Exists (λ c. c ≡ b' ') name)

is_hostname_iff : (name : Text) → (is_hostname name ≡ true) ↔ IsHostname name
unfolding contains
is_hostname_iff [] = ground arith
is_hostname_iff (c ∷ name) =
    ground (arith, contains_iff b'.' (c ∷ name), contains_iff b' ' (c ∷ name))

has_refusal_iff : (o : Option San) → (has_refusal o ≡ false) ↔ (o ≡ none)
has_refusal_iff none = ground arith
has_refusal_iff (some san) = ground arith

-- With some constraint set, no name is refused exactly when every alternative name is admitted, a URI
-- always being, and the base name of the common name too if it looks like a hostname.
pub check_name_constraints_iff :
    (networks : Networks) (constraints : NameConstraints) (common_name : Text) (sans : SanSet)
    → is_zero constraints ≡ false
    → (check_name_constraints networks constraints common_name sans ≡ false) ↔ (
        All (Admits networks constraints) sans
        × (IsHostname common_name → AdmitsDns constraints (base_name common_name)))
unfolding check_name_constraints
check_name_constraints_iff networks constraints common_name sans some_set =
    let refusal = has_refusal_iff (permits_sans networks constraints sans) in
    let (all_in, _) = permits_sans_result networks constraints sans some_set in
    let named = is_hostname_iff common_name in
    let allowed = permits_dns_iff constraints common_name in
    rw some_set (ground (arith, all_in, refusal, named, allowed))
