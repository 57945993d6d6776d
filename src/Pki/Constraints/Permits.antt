-- ===== src/Pki/Constraints/Permits.antt =====
-- internal/pki/constraints.go: `PermitsDNS`.
use certio.Prelude.{◌≡◌, ◌≢◌, ◌↔◌, ◌⊎◌, true, [], arith, any_iff, Exists}
use certio.Text.{Text}
use certio.Pki.Constraints.{NameConstraints, constraint_domain, base_name, dns_within, permits_dns}
use certio.Pki.Constraints.Within.{Within, dns_within_iff}

-- What RFC 5280 asks of a DNS name: it lies in no excluded domain, and in a permitted one if any
-- is listed.
abbrev pub AdmitsDns : NameConstraints → Text → Type 0
AdmitsDns n name =
    (name ≢ [])
    × ¬ (Exists (λ c. Within name (constraint_domain c)) n.excluded_dns)
    × ((n.permitted_dns ≡ []) ⊎ Exists (λ c. Within name (constraint_domain c)) n.permitted_dns)

-- `PermitsDNS` accepts a name exactly when its base name (lower case, no dot at the end, no wildcard
-- label) is not empty, lies in no excluded domain, and in a permitted one if any is listed.
pub permits_dns_iff :
    (n : NameConstraints) (raw : Text) → (permits_dns n raw ≡ true) ↔ AdmitsDns n (base_name raw)
unfolding permits_dns
permits_dns_iff n raw =
    let name : Text = base_name raw in
    let decided =
      any_iff {p = dns_within name} {P = λ c. Within name (constraint_domain c)}
        (dns_within_iff name) in
    ground (arith, decided n.excluded_dns, decided n.permitted_dns)
