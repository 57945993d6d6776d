-- ===== src/Pki/Tests.antt =====
-- Names and constraints at concrete inputs.
use certio.Prelude.{◌≡◌, refl, ◌↔◌, true, false, List, [], ◌∷◌, none, some, length, ◌≤◌, All}
use certio.Text.{Text, txt, split}
use certio.Pki.San.{San, SanSet, dns, Parsers, parse_fields, validate_dns_name}
use certio.Pki.San.Dns.{validate_dns_name_iff, IsHostPattern}
use certio.Pki.Constraints.{
  NameConstraints, Networks, is_zero, dns_within, constraint_domain, permits_dns, base_name,
  permits_sans,
}
use certio.Pki.Constraints.Within.{Within, dns_within_iff}
use certio.Pki.Constraints.Permits.{AdmitsDns, permits_dns_iff}
use certio.Pki.Constraints.Admits.{Admits}
use certio.Pki.Constraints.Sets.{IsFirstRefused, permits_sans_result}

abbrev only_example : NameConstraints
only_example = record {
  permitted_dns = txt "example.com" ∷ [];
  excluded_dns = txt "bad.example.com" ∷ [];
  permitted_ip = [];
  excluded_ip = [];
  permitted_email = [];
  excluded_email = [];
  permitted_uri = [];
  excluded_uri = [];
}

abbrev no_networks : Networks
no_networks = record {
  Ip = Text;
  Net = Text;
  parse_ip = λ s. none;
  parse_cidr = λ s. none;
  net_contains = λ net ip. false;
}

abbrev parsers : Parsers
parsers = record { is_ip = λ s. false; is_address = λ s. false; is_absolute_url = λ s. false }

permits_dns_iff_example :
    (permits_dns only_example (txt "*.Example.com") ≡ true)
    ↔ AdmitsDns only_example (base_name (txt "*.Example.com"))
permits_dns_iff_example = permits_dns_iff only_example (txt "*.Example.com")

dns_within_iff_example :
    (dns_within (txt "notexample.com") (txt "example.com") ≡ true)
    ↔ Within (txt "notexample.com") (constraint_domain (txt "example.com"))
dns_within_iff_example = dns_within_iff (txt "notexample.com") (txt "example.com")

permits_sans_result_example :
    ((permits_sans no_networks only_example (record { type = dns; value = txt "a.org" } ∷ [])
        ≡ none)
      ↔ All (Admits no_networks only_example) (record { type = dns; value = txt "a.org" } ∷ []))
    × ((entry : San)
        → permits_sans no_networks only_example (record { type = dns; value = txt "a.org" } ∷ [])
          ≡ some entry
        → IsFirstRefused no_networks only_example entry
            (record { type = dns; value = txt "a.org" } ∷ []))
unfolding is_zero
permits_sans_result_example =
    permits_sans_result no_networks only_example (record { type = dns; value = txt "a.org" } ∷ [])
      refl

validate_dns_name_iff_example : (validate_dns_name (txt "*.example.com") ≡ true) ↔ (
    (length (txt "*.example.com") ≤ 253)
    × IsHostPattern (split b'.' (txt "*.example.com")).0 (split b'.' (txt "*.example.com")).1)
validate_dns_name_iff_example = validate_dns_name_iff (txt "*.example.com")

abbrev fields : List Text
fields = txt "a.com" ∷ txt " DNS:A.com" ∷ txt "b.com" ∷ []

abbrev field_set : SanSet
field_set =
    record { type = dns; value = txt "a.com" } ∷ record { type = dns; value = txt "b.com" } ∷ []

fields_parsed : parse_fields parsers [] fields ≡ some field_set
unfolding parse_fields
fields_parsed = refl
