-- ===== src/Service/Issue/Tests.antt =====
-- Issued certificates at concrete inputs.
use certio.Prelude.{ℕ, ◌+◌, ◌≡◌, refl, ◌↔◌, ◌<◌, true, false, [], ◌∷◌, none, All, arith}
use certio.Text.{Text, txt}
use certio.Pki.Constraints.{NameConstraints, Networks, is_zero, base_name}
use certio.Pki.Constraints.Admits.{Admits}
use certio.Pki.Constraints.Permits.{AdmitsDns}
use certio.Store.Repos.Certificates.{is_due}
use certio.Service.Issue.{Signed, IssueInput, check_name_constraints, certificate_row}
use certio.Service.Issue.Window.{one_day-due}
use certio.Service.Issue.Names.{IsHostname, check_name_constraints_iff}

abbrev only_example : NameConstraints
only_example = record {
  permitted_dns = txt "example.com" ∷ [];
  excluded_dns = [];
  permitted_ip = [];
  excluded_ip = [];
  permitted_email = [];
  excluded_email = [];
  permitted_uri = [];
  excluded_uri = [];
}

abbrev no_networks : Networks
no_networks = record {
  Ip = Text;
  Net = Text;
  parse_ip = λ s. none;
  parse_cidr = λ s. none;
  net_contains = λ net ip. false;
}

check_name_constraints_iff_example :
    (check_name_constraints no_networks only_example (txt "a.org") [] ≡ false) ↔ (
      All (Admits no_networks only_example) []
      × (IsHostname (txt "a.org") → AdmitsDns only_example (base_name (txt "a.org"))))
unfolding is_zero
check_name_constraints_iff_example =
    check_name_constraints_iff no_networks only_example (txt "a.org") [] refl

abbrev of_days : ℕ → Signed
of_days seconds = record {
  common_name = txt "a.org";
  serial_number = "01";
  sans = [];
  not_before = 100;
  not_after = 100 + seconds;
  pem = txt "pem";
  fingerprint = "f";
}

abbrev renewing : IssueInput
renewing = record {
  profile = txt "server";
  auto_renew = true;
  renew_before_days = 30;
  labels = [];
  notes = [];
}

after_start : 100 < 101
after_start = omega arith

one_day-due_example :
    is_due 101 (certificate_row "c" "a" (txt "server") (of_days 86400) none renewing none) ≡ true
one_day-due_example =
    one_day-due "c" "a" (txt "server") (of_days 86400) none renewing none 101 refl refl after_start
