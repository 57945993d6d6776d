-- ===== src/Service/Issuance/Tests.antt =====
-- An issuance at a concrete input.
use certio.Prelude.{ℕ, ◌+◌, ◌*◌, ◌≡◌, refl, true, false, [], ◌∷◌, Option, none, some}
use certio.Text.{Text, txt}
use certio.Pki.San.{dns, Parsers}
use certio.Pki.Constraints.{Networks, NameConstraints, permits_dns}
use certio.Pki.Subject.{Subject}
use certio.Pki.Sign.{X509, sign_public_key, template_of, names_of}
use certio.Pki.Profile.{cert_sign}
use certio.Store.{find}
use certio.Store.Models.{Authority, Certificate, active}
use certio.Store.Exec.{pure}
use certio.Store.Exec.Quiet.{On, pure-IsQuiet}
use certio.Store.Repos.{certificate_key}
use certio.Service.Issuance.Renewal.{RenewInput, renew}
use certio.Service.Issuance.Renewal.Linked.{Renewed, renew_lem}
use certio.Store.Exec.Triple.{Triple, Anything}
use certio.Service.Issue.{check_name_constraints}
use certio.Service.Issuance.{Provider, Defaults, Order, request_of, issue}
use certio.Service.Issuance.Issued.{Issued, issue_lem}

abbrev pub x509 : X509
x509 = record {
  PublicKey = Text;
  PrivateKey = Text;
  Cert = ℕ;
  is_url = λ s. false;
  public = λ key. key;
  issuer_of = λ cert. record {
    not_before = 0;
    not_after = 100000000;
    is_ca = true;
    key_usage = cert_sign ∷ [];
    max_path_len_zero = true;
  };
  create_certificate = λ template issuer key ca_key. some template.not_after;
}

abbrev pub common : Subject
common = record {
  common_name = txt "www.example.com";
  country = [];
  province = [];
  locality = [];
  organization = [];
  organizational_unit = [];
  email = [];
  serial_number = [];
}

-- A certificate is its expiry.
abbrev pub provider : Provider
provider = record {
  x509 = x509;
  parse_certificate = λ pem. some 100000000;
  columns_of = λ cert. record {
    common_name = txt "www.example.com";
    serial_number = "01";
    sans = [];
    not_before = 0;
    not_after = cert;
    pem = [];
    fingerprint = "";
  };
  usages_of = λ cert. record { is_ca = false; self_signed = false; ext_key_usage = [] };
  spec_of = λ cert. some (record { algorithm = "rsa"; size = 2048; curve = "" });
  subject_of = λ cert. common;
  generate_key = λ spec. some (txt "key");
  seal_key = λ key passphrase. some key;
  open_key = λ sealed passphrase. some sealed;
  marshal_key = λ key. some key;
}

abbrev networks : Networks
networks = record {
  Ip = Text;
  Net = Text;
  parse_ip = λ s. none;
  parse_cidr = λ s. none;
  net_contains = λ net ip. false;
}

abbrev pub parsers : Parsers
parsers = record { is_ip = λ s. false; is_address = λ s. false; is_absolute_url = λ s. false }

abbrev defaults : Defaults
defaults = record {
  key_algorithm = txt "rsa-2048";
  organization = txt "Example";
  country = txt "fr";
}

abbrev order : Order
order = record {
  authority_id = "ca";
  ca_passphrase = [];
  subject = common;
  sans = [];
  key_algorithm = [];
  validity_days = 30;
  key_usage = [];
  ext_key_usage = [];
  input = record {
    profile = [];
    auto_renew = true;
    renew_before_days = 0;
    labels = [];
    notes = [];
  };
}

abbrev subject_of_root : Subject
subject_of_root = record {
  common_name = txt "Root";
  country = [];
  province = [];
  locality = [];
  organization = [];
  organizational_unit = [];
  email = [];
  serial_number = [];
}

abbrev pub authority : Authority
authority = record {
  id = "ca";
  name = txt "Root";
  slug = txt "root";
  type = "root";
  description = [];
  subject = subject_of_root;
  key_spec = record { algorithm = "ed25519"; size = 0; curve = "" };
  serial_number = "01";
  not_before = 0;
  path_len = none;
  fingerprint = "f";
  parent_id = none;
  not_after = 100000000;
  name_constraints = record {
    permitted_dns = [];
    excluded_dns = [];
    permitted_ip = [];
    excluded_ip = [];
    permitted_email = [];
    excluded_email = [];
    permitted_uri = [];
    excluded_uri = [];
  };
  key = some (txt "key");
  passphrase_protected = false;
  cert_pem = [];
  crl_url = [];
  ocsp_url = [];
  crl_number = 0;
  crl = none;
  next_crl_update = none;
  status = active;
}

-- The serial number 0 that is drawn first is passed over.
abbrev signs : Option ℕ
signs = sign_public_key x509 parsers 1000 (some 0 ∷ some 7 ∷ []) 100000000 (txt "key") (txt "key") (
    request_of provider networks parsers defaults 1000 [] authority (txt "server") order.subject
      order)

signed_for_30_days : signs ≡ some (700 + 30 * 86400)
unfolding sign_public_key template_of certio.Prelude.Attempts.◌>>=◌ certio.Prelude.Attempts.require
signed_for_30_days = refl

abbrev only_example : NameConstraints
only_example = record authority.name_constraints { permitted_dns = txt "example.com" ∷ [] }

abbrev intranet : Subject
intranet = record order.subject { common_name = txt "intranet" }

-- A common name without a dot is not held against the constraints, but joins the DNS names.
single_label_unchecked :
    (check_name_constraints networks only_example intranet.common_name [] ≡ false)
    × (permits_dns only_example intranet.common_name ≡ false)
    × (names_of parsers (λ s. false) false intranet []
        ≡ some (record { type = dns; value = txt "intranet" } ∷ []))
unfolding check_name_constraints permits_dns names_of certio.Pki.Constraints.is_zero
    certio.Pki.Constraints.permits_sans certio.Prelude.Attempts.◌>>=◌
    certio.Prelude.Attempts.require
single_label_unchecked = (refl, refl, refl)

abbrev old : Certificate
old = record {
  id = "old";
  authority_id = "ca";
  common_name = txt "www.example.com";
  profile = txt "server";
  serial_number = "02";
  sans = record { type = dns; value = txt "www.example.com" } ∷ [];
  not_before = 0;
  not_after = 2592000;
  validity_days = 30;
  cert_pem = [];
  key = some (txt "key");
  fingerprint = "";
  status = active;
  auto_renew = true;
  renew_before_days = 15;
  renewed_from_id = none;
  key_download_count = 0;
  last_downloaded_at = none;
  labels = [];
  notes = [];
}

abbrev again : RenewInput
again = record {
  rekey = false;
  key_algorithm = [];
  validity_days = 0;
  sans = [];
  ca_passphrase = [];
}

renew_lem_example :
    Triple Anything
      (On true (λ k. k ≡ old ∷ []))
      (renew provider parsers 1000 (some 7 ∷ []) (λ id. pure tt) "c" "old" again)
      (λ row w. Renewed true (find certificate_key "old" (old ∷ [])) row w.certificates)
renew_lem_example =
    renew_lem provider parsers 1000 (some 7 ∷ []) (λ id. pure tt) (λ id. pure-IsQuiet tt) true
      (old ∷ []) "c" "old" again

issue_lem_example :
    Triple Anything
      (λ w. w.authorities ≡ authority ∷ [])
      (issue provider networks parsers defaults 1000 (some 0 ∷ some 7 ∷ []) "c" order)
      (Issued provider networks parsers 1000 defaults (some 0 ∷ some 7 ∷ []) (authority ∷ []) order)
issue_lem_example =
    issue_lem provider networks parsers 1000 defaults (some 0 ∷ some 7 ∷ []) (authority ∷ []) "c"
      order
