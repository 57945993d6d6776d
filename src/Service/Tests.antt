-- ===== src/Service/Tests.antt =====
-- Runs of the certificate service and of the OCSP responder at concrete inputs.
use certio.Prelude.{ℕ, ◌≡◌, refl, Bool, true, false, List, [], ◌∷◌, none, some, arith}
use certio.Text.{Text, txt}
use certio.Pki.Constraints.{NameConstraints}
use certio.Pki.Subject.{Subject}
use certio.Store.{find}
use certio.Store.Repos.{revocation_key}
use certio.Store.Models.{Authority, Certificate, Revocation, Status, active, revoked, held}
use certio.Store.Exec.{World, empty_world, ok}
use certio.Store.Exec.Triple.{Triple}
use certio.Service.Crl.{Engine}
use certio.Service.Crl.Frame.{on}
use certio.Service.Certificates.{
  revoke, release_hold, once, denied, has_private_key, count_download, authorize_key_download,
}
use certio.Service.Certificates.Downloads
use certio.Service.Certificates.Invariant.{Sound}
use certio.Service.Certificates.Keeping
use certio.Service.Certificates.Releasing
use certio.Service.Certificates.Permanent.{Gone}
use certio.Service.Certificates.Requests
use certio.Service.Certificates.Requests.{Request, Settings, serve, revoking, releasing, refreshing}
use certio.Service.Certificates.Returns
use certio.Service.Ocsp.{ocsp_status, revoked_at}
use certio.Service.Ocsp.Answers.{Answers, ocsp_status-revoked}

abbrev open_constraints : NameConstraints
open_constraints = record {
  permitted_dns = [];
  excluded_dns = [];
  permitted_ip = [];
  excluded_ip = [];
  permitted_email = [];
  excluded_email = [];
  permitted_uri = [];
  excluded_uri = [];
}

abbrev subject_of_root : Subject
subject_of_root = record {
  common_name = txt "Root";
  country = [];
  province = [];
  locality = [];
  organization = [];
  organizational_unit = [];
  email = [];
  serial_number = [];
}

abbrev root : Authority
root = record {
  id = "a";
  name = txt "Root";
  slug = txt "root";
  type = "root";
  description = [];
  subject = subject_of_root;
  key_spec = record { algorithm = "ed25519"; size = 0; curve = "" };
  serial_number = "01";
  not_before = 0;
  path_len = none;
  fingerprint = "f";
  parent_id = none;
  not_after = 1000000;
  name_constraints = open_constraints;
  key = some (txt "key");
  passphrase_protected = false;
  cert_pem = [];
  crl_url = [];
  ocsp_url = [];
  crl_number = 0;
  crl = none;
  next_crl_update = none;
  status = active;
}

abbrev leaf : Status → Certificate
leaf s = record {
  id = "c";
  authority_id = "a";
  common_name = txt "example.com";
  profile = txt "server";
  serial_number = "01";
  sans = [];
  not_before = 0;
  not_after = 900000;
  validity_days = 10;
  cert_pem = txt "pem";
  key = none;
  fingerprint = "f";
  status = s;
  auto_renew = false;
  renew_before_days = 30;
  renewed_from_id = none;
  key_download_count = 0;
  last_downloaded_at = none;
  labels = [];
  notes = [];
}

abbrev entry : ℕ → Revocation
entry code = record {
  id = "r";
  certificate_id = "c";
  authority_id = "a";
  serial_number = "01";
  reason_code = code;
  revoked_at = 7;
  revoked_by = "u";
}

abbrev with_tables : List Certificate → List Revocation → World
with_tables certs revs = record empty_world {
  authorities = root ∷ [];
  certificates = certs;
  revocations = revs;
}

abbrev engine : Engine
engine = record {
  keyring = record {
    Cert = Text;
    PrivateKey = Text;
    parse_certificate = λ pem. some pem;
    open_key = λ sealed passphrase. some sealed;
  };
  create_crl = λ ca key request. some (txt "crl");
  parse_serial = λ s. some 1;
}

abbrev settings : Settings
settings = record { crl_validity = 1000; warn_days = 30 }

leaf-Gone : Gone "c" (leaf revoked ∷ []) (entry 1 ∷ [])
leaf-Gone = record { keys = (refl, tt); reads = λ c found. ground arith }

leaf-Sound : (s : Status) → Sound (leaf s ∷ []) (entry 1 ∷ [])
leaf-Sound s = record {
  keys = (refl, tt);
  single = (refl, tt);
  recorded = λ id c found is. ground arith;
}

live_Sound : Sound (leaf active ∷ []) []
live_Sound = record { keys = tt; single = tt; recorded = λ id c found is. ground arith }

-- A release and a refresh after a revocation, while the second query of the release fails.
abbrev traffic : List (List Bool × ℕ × Request)
traffic =
    ([], 10, revoking "r" "u" "c" 1 [] false)
    ∷ (false ∷ true ∷ [], 20, releasing "c" [])
    ∷ ([], 30, refreshing)
    ∷ []

serve-Gone_example :
    Gone "c"
      (serve engine settings traffic (with_tables (leaf revoked ∷ []) (entry 1 ∷ []))).certificates
      (serve engine settings traffic (with_tables (leaf revoked ∷ []) (entry 1 ∷ []))).revocations
serve-Gone_example =
    Requests.serve-Gone engine settings "c" traffic (with_tables (leaf revoked ∷ []) (entry 1 ∷ []))
      leaf-Gone

serve-Sound_example :
    Sound
      (serve engine settings traffic (with_tables (leaf active ∷ []) [])).certificates
      (serve engine settings traffic (with_tables (leaf active ∷ []) [])).revocations
serve-Sound_example =
    Requests.serve-Sound engine settings traffic (with_tables (leaf active ∷ []) []) live_Sound

Triple-revoke_example :
    Triple
      (on Sound)
      (on Sound)
      (revoke engine 10 1000 "r" "u" "c" 1 [] false)
      (λ rev. on (Keeping.Revoked "c" 1 rev))
Triple-revoke_example = Keeping.Triple-revoke engine 10 1000 "r" "u" "c" 1 [] false

Triple-release_hold_example :
    Triple
      (on Sound)
      (on Sound)
      (release_hold engine 10 1000 30 "c" [])
      (λ _. on (Releasing.Released "c"))
Triple-release_hold_example = Releasing.Triple-release_hold engine 10 1000 30 "c" []

release_hold-returns_example :
    (release_hold engine 10 1000 30 "c" [] (with_tables (leaf held ∷ []) (entry 6 ∷ []))).0
    ≡ ok (Returns.restored engine 10 1000 30 (leaf held))
release_hold-returns_example =
    Returns.release_hold-returns engine 10 1000 30 "c" []
      (with_tables (leaf held ∷ []) (entry 6 ∷ [])) (leaf held) root (entry 6) refl refl refl refl

ocsp_status-revoked_example :
    (rev : Revocation) × (rev.certificate_id ≡ "c")
    × (find revocation_key rev.id (entry 1 ∷ []) ≡ some rev)
    × Answers
        (ocsp_status "a" "01" (with_tables (leaf revoked ∷ []) (entry 1 ∷ []))).0
        (revoked_at rev.revoked_at rev.reason_code)
    × ((with_tables (leaf revoked ∷ []) (entry 1 ∷ [])).faults ≡ []
        → (ocsp_status "a" "01" (with_tables (leaf revoked ∷ []) (entry 1 ∷ []))).0
          ≡ ok (revoked_at rev.revoked_at rev.reason_code))
ocsp_status-revoked_example =
    ocsp_status-revoked "a" "01" (with_tables (leaf revoked ∷ []) (entry 1 ∷ [])) (leaf revoked)
      (leaf-Sound revoked) refl refl refl

abbrev keyed : Certificate
keyed = record (leaf active) { key = some (txt "sealed") }

authorize_key_download-once_example :
    Triple
      (λ _. Unit)
      (Downloads.Stored keyed)
      (authorize_key_download 10 once keyed)
      (λ _ w.
        (keyed.key_download_count ≡ 0)
        × (has_private_key keyed ≡ true)
        × Downloads.Stored (count_download 10 1 keyed) w
        × (denied once (count_download 10 1 keyed) ≡ true))
authorize_key_download-once_example = Downloads.authorize_key_download-once 10 keyed
