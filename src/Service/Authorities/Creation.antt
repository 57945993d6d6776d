-- ===== src/Service/Authorities/Creation.antt =====
-- internal/service/authority.go: the creation and the import of authorities.
use certio.Service.Loading.{or_fail, load_ca}
use certio.Prelude.{
  ℕ, Bool, not, ◌&&◌, ◌||◌, List, [], Option, none, some, String, str_eq, if◌then◌else◌, is_empty,
  ◌==◌, any, first,
}
use certio.Text.{Text, text_eq}
use certio.Pki.San.{Parsers}
use certio.Pki.Constraints.{Networks, no_constraints, normalize, validate}
use certio.Pki.Subject.{Subject, validate_subject}
use certio.Pki.Keys.{KeySpec, parse_key_spec}
use certio.Pki.Ca.{
  CaProvider, CaRequest, create_root_ca, create_intermediate_ca, constraints_of, import_ca, is_root,
}
use certio.Store.Models.{Authority, active}
use certio.Store.Exec.{
  validation, conflict, unusable, Exec, pure, fail_if, ◌>>=◌, ◌>>◌, record_audit, ca_create,
  ca_import,
}
use certio.Store.Repos.Authorities
use certio.Service.Issue.{default_text}
use certio.Service.Issuance.{Provider, Defaults, apply_subject_defaults, keyring}
use certio.Service.Authorities.Slugs.{unique_slug}
use certio.Service.Authorities.{CreateAuthorityInput, ImportAuthorityInput, or_root, public_ca_url}

module _ (provider : Provider) (ca : CaProvider provider.x509) (networks : Networks)
    (parsers : Parsers) (defaults : Defaults) (default_ca_validity : ℕ) (base_url : Text) (now : ℕ)
    (draws : List (Option ℕ)) where
  open provider use {x509, columns_of, subject_of, seal_key}
  open x509 use {Cert, PrivateKey, public}
  open ca use {path_len_of, issuer_name_of, key_spec_of}

  -- The row of an authority that is signed. Its addresses hold its identifier.
  unfoldable pub authority_row :
      String → CreateAuthorityInput → Text → Option String → KeySpec → Cert → Text → Authority
  unfolding constraints_of
  authority_row new_id input slug parent_id spec cert sealed = record {
    id = new_id;
    name = input.name;
    slug = slug;
    type = input.type;
    parent_id = parent_id;
    description = input.description;
    subject = subject_of cert;
    key_spec = spec;
    serial_number = (columns_of cert).serial_number;
    not_before = (columns_of cert).not_before;
    not_after = (columns_of cert).not_after;
    path_len = path_len_of cert;
    name_constraints = constraints_of x509 ca networks now draws cert;
    cert_pem = (columns_of cert).pem;
    key = some sealed;
    passphrase_protected = not (is_empty input.passphrase);
    crl_url = [];
    ocsp_url = [];
    crl_number = 0;
    crl = none;
    next_crl_update = none;
    fingerprint = (columns_of cert).fingerprint;
    status = active;
  }

  abbrev pub addressed : Authority → Authority
  addressed row = record row {
    crl_url = public_ca_url base_url row.id "crl.pem";
    ocsp_url = if row.passphrase_protected then [] else public_ca_url base_url row.id "ocsp";
  }

  unfoldable pub persist_authority :
      String
      → CreateAuthorityInput
      → Text
      → Option String
      → KeySpec
      → Cert
      → PrivateKey
      → Exec Authority
  unfolding authority_row public_ca_url
  persist_authority new_id input slug parent_id spec cert key = do
    sealed ← or_fail unusable (seal_key key input.passphrase)
    let row = authority_row new_id input slug parent_id spec cert sealed
    Authorities.create row
    let full = addressed row
    if is_empty full.crl_url && is_empty full.ocsp_url then pure tt else Authorities.update full
    pure full

  abbrev request_for : CreateAuthorityInput → KeySpec → CaRequest
  request_for input spec = record {
    subject = input.subject;
    key_spec = spec;
    validity_days = input.validity_days;
    max_path_len = input.max_path_len;
    crl_distribution_points = input.crl_distribution;
    ocsp_server = input.ocsp_server;
    name_constraints = input.name_constraints;
  }

  -- The input as it is used: the defaults are filled in and the texts are normalised.
  abbrev pub filled : CreateAuthorityInput → CreateAuthorityInput
  filled input = record input {
    type = or_root input.type;
    name = default_text input.name input.subject.common_name;
    subject = apply_subject_defaults defaults input.subject;
    name_constraints = normalize input.name_constraints;
  }

  abbrev days_of_root : CaRequest → CaRequest
  days_of_root req = record req {
    validity_days = if req.validity_days == 0 then default_ca_validity else req.validity_days;
  }

  abbrev make_root : CaRequest → Exec (Option String × Cert × PrivateKey)
  make_root req = do
    (cert, key) ← or_fail validation (create_root_ca x509 ca networks now draws (days_of_root req))
    pure (none, cert, key)

  abbrev make_intermediate :
      CreateAuthorityInput → CaRequest → Exec (Option String × Cert × PrivateKey)
  make_intermediate input req = do
    fail_if (str_eq input.parent_id "") validation
    parent ← Authorities.resolve input.parent_id
    (parent_cert, parent_key) ← load_ca (keyring provider) parent input.parent_passphrase
    (cert, key) ←
        or_fail validation
          (create_intermediate_ca x509 ca networks now draws parent_cert parent_key req)
    pure (some parent.id, cert, key)

  unfoldable pub create_authority : String → CreateAuthorityInput → Exec Authority
  unfolding parse_key_spec apply_subject_defaults validate_subject normalize validate unique_slug
      create_root_ca create_intermediate_ca load_ca persist_authority fail_if
  create_authority new_id input = do
    let wanted = filled input
    fail_if (not (str_eq wanted.type "root" || str_eq wanted.type "intermediate")) validation
    fail_if (is_empty wanted.name) validation
    spec ←
        or_fail validation
          (parse_key_spec (default_text input.key_algorithm defaults.key_algorithm))
    fail_if (not (validate_subject wanted.subject)) validation
    fail_if (not (validate networks wanted.name_constraints)) validation
    slug ← unique_slug (default_text input.slug wanted.name)
    let req = request_for wanted spec
    (parent_id, cert, key) ←
        if str_eq wanted.type "root" then make_root req else make_intermediate wanted req
    row ← persist_authority new_id wanted slug parent_id spec cert key
    record_audit ca_create row.id
    pure row

  abbrev has_fingerprint : String → Authority → Bool
  has_fingerprint fingerprint row = str_eq row.fingerprint fingerprint

  -- The first authority that may have issued the certificate, by its name.
  abbrev issuer_in : List Authority → Cert → Option Authority
  issuer_in rows cert =
      first
        (λ row.
          text_eq row.subject.common_name (issuer_name_of cert)
          && not (has_fingerprint (columns_of cert).fingerprint row))
        rows

  abbrev import_of : Text → Text → Text → Text → String → Subject → CreateAuthorityInput
  import_of name slug description passphrase type subject = record {
    name = name;
    slug = slug;
    description = description;
    type = type;
    parent_id = "";
    parent_passphrase = [];
    subject = subject;
    key_algorithm = [];
    validity_days = 0;
    max_path_len = none;
    passphrase = passphrase;
    crl_distribution = [];
    ocsp_server = [];
    name_constraints = no_constraints;
  }

  abbrev id_of : Authority → String
  id_of row = row.id

  abbrev type_of : Option Authority → Bool → String
  type_of (some parent) root = "intermediate"
  type_of none root = if root then "root" else "intermediate"

  abbrev parent_of : Option Authority → Option String
  parent_of none = none
  parent_of (some parent) = some parent.id

  unfoldable pub import_authority : String → ImportAuthorityInput → Exec Authority
  unfolding import_ca is_root unique_slug persist_authority fail_if text_eq
  import_authority new_id input = do
    fail_if (is_empty input.cert_pem || is_empty input.key_pem) validation
    (cert, key, chain) ←
        or_fail validation (import_ca x509 ca networks now draws input.cert_pem input.key_pem)
    spec ← or_fail validation (key_spec_of key)
    let name = default_text input.name (subject_of cert).common_name
    slug ← unique_slug (default_text input.slug name)
    rows ← Authorities.all
    fail_if (any (has_fingerprint (columns_of cert).fingerprint) rows) conflict
    let parent = issuer_in rows cert
    let type = type_of parent (is_root x509 ca networks now draws cert chain)
    row ←
        persist_authority new_id
          (import_of name input.slug input.description input.passphrase type (subject_of cert)) slug
          (parent_of parent) spec cert key
    record_audit ca_import row.id
    pure row
