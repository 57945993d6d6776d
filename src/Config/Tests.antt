-- ===== src/Config/Tests.antt =====
-- Settings with the file of a SQLite database, at concrete inputs.
use certio.Prelude.{◌≡◌, refl, true, false, [], Option, none, some, if◌then◌else◌}
use certio.Text.{Text, txt, text_eq}
use certio.Config.{Config, Url, validate_settings, apply_database_url, database_dsn}
use certio.Config.Usable.{IsUsable, validate_settings-IsUsable}

-- The parser of URLs, for the two that are used here.
abbrev parse_url : Text → Option Url
parse_url raw =
    if text_eq raw (txt "sqlite:///d?m=1")
    then some (record { opaque = []; host = []; path = txt "/d"; raw_query = txt "m=1" })
    else none

abbrev loaded : Text → Config
loaded url = record {
  port = 8080;
  base_url = txt "http://ca/";
  database = record { url = url; driver = []; path = txt "certio.db"; dsn = [] };
  acme = record {
    enabled = true;
    authority = txt "root";
    validity_days = 0;
    http01_enabled = true;
    dns01_enabled = false;
    http01_port = 0;
  };
  key_download_policy = txt "once";
  expiry_warn_days = 0;
  default_validity_days = 397;
  default_ca_validity = 0;
  crl_validity = 0;
}

abbrev settings : Config
settings = record (loaded (txt "sqlite:///d?m=1")) {
  base_url = txt "http://ca";
  database = record {
    url = txt "sqlite:///d?m=1";
    driver = txt "sqlite";
    path = txt "/d";
    dsn = txt "/d?m=1";
  };
  acme = record {
    enabled = true;
    authority = txt "root";
    validity_days = 90;
    http01_enabled = true;
    dns01_enabled = false;
    http01_port = 80;
  };
  expiry_warn_days = 30;
  default_ca_validity = 3650;
  crl_validity = 604800000000000;
}

validated : validate_settings parse_url (loaded (txt "sqlite:///d?m=1")) ≡ some settings
unfolding validate_settings
validated = refl

-- The query of a URL takes the place of the settings that a file is opened with.
with_query : database_dsn settings.database ≡ txt "/d?m=1"
unfolding database_dsn
with_query = refl

-- A path is no URL, and a scheme that is not known is an error.
bare_path :
    apply_database_url parse_url (loaded (txt "data/c.db")).database
    ≡ some
        (record { url = txt "data/c.db"; driver = txt "sqlite"; path = txt "data/c.db"; dsn = [] })
unfolding apply_database_url
bare_path = refl

unknown_scheme : apply_database_url parse_url (loaded (txt "mysql://h")).database ≡ none
unfolding apply_database_url
unknown_scheme = refl

validate_settings-IsUsable_example : IsUsable settings
validate_settings-IsUsable_example =
    validate_settings-IsUsable parse_url (loaded (txt "sqlite:///d?m=1")) settings validated
