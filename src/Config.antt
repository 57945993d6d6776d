-- ===== src/Config.antt =====
-- internal/config/config.go: the checks of the settings that were loaded, and the connection string of
-- the database. A number is not negative: the code treats one below 0 as it treats 0.
pub mod Usable
pub mod Tests
use certio.Prelude.{
  ℕ, Bool, not, ◌&&◌, ◌||◌, [], ◌++◌, Option, none, some, if◌then◌else◌, leb, ◌==◌, is_empty,
}
use certio.Prelude.Attempts.{◌>>=◌, ◌>>◌, require}
use certio.Text.{Text, txt, text_eq, trim_space, trim_last, to_lower, has_prefix, cut}

pub record Database : Type 0 where
  pub url : Text
  pub driver : Text
  pub path : Text
  pub dsn : Text

pub record Acme : Type 0 where
  pub enabled : Bool
  pub authority : Text
  pub validity_days : ℕ
  pub http01_enabled : Bool
  pub dns01_enabled : Bool
  pub http01_port : ℕ

-- The settings that the checks read.
pub record Config : Type 0 where
  pub port : ℕ
  pub base_url : Text
  pub database : Database
  pub acme : Acme
  pub key_download_policy : Text
  pub expiry_warn_days : ℕ
  pub default_validity_days : ℕ
  pub default_ca_validity : ℕ
  pub crl_validity : ℕ

-- What `url.Parse` takes apart.
pub record Url : Type 0 where
  pub opaque : Text
  pub host : Text
  pub path : Text
  pub raw_query : Text

abbrev pub sqlite : Text
sqlite = txt "sqlite"

abbrev pub postgres : Text
postgres = txt "postgres"

unfoldable pub is_postgres : Text → Bool
unfolding text_eq
is_postgres d = text_eq d postgres || text_eq d (txt "postgresql") || text_eq d (txt "pgx")

-- The schemes of a file.
unfoldable pub is_file : Text → Bool
unfolding text_eq
is_file s = text_eq s sqlite || text_eq s (txt "sqlite3") || text_eq s (txt "file")

-- The file of a URL, with a connection string of its own if there is a query.
unfoldable pub file_of : Url → Database → Option Database
file_of u d =
    let path = if is_empty u.opaque then u.host ++ u.path else u.opaque in
    if is_empty path
    then none
    else some (record d {
      driver = sqlite;
      path = path;
      dsn = if is_empty u.raw_query then [] else path ++ txt "?" ++ u.raw_query;
    })

-- The driver of a configuration without a URL; no driver is that of SQLite.
unfoldable pub check_driver : Database → Option Database
unfolding text_eq is_postgres
check_driver d =
    if text_eq d.driver sqlite || is_empty d.driver
    then (if is_empty d.path && is_empty d.dsn then none else some (record d { driver = sqlite }))
    else if is_postgres d.driver && not (is_empty d.dsn)
    then some (record d { driver = postgres })
    else none

unfoldable pub acme_defaults : Acme → Acme
acme_defaults a = record a {
  validity_days = if a.validity_days == 0 then 90 else a.validity_days;
  http01_port = if a.http01_port == 0 then 80 else a.http01_port;
}

unfoldable pub check_acme : Acme → Option Acme
unfolding acme_defaults
check_acme a =
    if not a.enabled
    then some a
    else if is_empty a.authority || (not a.http01_enabled && not a.dns01_enabled)
    then none
    else some (acme_defaults a)

-- A duration is in nanoseconds.
abbrev pub week : ℕ
week = 604800000000000

unfoldable pub is_policy : Text → Bool
unfolding text_eq
is_policy p = text_eq p (txt "once") || text_eq p (txt "always") || text_eq p (txt "never")

unfoldable pub with_defaults : Database → Acme → Config → Config
unfolding trim_last
with_defaults d a c = record c {
  database = d;
  acme = a;
  expiry_warn_days = if c.expiry_warn_days == 0 then 30 else c.expiry_warn_days;
  default_validity_days = if c.default_validity_days == 0 then 397 else c.default_validity_days;
  default_ca_validity = if c.default_ca_validity == 0 then 3650 else c.default_ca_validity;
  crl_validity = if c.crl_validity == 0 then week else c.crl_validity;
  base_url = trim_last b'/' c.base_url;
}

unfoldable pub database_dsn : Database → Text
unfolding text_eq
database_dsn d =
    if not (is_empty d.dsn)
    then d.dsn
    else if text_eq d.driver postgres
    then []
    else d.path
      ++ txt "?_pragma=foreign_keys(1)&_pragma=busy_timeout(5000)&_pragma=journal_mode(WAL)"

module _ (parse_url : Text → Option Url) where
  unfoldable pub by_scheme : Text → Text → Database → Option Database
  unfolding to_lower is_postgres is_file file_of
  by_scheme scheme raw d =
      if is_postgres (to_lower scheme)
      then some (record d { driver = postgres; dsn = raw; path = [] })
      else if is_file (to_lower scheme)
      then elim (parse_url raw) [ none ↦ none | some u ↦ file_of u d ]
      else none

  unfoldable pub expand : Text → Database → Option Database
  unfolding cut has_prefix by_scheme
  expand raw d =
      let file = some (record d { driver = sqlite; path = raw; dsn = [] }) in
      let (scheme, rest) = cut b':' raw in
      elim rest [
        | none ↦ file
        | some _ ↦
            if has_prefix (txt "/") raw || has_prefix (txt ".") raw
            then file
            else by_scheme scheme raw d
      ]

  unfoldable pub apply_database_url : Database → Option Database
  unfolding trim_space expand
  apply_database_url d = let raw = trim_space d.url in if is_empty raw then some d else expand raw d

  -- The settings as the program uses them, or an error.
  unfoldable pub validate_settings : Config → Option Config
  unfolding ◌>>=◌ require apply_database_url check_driver is_policy check_acme with_defaults
  validate_settings c = do
    require (not (c.port == 0) && leb c.port 65535)
    expanded ← apply_database_url c.database
    database ← check_driver expanded
    require (is_policy c.key_download_policy)
    acme ← check_acme c.acme
    some (with_defaults database acme c)
