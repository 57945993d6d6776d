-- ===== src/Config/Usable.antt =====
-- internal/config/config.go: what the settings that pass the checks have.
use certio.Prelude.{
  ℕ, ◌≡◌, subst, ◌≤◌, refl, ◌⊎◌, inl, inr, Bool, true, false, not, ◌&&◌, ◌||◌, [], ◌∷◌, ◌++◌,
  Option, none, some, arith, is_empty, leb, ◌==◌, if◌then◌else◌,
}
use certio.Prelude.Attempts.{bind-elim, require-elim}
use certio.Text.{Text, text_eq}
use certio.Config.{
  Database, Acme, Config, Url, sqlite, postgres, check_driver, check_acme, acme_defaults, is_policy,
  with_defaults, database_dsn, validate_settings, is_postgres, apply_database_url,
}

-- One of the two drivers, with something to connect to.
abbrev pub Connects : Database → Type 0
Connects d = ((d.driver ≡ sqlite) ⊎ (d.driver ≡ postgres)) × (is_empty (database_dsn d) ≡ false)

abbrev pub Serves : Acme → Type 0
Serves a =
    a.enabled ≡ true
    → (is_empty a.authority ≡ false)
      × ((a.http01_enabled || a.dns01_enabled) ≡ true)
      × (1 ≤ a.validity_days)
      × (1 ≤ a.http01_port)

abbrev pub IsUsable : Config → Type 0
IsUsable c =
    (1 ≤ c.port)
    × (c.port ≤ 65535)
    × Connects c.database
    × (is_policy c.key_download_policy ≡ true)
    × Serves c.acme
    × (1 ≤ c.expiry_warn_days)
    × (1 ≤ c.default_validity_days)
    × (1 ≤ c.default_ca_validity)
    × (1 ≤ c.crl_validity)

-- A path with the settings of a connection behind it is not empty.
is_empty-settings : (p : Text) (c : ℕ) (s : Text) → is_empty (p ++ c ∷ s) ≡ false
is_empty-settings [] c s = refl
is_empty-settings (x ∷ p) c s = refl

sqlite-database_dsn :
    (d : Database) (dsn : Text)
    → d.dsn ≡ dsn
    → is_empty (database_dsn (record d { driver = sqlite })) ≡ false
unfolding database_dsn text_eq
sqlite-database_dsn d [] e = rw (e) (is_empty-settings d.path _ _)
sqlite-database_dsn d (c ∷ dsn) e = rw (e) refl

sqlite-Connects : (d : Database) → Connects (record d { driver = sqlite })
sqlite-Connects d = (inl refl, sqlite-database_dsn d d.dsn refl)

postgres-database_dsn :
    (d : Database)
    → is_empty d.dsn ≡ false
    → is_empty (database_dsn (record d { driver = postgres })) ≡ false
unfolding database_dsn
postgres-database_dsn d e = rw (e) e

module _ {A : Type 0} where
  Result-some : (P : A → Type 0) (a : A) {b : A} → P a → some a ≡ some b → P b
  Result-some P a h e = subst P (cc) h

  -- A result under a test is that of one of the branches.
  if-elim :
      {b : A} {P : Type 0} (test : Bool) (m n : Option A)
      → (if test then m else n) ≡ some b
      → (test ≡ true → m ≡ some b → P)
      → (test ≡ false → n ≡ some b → P)
      → P
  if-elim true m n e h k = h refl e
  if-elim false m n e h k = k refl e

check_driver-Connects : (d d' : Database) → check_driver d ≡ some d' → Connects d'
unfolding check_driver
check_driver-Connects d d' e =
    if-elim _ _ _ e
      (λ _ e.
        if-elim (is_empty d.path && is_empty d.dsn) none (some (record d { driver = sqlite })) e
          (λ _ e. absurd (cc))
          (λ _ e. Result-some Connects (record d { driver = sqlite }) (sqlite-Connects d) e))
      (λ _ e.
        if-elim (is_postgres d.driver && not (is_empty d.dsn))
          (some (record d { driver = postgres })) none e
          (λ named e.
            Result-some Connects (record d { driver = postgres })
              (inr refl, postgres-database_dsn d (ground (arith, named))) e)
          (λ _ e. absurd (cc)))

check_acme-Serves : (a a' : Acme) → check_acme a ≡ some a' → Serves a'
unfolding check_acme acme_defaults
check_acme-Serves a a' e =
    if-elim (not a.enabled) _ _ e
      (λ off e. Result-some Serves a (λ on. absurd (ground (arith, off, on))) e)
      (λ _ e.
        if-elim (is_empty a.authority || (not a.http01_enabled && not a.dns01_enabled)) none
          (some (acme_defaults a)) e (λ _ e. absurd (cc))
          (λ usable e.
            Result-some Serves (acme_defaults a)
              (λ on. (ground (arith, usable), ground (arith, usable), ground arith, ground arith))
              e))

-- Settings that pass the checks can be used: the port is from 1 to 65535; the driver is that of SQLite
-- or of Postgres, and the connection string is not empty; the policy of key downloads is one of the
-- three; where the ACME server is on it has an authority, one of the two kinds of challenge, a
-- lifetime and a port; and no number of days and no validity is 0.
pub validate_settings-IsUsable :
    (parse_url : Text → Option Url) (c settings : Config)
    → validate_settings parse_url c ≡ some settings
    → IsUsable settings
unfolding validate_settings with_defaults
validate_settings-IsUsable parse_url c settings e =
    require-elim (not (c.port == 0) && leb c.port 65535) _ e λ port e.
      bind-elim (apply_database_url parse_url c.database) _ e λ expanded _ e.
        bind-elim (check_driver expanded) _ e λ database connected e.
          require-elim (is_policy c.key_download_policy) _ e λ policy e.
            bind-elim (check_acme c.acme) _ e λ acme served e.
              Result-some IsUsable (with_defaults database acme c)
                (
                  ground (arith, port),
                  ground (arith, port),
                  check_driver-Connects expanded database connected,
                  policy,
                  check_acme-Serves c.acme acme served,
                  ground arith,
                  ground arith,
                  ground arith,
                  ground arith,
                )
                e
