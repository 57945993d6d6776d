-- ===== src/Service/Crl.antt =====
-- internal/service/authority.go: the revocation list of an authority. What the code calls of
-- crypto/x509 and of the keyring is the record `Engine`; the clock is an argument.
pub mod Frame
pub mod Steps
use certio.Prelude.{
  ℕ, ◌+◌, Bool, not, ◌&&◌, ◌||◌, List, [], ◌∷◌, Option, none, some, String, if◌then◌else◌, is_empty,
}
use certio.Text.{Text}
use certio.Store.Models.{Authority, Revocation}
use certio.Store.Exec.{unusable, Exec, pure, try, ◌>>=◌, ◌>>◌, record_audit, crl_issued}
use certio.Service.Loading.{Keyring, or_fail, load_ca}
use certio.Store.Repos.Authorities
use certio.Store.Repos.Revocations

-- One entry of a revocation list, and the list to sign.
pub record CrlEntry : Type 0 where
  pub serial : ℕ
  pub revoked_at : ℕ
  pub reason_code : ℕ

pub record CrlRequest : Type 0 where
  pub number : ℕ
  pub this_update : ℕ
  pub next_update : ℕ
  pub entries : List CrlEntry

-- What `LoadCA` uses, `x509.CreateRevocationList`, and `big.Int.SetString` in base 16.
pub record Engine : Type 1 where
  pub keyring : Keyring
  pub create_crl : keyring.Cert → keyring.PrivateKey → CrlRequest → Option Text
  pub parse_serial : String → Option ℕ

-- Revocations whose serial number does not parse are skipped.
unfoldable pub crl_entries : (String → Option ℕ) → List Revocation → List CrlEntry
crl_entries parse [] = []
crl_entries parse (rev ∷ revs) = elim (parse rev.serial_number) [
  | none ↦ crl_entries parse revs
  | some serial ↦
      record { serial = serial; revoked_at = rev.revoked_at; reason_code = rev.reason_code }
      ∷ crl_entries parse revs
]

module _ (engine : Engine) (now : ℕ) where
  -- `validity` is the configured CRL validity.
  unfoldable pub generate_crl : ℕ → String → Text → Exec Text
  unfolding crl_entries load_ca
  generate_crl validity authority_id passphrase = do
    row ← Authorities.resolve authority_id
    (cert, key) ← load_ca engine.keyring row passphrase
    revocations ← Revocations.by_authority row.id
    let request : CrlRequest = record {
      number = row.crl_number + 1;
      this_update = now;
      next_update = now + validity;
      entries = crl_entries engine.parse_serial revocations;
    }
    der ← or_fail unusable (engine.create_crl cert key request)
    Authorities.update (record row {
      crl_number = row.crl_number + 1;
      crl = some der;
      next_crl_update = some (now + validity);
    })
    record_audit crl_issued row.id
    pure der

  -- The list is published again at once, unless the authority wants a passphrase that was not given
  -- or the caller defers it; a failure is logged.
  unfoldable pub publish : ℕ → Bool → Authority → Text → Exec (Unit {0})
  publish validity skip ca passphrase =
      if not skip && (not ca.passphrase_protected || not (is_empty passphrase))
      then (do try (generate_crl validity ca.id passphrase); pure tt)
      else pure tt
