-- ===== src/Service/Loading.antt =====
-- internal/service/service.go: the certificate and the key of an authority (`LoadCA`). The parser of
-- PEM and the keyring are the record `Keyring`.
use certio.Prelude.{◌&&◌, List, [], ◌∷◌, Option, none, some, is_empty}
use certio.Text.{Text}
use certio.Store.Models.{Authority}
use certio.Store.Exec.{Err, unusable, key_unavailable, Exec, pure, fail, fail_if, ◌>>=◌, ◌>>◌}
use certio.Store.Repos.Authorities

-- `pki.ParseCertificatePEM` and the opening of a sealed key.
pub record Keyring : Type 1 where
  pub Cert : Type 0
  pub PrivateKey : Type 0
  pub parse_certificate : Text → Option Cert
  pub open_key : Text → Text → Option PrivateKey

module _ {A : Type 0} where
  abbrev pub or_fail : Err → Option A → Exec A
  or_fail e none = fail e
  or_fail e (some a) = pure a

module _ (keyring : Keyring) where
  open keyring use {Cert, PrivateKey, parse_certificate, open_key}

  -- The certificates above an authority have to parse too.
  unfoldable pub parse_each : List Authority → Exec (List Cert)
  parse_each [] = pure []
  parse_each (a ∷ authorities) = do
    parent ← or_fail unusable (parse_certificate a.cert_pem)
    parents ← parse_each authorities
    pure (parent ∷ parents)

  abbrev pub open_sealed_key : Option Text → Text → Exec PrivateKey
  open_sealed_key none passphrase = fail key_unavailable
  open_sealed_key (some sealed) passphrase = or_fail unusable (open_key sealed passphrase)

  unfoldable pub load_ca : Authority → Text → Exec (Cert × PrivateKey)
  unfolding parse_each fail_if
  load_ca a passphrase = do
    fail_if (a.passphrase_protected && is_empty passphrase) unusable
    cert ← or_fail unusable (parse_certificate a.cert_pem)
    key ← open_sealed_key a.key passphrase
    rows ← Authorities.chain a
    parse_each rows
    pure (cert, key)
