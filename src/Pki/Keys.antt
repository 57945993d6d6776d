-- ===== src/Pki/Keys.antt =====
-- internal/pki/keys.go: the names of the algorithms of keys.

use certio.Prelude.{ℕ, List, [], ◌∷◌, Option, String, if◌then◌else◌, map, ◌==◌}
use certio.Text.{Text, trim_space, to_lower}
use certio.Pki.Profile.{lookup}

pub record KeySpec : Type 0 where
  pub algorithm : String
  pub size : ℕ
  pub curve : String

abbrev rsa : ℕ → KeySpec
rsa size = record { algorithm = "rsa"; size = size; curve = "" }

abbrev ecdsa : String → KeySpec
ecdsa curve = record { algorithm = "ecdsa"; size = 0; curve = curve }

abbrev ed25519 : KeySpec
ed25519 = record { algorithm = "ed25519"; size = 0; curve = "" }

-- The cases of `ParseKeySpec`.
abbrev pub key_specs : List (String × KeySpec)
key_specs =
    ("", ecdsa "P-256")
    ∷ ("ecdsa", ecdsa "P-256")
    ∷ ("ecdsa-p256", ecdsa "P-256")
    ∷ ("ecdsa-p-256", ecdsa "P-256")
    ∷ ("p256", ecdsa "P-256")
    ∷ ("prime256v1", ecdsa "P-256")
    ∷ ("ecdsa-p384", ecdsa "P-384")
    ∷ ("ecdsa-p-384", ecdsa "P-384")
    ∷ ("p384", ecdsa "P-384")
    ∷ ("secp384r1", ecdsa "P-384")
    ∷ ("ecdsa-p521", ecdsa "P-521")
    ∷ ("ecdsa-p-521", ecdsa "P-521")
    ∷ ("p521", ecdsa "P-521")
    ∷ ("secp521r1", ecdsa "P-521")
    ∷ ("ed25519", ed25519)
    ∷ ("ed-25519", ed25519)
    ∷ ("rsa", rsa 2048)
    ∷ ("rsa-2048", rsa 2048)
    ∷ ("rsa-3072", rsa 3072)
    ∷ ("rsa-4096", rsa 4096)
    ∷ []

abbrev dash_of : ℕ → ℕ
dash_of c = if c == b'_' then b'-' else c

unfoldable pub parse_key_spec : Text → Option KeySpec
unfolding lookup trim_space to_lower
parse_key_spec s = lookup key_specs (map dash_of (to_lower (trim_space s)))
