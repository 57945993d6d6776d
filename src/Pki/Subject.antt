-- ===== src/Pki/Subject.antt =====
-- internal/pki/subject.go: the distinguished name of a certificate. A limit on bytes counts those of
-- the UTF-8 encoding.
use certio.Prelude.{
  ℕ, ◌+◌, ◌-◌, Bool, not, ◌&&◌, ◌||◌, [], ◌∷◌, if◌then◌else◌, ltb, leb, ◌==◌, is_empty, map,
}
use certio.Text.{Text, trim_space}

pub record Subject : Type 0 where
  pub common_name : Text
  pub country : Text
  pub province : Text
  pub locality : Text
  pub organization : Text
  pub organizational_unit : Text
  pub email : Text
  pub serial_number : Text

abbrev bytes_of : ℕ → ℕ
bytes_of c = if ltb c 128 then 1 else if ltb c 2048 then 2 else if ltb c 65536 then 3 else 4

unfoldable pub byte_length : Text → ℕ
byte_length [] = 0
byte_length (c ∷ s) = bytes_of c + byte_length s

abbrev pub upper : ℕ → ℕ
upper c = if leb b'a' c && leb c b'z' then c - 32 else c

unfoldable pub validate_subject : Subject → Bool
unfolding trim_space byte_length
validate_subject s =
    not (is_empty (trim_space s.common_name))
    && leb (byte_length s.common_name) 64
    && (is_empty s.country || byte_length s.country == 2)

unfoldable pub normalize_subject : Subject → Subject
unfolding trim_space
normalize_subject s = record s {
  common_name = trim_space s.common_name;
  country = map upper (trim_space s.country);
  province = trim_space s.province;
  locality = trim_space s.locality;
  organization = trim_space s.organization;
  organizational_unit = trim_space s.organizational_unit;
  email = trim_space s.email;
}
