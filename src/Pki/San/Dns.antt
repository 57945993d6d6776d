-- ===== src/Pki/San/Dns.antt =====
-- What a DNS name in a Subject Alternative Name may be (`validateDNSName` of internal/pki/san.go).
use certio.Prelude.{
  ℕ, suc, ◌≤◌, ◌≡◌, refl, ◌≢◌, ◌↔◌, ◌⊎◌, true, false, List, [], ◌∷◌, arith, length, all, All,
  all_iff,
}
use certio.Text.{Text, txt, contains, split, has_prefix, has_suffix}
use certio.Pki.San.{is_label_char, validate_label, validate_dns_name}

-- The labels between the dots, as one list.
abbrev pub labels : Text → List Text
labels name = let (head, rest) = split b'.' name in head ∷ rest

abbrev pub IsLabel : Text → Type 0
IsLabel label =
    (label ≢ [])
    × (length label ≤ 63)
    × (contains b'*' label ≡ false)
    × (has_prefix (txt "-") label ≡ false)
    × (has_suffix (txt "-") label ≡ false)
    × (all is_label_char label ≡ true)

-- What RFC 1035 and the browsers' wildcard rule ask of a name: the leftmost label is an ordinary
-- one, or it is the text "*" and two labels follow; the others are ordinary.
abbrev pub IsHostPattern : Text → List Text → Type 0
IsHostPattern head rest = (IsLabel head ⊎ ((head ≡ txt "*") × (2 ≤ length rest))) × All IsLabel rest

validate_label_inner :
    (n : ℕ) (label : Text) → (validate_label false n label ≡ true) ↔ IsLabel label
unfolding validate_label
validate_label_inner n [] = ground arith
validate_label_inner n (c ∷ s) = ground arith

contains-star : contains b'*' (txt "*") ≡ true
unfolding contains
contains-star = refl

validate_label_leftmost :
    (n : ℕ) (label : Text)
    → (validate_label true n label ≡ true) ↔ (IsLabel label ⊎ ((label ≡ txt "*") × (3 ≤ n)))
unfolding validate_label
validate_label_leftmost n [] = ground arith
validate_label_leftmost n (c ∷ []) = ground arith
validate_label_leftmost n (c ∷ d ∷ s) = ground arith

-- A name is accepted exactly when it has at most 253 code points and is a host name, or a wildcard
-- in front of one that has at least two labels.
pub validate_dns_name_iff :
    (name : Text)
    → (validate_dns_name name ≡ true)
      ↔ ((length name ≤ 253) × IsHostPattern (split b'.' name).0 (split b'.' name).1)
unfolding validate_dns_name
validate_dns_name_iff name =
    let (head, rest) = split b'.' name in
    let n : ℕ = suc (length rest) in
    ground (
      arith,
      validate_label_leftmost n head,
      all_iff {p = validate_label false n} {P = IsLabel} (validate_label_inner n) rest,
    )
