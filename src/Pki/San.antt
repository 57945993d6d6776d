-- ===== src/Pki/San.antt =====
-- internal/pki/san.go: Subject Alternative Names. What the code calls of the packages `net`,
-- `net/mail` and `net/url` is a record of functions, `Parsers`.
pub mod Dns
pub mod Sets
use Prim.Native.String
use certio.Prelude.{
  ℕ, suc, Bool, true, false, not, ◌&&◌, ◌||◌, List, [], ◌∷◌, ◌++◌, Option, none, some, leb, ltb,
  ◌==◌, if◌then◌else◌, length, any, all, is_empty,
}
use certio.Text.{
  Text, txt, text_eq, trim_space, to_lower, contains, count, cut, split, has_prefix, has_suffix,
}

pub data SanType : Type 0 where
  dns ip email uri : SanType

pub record San : Type 0 where
  pub type : SanType
  pub value : Text

abbrev pub SanSet : Type 0
SanSet = List San

-- The validity tests of the standard library: net.ParseIP, mail.ParseAddress, and url.Parse with a
-- scheme that is not empty.
pub record Parsers : Type 0 where
  pub is_ip : Text → Bool
  pub is_address : Text → Bool
  pub is_absolute_url : Text → Bool

abbrev pub type_eq : SanType → SanType → Bool
type_eq dns dns = true
type_eq ip ip = true
type_eq email email = true
type_eq uri uri = true
type_eq _ _ = false

abbrev is_alnum : ℕ → Bool
is_alnum c = (leb b'a' c && leb c b'z') || (leb b'A' c && leb c b'Z') || (leb b'0' c && leb c b'9')

abbrev pub is_label_char : ℕ → Bool
is_label_char c = is_alnum c || c == b'-' || c == b'_'

unfoldable pub validate_dns_label : Text → Bool
unfolding has_prefix has_suffix
validate_dns_label label =
    if has_prefix (txt "-") label || has_suffix (txt "-") label
    then false
    else all is_label_char label

-- One round of the loop of `validateDNSName`: `leftmost` is `i == 0`, `labels` is `len(labels)`.
unfoldable pub validate_label : Bool → ℕ → Text → Bool
unfolding text_eq contains validate_dns_label
validate_label leftmost labels label =
    if is_empty label
    then false
    else if ltb 63 (length label)
    then false
    else if contains b'*' label
    then leftmost && text_eq label (txt "*") && not (ltb labels 3)
    else validate_dns_label label

unfoldable pub validate_dns_name : Text → Bool
unfolding validate_label split
validate_dns_name name =
    let (head, rest) = split b'.' name in
    if ltb 253 (length name)
    then false
    else validate_label true (suc (length rest)) head
      && all (validate_label false (suc (length rest))) rest

-- strings.EqualFold, for ASCII
unfoldable pub equal_fold : Text → Text → Bool
unfolding text_eq to_lower
equal_fold s t = text_eq (to_lower s) (to_lower t)

abbrev pub same : San → San → Bool
same a b = type_eq a.type b.type && equal_fold a.value b.value

unfoldable pub add : SanSet → San → SanSet
unfolding equal_fold
add s entry = if any (λ existing. same existing entry) s then s else s ++ entry ∷ []

unfoldable pub add_dns : SanSet → Text → SanSet
unfolding add validate_dns_name
add_dns s name =
    if is_empty name
    then s
    else if validate_dns_name name
    then add s (record { type = dns; value = name })
    else s

-- `strings.Contains(value, "://")`
abbrev contains_scheme : Text → Bool
contains_scheme [] = false
contains_scheme (c ∷ s) = has_prefix (txt "://") (c ∷ s) || contains_scheme s

-- The label in front of the first colon, if it names a type.
abbrev named_type : Text → Option SanType
named_type label =
    if text_eq label (txt "dns")
    then some dns
    else if text_eq label (txt "ip")
    then some ip
    else if text_eq label (txt "email")
    then some email
    else if text_eq label (txt "uri")
    then some uri
    else none

abbrev labelled : Option SanType → Text → Option (SanType × Text)
labelled none rest = none
labelled (some t) rest = some (t, rest)

unfoldable pub split_san_prefix : Text → Option (SanType × Text)
unfolding cut to_lower text_eq
split_san_prefix value =
    let (label, after) = cut b':' value in
    elim after [
      | none ↦ none
      | some rest ↦ if is_empty label then none else labelled (named_type (to_lower label)) rest
    ]

module _ (parsers : Parsers) where
  unfoldable pub validate_san : San → Bool
  unfolding validate_dns_name count
  validate_san s = if is_empty s.value then false else elim s.type [
    | dns ↦ validate_dns_name s.value
    | ip ↦ parsers.is_ip s.value
    | email ↦ parsers.is_address s.value && count b'@' s.value == 1
    | uri ↦ parsers.is_absolute_url s.value
  ]

  unfoldable pub detect_san_type : Text → SanType
  unfolding contains has_prefix
  detect_san_type value =
      if parsers.is_ip value
      then ip
      else if contains_scheme value
      then uri
      else if contains b'@' value
      then email
      else dns

  -- The typed entry that an unvalidated text stands for.
  abbrev entry_of : Text → Option (SanType × Text) → San
  entry_of value (some (t, rest)) = record { type = t; value = trim_space rest }
  entry_of value none = record { type = detect_san_type value; value = value }

  unfoldable pub parse_san : Text → Option San
  unfolding split_san_prefix detect_san_type validate_san trim_space
  parse_san raw =
      let value = trim_space raw in
      let entry = entry_of value (split_san_prefix value) in
      if is_empty value then none else if validate_san entry then some entry else none

  -- The loop of `ParseSANList`, over its fields: the error of one entry fails the list.
  unfoldable pub parse_fields : SanSet → List Text → Option SanSet
  unfolding parse_san add
  parse_fields set [] = some set
  parse_fields set (f ∷ fs) = elim (parse_san f) [
    | none ↦ none
    | some entry ↦ parse_fields (add set entry) fs
  ]

  -- `SANSet.Validate`
  unfoldable pub validate_set : SanSet → Bool
  unfolding validate_san
  validate_set s = not (is_empty s) && all validate_san s
