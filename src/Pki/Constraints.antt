-- ===== src/Pki/Constraints.antt =====
-- internal/pki/constraints.go: RFC 5280 name constraints. `net.ParseCIDR`, `net.ParseIP` and
-- `IPNet.Contains` of the standard library are the record `Networks`.
pub mod Within
pub mod Permits
pub mod Admits
pub mod Sets
use Prim.Native.String
use certio.Prelude.{
  Bool, true, false, not, ◌&&◌, ◌||◌, List, [], ◌∷◌, ◌++◌, Option, none, some, if◌then◌else◌, any,
  all, is_empty,
}
use certio.Text.{
  Text, txt, text_eq, trim_space, trim_last, trim_prefix, to_lower, contains, cut, has_prefix,
  has_suffix,
}
use certio.Pki.San.{San, SanType, SanSet}

pub record NameConstraints : Type 0 where
  pub permitted_dns : List Text
  pub excluded_dns : List Text
  pub permitted_ip : List Text
  pub excluded_ip : List Text
  pub permitted_email : List Text
  pub excluded_email : List Text
  pub permitted_uri : List Text
  pub excluded_uri : List Text

-- An address and a range of addresses, as the package `net` has them.
pub record Networks : Type 1 where
  pub Ip : Type 0
  pub Net : Type 0
  pub parse_ip : Text → Option Ip
  pub parse_cidr : Text → Option Net
  pub net_contains : Net → Ip → Bool

unfoldable pub is_zero : NameConstraints → Bool
is_zero n =
    is_empty n.permitted_dns
    && is_empty n.excluded_dns
    && is_empty n.permitted_ip
    && is_empty n.excluded_ip
    && is_empty n.permitted_email
    && is_empty n.excluded_email
    && is_empty n.permitted_uri
    && is_empty n.excluded_uri

abbrev pub no_constraints : NameConstraints
no_constraints = record {
  permitted_dns = [];
  excluded_dns = [];
  permitted_ip = [];
  excluded_ip = [];
  permitted_email = [];
  excluded_email = [];
  permitted_uri = [];
  excluded_uri = [];
}

unfoldable pub clean_list : List Text → List Text
unfolding to_lower trim_space
clean_list [] = []
clean_list (raw ∷ values) =
    let v = to_lower (trim_space raw) in
    if is_empty v then clean_list values else v ∷ clean_list values

unfoldable pub normalize : NameConstraints → NameConstraints
unfolding clean_list
normalize n = record {
  permitted_dns = clean_list n.permitted_dns;
  excluded_dns = clean_list n.excluded_dns;
  permitted_ip = clean_list n.permitted_ip;
  excluded_ip = clean_list n.excluded_ip;
  permitted_email = clean_list n.permitted_email;
  excluded_email = clean_list n.excluded_email;
  permitted_uri = clean_list n.permitted_uri;
  excluded_uri = clean_list n.excluded_uri;
}

-- A constraint domain as it is compared: no white space around, no dot at either end, lower case.
unfoldable pub constraint_domain : Text → Text
unfolding to_lower trim_last trim_space trim_prefix
constraint_domain constraint =
    trim_prefix (txt ".") (to_lower (trim_last b'.' (trim_space constraint)))

unfoldable pub dns_within : Text → Text → Bool
unfolding constraint_domain text_eq has_suffix
dns_within name constraint =
    let domain = constraint_domain constraint in
    if is_empty domain then false else text_eq name domain || has_suffix (b'.' ∷ domain) name

-- The name that `PermitsDNS` compares: a wildcard stands for the domain it covers.
unfoldable pub base_name : Text → Text
unfolding to_lower trim_last trim_space trim_prefix
base_name name = trim_prefix (txt "*.") (to_lower (trim_last b'.' (trim_space name)))

unfoldable pub permits_dns : NameConstraints → Text → Bool
unfolding base_name dns_within
permits_dns n raw =
    let name = base_name raw in
    if is_empty name
    then false
    else if any (dns_within name) n.excluded_dns
    then false
    else if is_empty n.permitted_dns
    then true
    else any (dns_within name) n.permitted_dns

abbrev pub host_within : Text → Option Text → Bool
host_within constraint none = false
host_within constraint (some host) =
    if has_prefix (txt ".") constraint then has_suffix constraint host else text_eq host constraint

unfoldable pub email_within : Text → Text → Bool
unfolding to_lower trim_space contains cut has_prefix has_suffix text_eq
email_within address raw =
    let constraint = to_lower (trim_space raw) in
    let (local_part, host) = cut b'@' address in
    if is_empty constraint
    then false
    else if contains b'@' constraint
    then text_eq address constraint
    else host_within constraint host

unfoldable pub permits_email : NameConstraints → Text → Bool
unfolding email_within to_lower trim_space
permits_email n raw =
    let address = to_lower (trim_space raw) in
    if is_empty address
    then false
    else if any (email_within address) n.excluded_email
    then false
    else if is_empty n.permitted_email
    then true
    else any (email_within address) n.permitted_email

module _ (networks : Networks) where
  open networks use {Ip, Net, parse_ip, parse_cidr, net_contains}

  unfoldable pub parse_cidrs : List Text → Option (List Net)
  unfolding trim_space
  parse_cidrs [] = some []
  parse_cidrs (raw ∷ values) = elim (parse_cidr (trim_space raw)) [
    | none ↦ none
    | some network ↦ elim (parse_cidrs values) [ none ↦ none | some out ↦ some (network ∷ out) ]
  ]

  -- `Validate`; what fails is not told apart.
  unfoldable pub validate : NameConstraints → Bool
  unfolding contains
  validate n =
      all (λ cidr. elim (parse_cidr cidr) [ none ↦ false | some _ ↦ true ])
        (n.permitted_ip ++ n.excluded_ip)
      && all (λ domain. not (contains b'*' domain || contains b'/' domain || contains b' ' domain))
          (n.permitted_dns ++ n.excluded_dns)

  abbrev pub permits_parsed : Option (List Net) → Option (List Net) → Ip → Bool
  permits_parsed none _ address = false
  permits_parsed (some permitted) none address = false
  permits_parsed (some permitted) (some excluded) address =
      if any (λ network. net_contains network address) excluded
      then false
      else if is_empty permitted
      then true
      else any (λ network. net_contains network address) permitted

  unfoldable pub permits_ip : NameConstraints → Option Ip → Bool
  unfolding parse_cidrs
  permits_ip n none = false
  permits_ip n (some address) =
      permits_parsed (parse_cidrs n.permitted_ip) (parse_cidrs n.excluded_ip) address

  -- One entry, by its type. A URI is not compared with anything.
  unfoldable pub permits_san : NameConstraints → San → Bool
  unfolding permits_dns permits_ip permits_email
  permits_san n san = elim san.type [
    | SanType.dns ↦ permits_dns n san.value
    | SanType.ip ↦ permits_ip n (parse_ip san.value)
    | SanType.email ↦ permits_email n san.value
    | SanType.uri ↦ true
  ]

  -- The loop of `PermitsSANs`: the first entry that fails.
  unfoldable pub first_refused : NameConstraints → SanSet → Option San
  unfolding permits_san
  first_refused n [] = none
  first_refused n (san ∷ sans) = if permits_san n san then first_refused n sans else some san

  unfoldable pub permits_sans : NameConstraints → SanSet → Option San
  unfolding is_zero first_refused
  permits_sans n sans = if is_zero n then none else first_refused n sans
