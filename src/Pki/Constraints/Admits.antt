-- ===== src/Pki/Constraints/Admits.antt =====
-- internal/pki/constraints.go: what the constraints of an authority ask of one entry, `PermitsIP` and
-- `PermitsEmail`.
use certio.Prelude.{
  ◌≡◌, ◌≢◌, ◌↔◌, ◌⊎◌, true, false, List, [], Option, arith, none, some, any_iff, Exists, refl,
}
use certio.Text.{Text, txt, text_eq_iff, to_lower, trim_space, contains, cut, has_prefix}
use certio.Pki.San.{San, SanType}
use certio.Pki.Constraints.{
  NameConstraints, Networks, base_name, email_within, host_within, permits_email, parse_cidrs,
  permits_parsed, permits_ip, permits_san,
}
use certio.Pki.Constraints.Within.{EndsIn, has_suffix_iff}
use certio.Pki.Constraints.Permits.{AdmitsDns, permits_dns_iff}

-- The host is in the domain of a constraint that begins with a dot, or is that of the constraint.
abbrev pub WithinHost : Text → Option Text → Type 0
WithinHost constraint none = ⊥
WithinHost constraint (some host) =
    ((has_prefix (txt ".") constraint ≡ true) × EndsIn constraint host)
    ⊎ ((has_prefix (txt ".") constraint ≡ false) × (host ≡ constraint))

-- A constraint with an `@` is one address; any other is of the host behind the first `@`.
abbrev pub WithinEmail : Text → Text → Type 0
WithinEmail address constraint =
    (constraint ≢ [])
    × (((contains b'@' constraint ≡ true) × (address ≡ constraint))
        ⊎ ((contains b'@' constraint ≡ false) × WithinHost constraint (cut b'@' address).1))

host_within_iff :
    (constraint : Text) (host : Option Text)
    → (host_within constraint host ≡ true) ↔ WithinHost constraint host
host_within_iff constraint none = ground arith
host_within_iff constraint (some host) =
    ground (arith, has_suffix_iff constraint host, text_eq_iff host constraint)

email_within_iff :
    (address raw : Text)
    → (email_within address raw ≡ true) ↔ WithinEmail address (to_lower (trim_space raw))
unfolding email_within
email_within_iff address raw =
    let constraint : Text = to_lower (trim_space raw) in
    ground (arith, text_eq_iff address constraint, host_within_iff constraint (cut b'@' address).1)

-- An address is in no excluded constraint, and in a permitted one if any is listed.
abbrev pub AdmitsEmail : NameConstraints → Text → Type 0
AdmitsEmail n address =
    (address ≢ [])
    × ¬ (Exists (λ c. WithinEmail address (to_lower (trim_space c))) n.excluded_email)
    × ((n.permitted_email ≡ [])
        ⊎ Exists (λ c. WithinEmail address (to_lower (trim_space c))) n.permitted_email)

permits_email_iff :
    (n : NameConstraints) (raw : Text)
    → (permits_email n raw ≡ true) ↔ AdmitsEmail n (to_lower (trim_space raw))
unfolding permits_email
permits_email_iff n raw =
    let address : Text = to_lower (trim_space raw) in
    let decided =
      any_iff {p = email_within address} {P = λ c. WithinEmail address (to_lower (trim_space c))}
        (email_within_iff address) in
    ground (arith, decided n.excluded_email, decided n.permitted_email)

module _ (networks : Networks) where
  open networks use {Ip, Net, parse_ip, net_contains}

  abbrev Contains : Ip → Net → Type 0
  Contains address network = net_contains network address ≡ true

  -- An address is read, and so are all networks; it is in no excluded one, and in a permitted one if
  -- any is listed.
  abbrev pub InNetworks : Option (List Net) → Option (List Net) → Ip → Type 0
  InNetworks none excluded address = ⊥
  InNetworks (some permitted) none address = ⊥
  InNetworks (some permitted) (some excluded) address =
      ¬ (Exists (Contains address) excluded)
      × ((permitted ≡ []) ⊎ Exists (Contains address) permitted)

  abbrev pub AdmitsIp : NameConstraints → Option Ip → Type 0
  AdmitsIp n none = ⊥
  AdmitsIp n (some address) =
      InNetworks (parse_cidrs networks n.permitted_ip) (parse_cidrs networks n.excluded_ip) address

  permits_parsed_iff :
      (permitted excluded : Option (List Net)) (address : Ip)
      → (permits_parsed networks permitted excluded address ≡ true)
        ↔ InNetworks permitted excluded address
  permits_parsed_iff none excluded address = ground arith
  permits_parsed_iff (some permitted) none address = ground arith
  permits_parsed_iff (some permitted) (some excluded) address =
      let decided =
        any_iff {p = λ network. net_contains network address} {P = Contains address}
          (λ network. (λ h. h, λ h. h)) in
      ground (arith, decided excluded, decided permitted)

  permits_ip_iff :
      (n : NameConstraints) (address : Option Ip)
      → (permits_ip networks n address ≡ true) ↔ AdmitsIp n address
  unfolding permits_ip
  permits_ip_iff n none = ground arith
  permits_ip_iff n (some address) = permits_parsed_iff _ _ address

  -- What the constraints ask of a value of a type: nothing of a URI.
  abbrev AdmitsAs : NameConstraints → SanType → Text → Type 0
  AdmitsAs n SanType.dns value = AdmitsDns n (base_name value)
  AdmitsAs n SanType.ip value = AdmitsIp n (parse_ip value)
  AdmitsAs n SanType.email value = AdmitsEmail n (to_lower (trim_space value))
  AdmitsAs n SanType.uri value = Unit

  abbrev pub Admits : NameConstraints → San → Type 0
  Admits n san = AdmitsAs n san.type san.value

  permits_as_iff :
      (n : NameConstraints) (type : SanType) (value : Text)
      → (permits_san networks n (record { type = type; value = value }) ≡ true)
        ↔ AdmitsAs n type value
  unfolding permits_san
  permits_as_iff n SanType.dns value = permits_dns_iff n value
  permits_as_iff n SanType.ip value = permits_ip_iff n (parse_ip value)
  permits_as_iff n SanType.email value = permits_email_iff n value
  permits_as_iff n SanType.uri value = (λ h. tt, λ h. refl)

  pub permits_san_iff :
      (n : NameConstraints) (san : San) → (permits_san networks n san ≡ true) ↔ Admits n san
  permits_san_iff n san = permits_as_iff n san.type san.value
