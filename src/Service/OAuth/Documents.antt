-- ===== src/Service/OAuth/Documents.antt =====
-- internal/service/oauth.go: the document that describes who signs in. The numbers of JSON and their
-- text, and the words that `strconv.ParseBool` reads, are arguments.
use certio.Prelude.{Bool, false, List, [], ◌∷◌, Option, none, some, if◌then◌else◌, is_empty}
use certio.Text.{Text, txt, text_eq, split, trim_space}

mutual
  pub data Json (N : Type 0) : Type 0 where
    null : Json N
    flag : Bool → Json N
    number : N → Json N
    text : Text → Json N
    array : Items N → Json N
    object : Fields N → Json N

  pub data Items (N : Type 0) : Type 0 where
    nil : Items N
    cons : Json N → Items N → Items N

  pub data Fields (N : Type 0) : Type 0 where
    end : Fields N
    field : Text → Json N → Fields N → Fields N

module _ {N : Type 0} where
  unfoldable pub member : Text → Fields N → Option (Json N)
  unfolding text_eq
  member name end = none
  member name (field key value fields) = if text_eq key name then some value else member name fields

  abbrev pub member_of : Text → Json N → Option (Json N)
  member_of name (object fields) = member name fields
  member_of name _ = none

  -- What stands at a path of names.
  unfoldable pub walk : List Text → Option (Json N) → Option (Json N)
  walk names none = none
  walk [] (some value) = some value
  walk (name ∷ names) (some value) = walk names (member_of name value)

  abbrev not_null : Option (Json N) → Option (Json N)
  not_null (some null) = none
  not_null found = found

  unfoldable pub oauth_lookup : Fields N → Text → Option (Json N)
  unfolding walk member split
  oauth_lookup document path =
      let (name, names) = split b'.' path in
      if is_empty path then none else not_null (walk (name ∷ names) (some (object document)))

  module _ (format_number : N → Text) (parse_bool : Text → Option Bool) where
    abbrev text_of : Option (Json N) → Text
    text_of (some (text s)) = trim_space s
    text_of (some (number n)) = format_number n
    text_of (some (flag b)) = if b then txt "true" else txt "false"
    text_of _ = []

    unfoldable pub oauth_string : Fields N → Text → Text
    unfolding oauth_lookup trim_space
    oauth_string document path = text_of (oauth_lookup document path)

    abbrev is_true : Option Bool → Bool
    is_true (some b) = b
    is_true none = false

    unfoldable pub oauth_bool : Json N → Bool
    oauth_bool (flag b) = b
    oauth_bool (text s) = is_true (parse_bool s)
    oauth_bool _ = false
