-- ===== src/Pki/San/Sets.antt =====
-- internal/pki/san.go: sets of Subject Alternative Names, `Add` and `ParseSANList`.
use certio.Prelude.{
  ◌≡◌, refl, inl, inr, Bool, true, false, List, [], ◌∷◌, ◌++◌, arith, some, Bool-cases,
  Option-cases, any, all, All, subst, any-append, all-append,
}
use certio.Text.{Text, text_eq_refl, to_lower}
use certio.Pki.San.{
  SanType, dns, San, SanSet, Parsers, type_eq, equal_fold, same, add, parse_san, validate_san,
  parse_fields,
}

-- No entry of the set is the same, but for the case of its letters, as a later one.
abbrev pub IsUnique : SanSet → Type 0
IsUnique [] = Unit
IsUnique (x ∷ xs) = (any (λ later. same x later) xs ≡ false) × IsUnique xs

-- An entry is in the set, but for the case of its letters.
abbrev pub covers : SanSet → San → Bool
covers s entry = any (λ existing. same existing entry) s

type_eq_refl : (t : SanType) → type_eq t t ≡ true
type_eq_refl dns = refl
type_eq_refl _ = refl

same_refl : (a : San) → same a a ≡ true
unfolding equal_fold
same_refl a = ground (arith, type_eq_refl a.type, text_eq_refl (to_lower a.value))

IsUnique-append :
    (xs : SanSet) (e : San) → IsUnique xs → covers xs e ≡ false → IsUnique (xs ++ e ∷ [])
IsUnique-append [] e h k = (refl, tt)
IsUnique-append (x ∷ xs) e (h, hs) k = (
  ground (arith, any-append (λ later. same x later) xs (e ∷ [])),
  IsUnique-append xs e hs (ground arith),
)

-- `Add` keeps a set free of repetitions.
pub add-IsUnique : (s : SanSet) (e : San) → IsUnique s → IsUnique (add s e)
unfolding add
add-IsUnique s e h = elim (Bool-cases (covers s e)) [
  | inl old ↦ rw old h
  | inr new ↦ rw new (IsUnique-append s e h new)
]

-- After `Add` the set has the entry.
pub covers-add : (s : SanSet) (e : San) → covers (add s e) e ≡ true
unfolding add
covers-add s e = ground (arith, any-append (λ existing. same existing e) s (e ∷ []), same_refl e)

-- `Add` loses no entry.
pub covers-add_mono : (s : SanSet) (e a : San) → covers s a ≡ true → covers (add s e) a ≡ true
unfolding add
covers-add_mono s e a h = ground (arith, any-append (λ existing. same existing a) s (e ∷ []))

-- Adding an entry a second time changes nothing.
add_idempotent : (s : SanSet) (e : San) → add (add s e) e ≡ add s e
unfolding add
add_idempotent s e =
    ground (arith, any-append (λ existing. same existing e) s (e ∷ []), same_refl e)

module _ (parsers : Parsers) where
  -- What `ParseSAN` returns has passed `Validate`.
  pub parse_san-valid :
      (raw : Text) (e : San) → parse_san parsers raw ≡ some e → validate_san parsers e ≡ true
  unfolding parse_san
  parse_san-valid raw e h = ground arith

  validate-add :
      (s : SanSet) (e : San)
      → all (validate_san parsers) s ≡ true
      → validate_san parsers e ≡ true
      → all (validate_san parsers) (add s e) ≡ true
  unfolding add
  validate-add s e h k = ground (arith, all-append (validate_san parsers) s (e ∷ []))

  -- Every field was parsed, and its entry is in the set.
  abbrev pub Covered : SanSet → Text → Type 0
  Covered set f = (e : San) × (parse_san parsers f ≡ some e) × (covers set e ≡ true)

  parse_fields-covers :
      (acc : SanSet) (fs : List Text) (set : SanSet) (a : San)
      → parse_fields parsers acc fs ≡ some set
      → covers acc a ≡ true
      → covers set a ≡ true
  unfolding parse_fields
  parse_fields-covers acc [] set a h k = ground arith
  parse_fields-covers acc (f ∷ fs) set a h k = elim (Option-cases (parse_san parsers f)) [
    | inl bad ↦ absurd (cc (rw (bad, parse_fields) at h))
    | inr (e, good) ↦
        parse_fields-covers (add acc e) fs set a (rw (good, parse_fields) at h)
          (covers-add_mono acc e a k)
  ]

  parse_fields_sound :
      (acc : SanSet) (fs : List Text) (set : SanSet)
      → parse_fields parsers acc fs ≡ some set
      → IsUnique acc
      → all (validate_san parsers) acc ≡ true
      → IsUnique set × (all (validate_san parsers) set ≡ true) × All (Covered set) fs
  unfolding parse_fields
  parse_fields_sound acc [] set h u v =
      (let e : acc ≡ set = cc in subst IsUnique e u, ground arith, tt)
  parse_fields_sound acc (f ∷ fs) set h u v = elim (Option-cases (parse_san parsers f)) [
    | inl bad ↦ absurd (cc (rw (bad, parse_fields) at h))
    | inr (e, good) ↦
        let h' : parse_fields parsers (add acc e) fs ≡ some set = rw (good, parse_fields) at h in
        let (unique, valid, covered) =
          parse_fields_sound (add acc e) fs set h' (add-IsUnique acc e u)
            (validate-add acc e v (parse_san-valid f e good)) in
        (
          unique,
          valid,
          ((e, good, parse_fields-covers (add acc e) fs set e h' (covers-add acc e)), covered),
        )
  ]

  -- A list that parses gives a set with no repetition, in which every entry has passed `Validate`
  -- and which has an entry for every field of the list.
  parse_fields_result :
      (fs : List Text) (set : SanSet)
      → parse_fields parsers [] fs ≡ some set
      → IsUnique set × (all (validate_san parsers) set ≡ true) × All (Covered set) fs
  parse_fields_result fs set h = parse_fields_sound [] fs set h tt refl
