-- ===== src/Store/Repos/Authorities.antt =====
-- internal/store/repo_pki.go: the repository of authorities, `AuthorityRepo`.
use certio.Prelude.{
  ℕ, Bool, true, false, not, ◌||◌, List, [], ◌∷◌, ◌++◌, none, some, String, str_eq, if◌then◌else◌,
  any, keep, first, zero, suc,
}
use certio.Text.{Text, txt, text_eq}
use certio.Store.{find, has_key, save}
use certio.Store.Models.{Authority}
use certio.Store.Exec.{
  Result, ok, err, not_found, conflict, in_use, World, Exec, pure, fail, try, ◌>>=◌, ◌>>◌, select,
  select_first, write, write_if,
}
use certio.Store.Repos.{authority_key, transaction}

-- The primary key and the slug are unique.
unfoldable pub create : Authority → Exec (Unit {0})
unfolding text_eq
create a =
    write_if
      (λ w.
        not (any (λ row. has_key authority_key a.id row || text_eq row.slug a.slug) w.authorities))
      conflict (λ w. record w { authorities = w.authorities ++ a ∷ [] })

unfoldable pub slug_exists : Text → Exec Bool
unfolding text_eq
slug_exists slug = select (λ w. any (λ a. text_eq a.slug slug) w.authorities)

unfoldable pub update : Authority → Exec (Unit {0})
update a = write (λ w. record w { authorities = save authority_key a w.authorities })

unfoldable pub get : String → Exec Authority
get id = select_first (λ w. find authority_key id w.authorities)

unfoldable pub get_by_slug : String → Exec Authority
get_by_slug slug = select_first (λ w. first (λ a. text_eq a.slug (txt slug)) w.authorities)

abbrev pub or_by_slug : String → Result Authority → Exec Authority
or_by_slug slug (ok a) = pure a
or_by_slug slug (err not_found) = get_by_slug slug
or_by_slug slug (err e) = fail e

-- By id first, then by slug.
unfoldable pub resolve : String → Exec Authority
unfolding get get_by_slug
resolve id_or_slug = do found ← try (get id_or_slug); or_by_slug id_or_slug found

unfoldable pub all : Exec (List Authority)
all = select (λ w. w.authorities)

abbrev no_parent : Authority → Bool
no_parent a = elim a.parent_id [ none ↦ true | some _ ↦ false ]

-- The loop of `Chain`, with the rounds that are left. The walk ends in an error when they are
-- used up, or at a parent that is not there.
unfoldable pub chain_from : ℕ → List Authority → Authority → Exec (List Authority)
unfolding get
chain_from zero chain current = fail conflict
chain_from (suc rounds) chain current = elim current.parent_id [
  | none ↦ pure chain
  | some parent_id ↦ do parent ← get parent_id; chain_from rounds (chain ++ parent ∷ []) parent
]

unfoldable pub chain : Authority → Exec (List Authority)
unfolding chain_from
chain a = chain_from 16 [] a

abbrev is_child_of : String → Authority → Bool
is_child_of id a = elim a.parent_id [ none ↦ false | some parent ↦ str_eq parent id ]

-- `WHERE authority_id = ?` and `WHERE parent_id = ?` of the forced deletion.
abbrev drop_issued : String → World → World
drop_issued id w = record w {
  revocations = keep (λ r. not (str_eq r.authority_id id)) w.revocations;
  certificates = keep (λ c. not (str_eq c.authority_id id)) w.certificates;
  authorities = keep (λ a. not (is_child_of id a)) w.authorities;
}

abbrev drop_authority : String → World → World
drop_authority id w = record w {
  authorities = keep (λ a. not (has_key authority_key id a)) w.authorities;
}

-- Refused while certificates or child authorities refer to the row, unless forced.
unfoldable pub delete : String → Bool → Exec (Unit {0})
unfolding transaction
delete id true = transaction (do write (drop_issued id); write (drop_authority id))
delete id false = do
  certs ← select (λ w. any (λ c. str_eq c.authority_id id) w.certificates)
  if certs then fail in_use else do
    children ← select (λ w. any (is_child_of id) w.authorities)
    if children then fail in_use else write (drop_authority id)
