-- ===== src/Store/Repos/Users.antt =====
-- internal/store/repo_auth.go: the repository of accounts, `UserRepo`.
use certio.Prelude.{
  ℕ, Bool, not, ◌&&◌, ◌||◌, List, [], ◌∷◌, ◌++◌, some, String, str_eq, any, keep, first, length,
  is_empty, if◌then◌else◌,
}
use certio.Text.{Text, text_eq, trim_space, to_lower}
use certio.Store.{find, has_key, save}
use certio.Store.Models.{User}
use certio.Store.Exec.{
  not_found, conflict, World, Exec, fail, ◌>>◌, select, select_first, write, write_if,
}
use certio.Store.Repos.{update_row, transaction}

abbrev pub user_key : User → String
user_key u = u.id

abbrev pub canonical_email : Text → Text
canonical_email email = to_lower (trim_space email)

abbrev pub has_email : Text → User → Bool
has_email email u = text_eq u.email (canonical_email email)

abbrev pub with_users : (List User → List User) → World → World
with_users f w = record w { users = f w.users }

-- The primary key and the address are unique.
unfoldable pub create : User → Exec (Unit {0})
unfolding trim_space to_lower
create u =
    write_if (λ w. not (any (λ row. has_key user_key u.id row || has_email u.email row) w.users))
      conflict (with_users (λ rows. rows ++ record u { email = canonical_email u.email } ∷ []))

unfoldable pub update : User → Exec (Unit {0})
update u = write (with_users (save user_key u))

unfoldable pub get : String → Exec User
get id = select_first (λ w. find user_key id w.users)

unfoldable pub get_by_email : Text → Exec User
unfolding trim_space to_lower
get_by_email email = select_first (λ w. first (has_email email) w.users)

-- The account that an identity belongs to, by the provider's own name for it.
abbrev pub has_oauth : Text → Text → User → Bool
has_oauth provider subject u = text_eq u.oauth_provider provider && text_eq u.oauth_subject subject

unfoldable pub get_by_oauth : Text → Text → Exec User
get_by_oauth provider subject =
    if is_empty provider || is_empty subject
    then fail not_found
    else select_first (λ w. first (has_oauth provider subject) w.users)

-- The account goes with its tokens.
unfoldable pub delete : String → Exec (Unit {0})
unfolding transaction
delete id = transaction (do
  write (λ w. record w { api_tokens = keep (λ t. not (str_eq t.user_id id)) w.api_tokens })
  write_if (λ w. any (has_key user_key id) w.users) not_found
      (with_users (keep (λ u. not (has_key user_key id u)))))

unfoldable pub count : Exec ℕ
count = select (λ w. length w.users)

abbrev pub is_active : User → Bool
is_active u = str_eq u.status "active"

abbrev pub is_admin : User → Bool
is_admin u = str_eq u.role "admin"

abbrev pub is_active_admin : User → Bool
is_active_admin u = is_admin u && is_active u

unfoldable pub count_admins : Exec ℕ
count_admins = select (λ w. length (keep is_active_admin w.users))

unfoldable pub touch_login : ℕ → String → Exec (Unit {0})
unfolding update_row
touch_login now id =
    write (with_users (update_row user_key id (λ u. record u { last_login_at = some now })))
