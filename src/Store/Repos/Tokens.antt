-- ===== src/Store/Repos/Tokens.antt =====
-- internal/store/repo_auth.go: the repository of API tokens, `TokenRepo`.
use certio.Prelude.{ℕ, Bool, not, ◌||◌, List, [], ◌∷◌, ◌++◌, some, String, str_eq, any, keep, first}
use certio.Text.{Text, text_eq}
use certio.Store.{find, has_key}
use certio.Store.Models.{ApiToken}
use certio.Store.Exec.{not_found, conflict, World, Exec, select, select_first, write, write_if}
use certio.Store.Repos.{update_row}

abbrev pub token_key : ApiToken → String
token_key t = t.id

abbrev pub has_hash : Text → ApiToken → Bool
has_hash hash t = text_eq t.token_hash hash

abbrev pub with_tokens : (List ApiToken → List ApiToken) → World → World
with_tokens f w = record w { api_tokens = f w.api_tokens }

-- The primary key and the digest are unique.
unfoldable pub create : ApiToken → Exec (Unit {0})
create t =
    write_if
      (λ w. not (any (λ row. has_key token_key t.id row || has_hash t.token_hash row) w.api_tokens))
      conflict (with_tokens (λ rows. rows ++ t ∷ []))

unfoldable pub get : String → Exec ApiToken
get id = select_first (λ w. find token_key id w.api_tokens)

unfoldable pub get_by_hash : Text → Exec ApiToken
get_by_hash hash = select_first (λ w. first (has_hash hash) w.api_tokens)

unfoldable pub by_user : String → Exec (List ApiToken)
by_user user_id = select (λ w. keep (λ t. str_eq t.user_id user_id) w.api_tokens)

unfoldable pub touch_used : ℕ → String → Exec (Unit {0})
unfolding update_row
touch_used now id =
    write (with_tokens (update_row token_key id (λ t. record t { last_used_at = some now })))

unfoldable pub revoke : ℕ → String → Exec (Unit {0})
unfolding update_row
revoke now id =
    write_if (λ w. any (has_key token_key id) w.api_tokens) not_found
      (with_tokens (update_row token_key id (λ t. record t { revoked_at = some now })))

unfoldable pub delete : String → Exec (Unit {0})
delete id =
    write_if (λ w. any (has_key token_key id) w.api_tokens) not_found
      (with_tokens (keep (λ t. not (has_key token_key id t))))
