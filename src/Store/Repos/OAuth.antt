-- ===== src/Store/Repos/OAuth.antt =====
-- internal/store/repo_auth.go: the repository of the identity provider, `OAuthRepo`. The rows of the
-- table stand in the order in which they were created.
use certio.Prelude.{Bool, true, false, List, [], ◌∷◌, Option, none, some, String, if◌then◌else◌}
use certio.Store.{save}
use certio.Store.Models.{OAuthProvider}
use certio.Store.Exec.{
  Err, Result, ok, err, not_found, Exec, pure, fail, try, ◌>>=◌, ◌>>◌, select_first, write,
}

abbrev pub provider_key : OAuthProvider → String
provider_key p = p.id

abbrev pub first_provider : List OAuthProvider → Option OAuthProvider
first_provider [] = none
first_provider (p ∷ rows) = some p

unfoldable pub get : Exec OAuthProvider
get = select_first (λ w. first_provider w.oauth_providers)

abbrev pub is_not_found : Err → Bool
is_not_found not_found = true
is_not_found _ = false

abbrev put : OAuthProvider → Exec OAuthProvider
put p = do write (λ w. record w { oauth_providers = save provider_key p w.oauth_providers }); pure p

-- The one row keeps its id; a row that is not there is made.
abbrev pub save_over : OAuthProvider → Result OAuthProvider → Exec OAuthProvider
save_over p (ok existing) = put (record p { id = existing.id })
save_over p (err e) = if is_not_found e then put p else fail e

unfoldable pub save_provider : OAuthProvider → Exec OAuthProvider
unfolding get
save_provider p = do existing ← try get; save_over p existing

unfoldable pub delete : Exec (Unit {0})
delete = write (λ w. record w { oauth_providers = [] })
