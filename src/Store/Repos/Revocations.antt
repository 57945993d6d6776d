-- ===== src/Store/Repos/Revocations.antt =====
-- internal/store/repo_pki.go: the repository of revocations, `RevocationRepo`.
use certio.Prelude.{Bool, not, ◌||◌, List, [], ◌∷◌, ◌++◌, String, str_eq, any, keep, first}
use certio.Store.{has_key}
use certio.Store.Models.{Revocation}
use certio.Store.Exec.{not_found, conflict, Exec, select, select_first, write_if}
use certio.Store.Repos.{revocation_key, order_by}

abbrev pub is_of : String → Revocation → Bool
is_of certificate_id r = str_eq r.certificate_id certificate_id

-- The primary key and the index on the certificate are unique.
unfoldable pub create : Revocation → Exec (Unit {0})
create rev =
    write_if
      (λ w.
        not
          (any (λ r. has_key revocation_key rev.id r || is_of rev.certificate_id r) w.revocations))
      conflict (λ w. record w { revocations = w.revocations ++ rev ∷ [] })

unfoldable pub by_authority : String → Exec (List Revocation)
unfolding order_by
by_authority authority_id = select (λ w.
    order_by (λ r. r.revoked_at) (keep (λ r. str_eq r.authority_id authority_id) w.revocations))

unfoldable pub by_certificate : String → Exec Revocation
by_certificate certificate_id = select_first (λ w. first (is_of certificate_id) w.revocations)

unfoldable pub delete : String → Exec (Unit {0})
delete id =
    write_if (λ w. any (has_key revocation_key id) w.revocations) not_found
      (λ w. record w { revocations = keep (λ r. not (has_key revocation_key id r)) w.revocations })
