-- ===== src/Store/Repos/Certificates.antt =====
-- internal/store/repo_pki.go: the repository of certificates, `CertificateRepo`.
use certio.Prelude.{
  ℕ, ◌+◌, ◌*◌, Bool, not, ◌&&◌, ◌||◌, List, [], ◌∷◌, ◌++◌, String, str_eq, any, keep, first, ltb,
  leb,
}
use certio.Store.{find, has_key, save}
use certio.Store.Models.{Authority, Certificate}
use certio.Store.Exec.{
  not_found, conflict, World, Exec, pure, ◌>>=◌, ◌>>◌, select, select_first, write, write_if,
}
use certio.Store.Repos.{
  is_revoked, certificate_key, authority_key, order_by, update_row, transaction,
}

abbrev same_serial : Certificate → Certificate → Bool
same_serial a b = str_eq a.authority_id b.authority_id && str_eq a.serial_number b.serial_number

abbrev pub with_certificates : (List Certificate → List Certificate) → World → World
with_certificates f w = record w { certificates = f w.certificates }

-- The primary key and the index on authority and serial number are unique.
unfoldable pub create : Certificate → Exec (Unit {0})
create c =
    write_if
      (λ w. not (any (λ row. has_key certificate_key c.id row || same_serial row c) w.certificates))
      conflict (with_certificates (λ rows. rows ++ c ∷ []))

unfoldable pub update : Certificate → Exec (Unit {0})
update c = write (with_certificates (save certificate_key c))

unfoldable pub update_fields : String → (Certificate → Certificate) → Exec (Unit {0})
unfolding update_row
update_fields id f =
    write_if (λ w. any (has_key certificate_key id) w.certificates) not_found
      (with_certificates (update_row certificate_key id f))

unfoldable pub get : String → Exec Certificate
get id = select_first (λ w. find certificate_key id w.certificates)

unfoldable pub get_with_authority : String → Exec (Certificate × Authority)
unfolding get
get_with_authority id = do
  cert ← get id
  ca ← select_first (λ w. find authority_key cert.authority_id w.authorities)
  pure (cert, ca)

unfoldable pub get_by_fingerprint : String → Exec Certificate
get_by_fingerprint fingerprint =
    select_first (λ w. first (λ c. str_eq c.fingerprint fingerprint) w.certificates)

unfoldable pub get_by_serial : String → String → Exec Certificate
get_by_serial authority_id serial = select_first (λ w.
    first (λ c. str_eq c.authority_id authority_id && str_eq c.serial_number serial) w.certificates)

unfoldable pub expiring_before : ℕ → Exec (List Certificate)
unfolding order_by
expiring_before cutoff = select (λ w.
    order_by (λ c. c.not_after)
      (keep (λ c. not (is_revoked c.status) && leb c.not_after cutoff) w.certificates))

abbrev pub day : ℕ
day = 86400

abbrev pub is_due : ℕ → Certificate → Bool
is_due now c = ltb c.not_after (now + c.renew_before_days * day)

unfoldable pub due_for_auto_renew : ℕ → Exec (List Certificate)
unfolding order_by
due_for_auto_renew now = do
  items ← select (λ w.
      order_by (λ c. c.not_after)
        (keep (λ c. c.auto_renew && not (is_revoked c.status)) w.certificates))
  pure (keep (is_due now) items)

unfoldable pub delete : String → Exec (Unit {0})
unfolding transaction
delete id = transaction (do
  write (λ w. record w { revocations = keep (λ r. not (str_eq r.certificate_id id)) w.revocations })
  write_if (λ w. any (has_key certificate_key id) w.certificates) not_found
      (with_certificates (keep (λ c. not (has_key certificate_key id c)))))
