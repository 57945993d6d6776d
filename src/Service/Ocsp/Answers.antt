-- ===== src/Service/Ocsp/Answers.antt =====
-- internal/service/ocsp.go: the status that is answered, against the one that the tables call for.
use certio.Prelude.{
  ◌≡◌, refl, Bool, true, false, ◌&&◌, List, [], ◌∷◌, Option, none, some, String, str_eq, eq_iff,
  arith, first, first-none, first_holds, ap, ◌∙◌, subst, Option-cases, inl, inr,
}
use certio.Store.{find, find-first}
use certio.Store.Models.{Certificate, Revocation}
use certio.Store.Exec.{
  World, Result, ok, err, driver, fail, pure, ◌>>=◌, try, select_first, query, or_not_found,
}
use certio.Store.Repos.{is_revoked, certificate_key, revocation_key}
use certio.Store.Repos.Certificates
use certio.Store.Repos.Revocations
use certio.Store.Repos.Revocations.{is_of}
use certio.Service.Ocsp.{
  OcspStatus, good, unknown, revoked_at, ocsp_status, status_found, status_of,
}
use certio.Service.Certificates.Invariant.{Sound}

abbrev pub is_serial : String → String → Certificate → Bool
is_serial authority_id serial c =
    str_eq c.authority_id authority_id && str_eq c.serial_number serial

abbrev of_revocation : Option Revocation → OcspStatus
of_revocation none = good
of_revocation (some rev) = revoked_at rev.revoked_at rev.reason_code

-- The answer that the tables call for.
abbrev pub of_certificate : List Revocation → Option Certificate → OcspStatus
of_certificate revs none = unknown
of_certificate revs (some c) = of_revocation (first (is_of c.id) revs)

abbrev pub expected : String → String → List Certificate → List Revocation → OcspStatus
expected authority_id serial certs revs =
    of_certificate revs (first (is_serial authority_id serial) certs)

-- What is returned: the answer that the tables call for, or the driver's error.
abbrev pub Answers : Result OcspStatus → OcspStatus → Type 0
Answers (ok s) want = s ≡ want
Answers (err e) want = e ≡ driver

of_second :
    (w : World) (o : Option Revocation) → Answers (status_of (or_not_found o) w).0 (of_revocation o)
unfolding pure
of_second w none = refl
of_second w (some rev) = refl

second_query :
    (w : World) (fs : List Bool) (o : Option Certificate)
    → Answers
        (status_found (or_not_found o) (record w { faults = fs })).0
        (of_certificate w.revocations o)
unfolding pure fail ◌>>=◌ try Revocations.by_certificate select_first query
second_query w fs none = refl
second_query w [] (some c) = of_second _ (first (is_of c.id) w.revocations)
second_query w (true ∷ fs) (some c) = refl
second_query w (false ∷ fs) (some c) = of_second _ (first (is_of c.id) w.revocations)

first_query :
    (authority_id serial : String) (w : World) (fs : List Bool)
    → w.faults ≡ fs
    → Answers
        (ocsp_status authority_id serial w).0
        (expected authority_id serial w.certificates w.revocations)
unfolding ocsp_status fail ◌>>=◌ try Certificates.get_by_serial select_first query
first_query authority_id serial w [] e =
    rw e (second_query w [] (first (is_serial authority_id serial) w.certificates))
first_query authority_id serial w (true ∷ fs) e = rw e refl
first_query authority_id serial w (false ∷ fs) e =
    rw e (second_query w fs (first (is_serial authority_id serial) w.certificates))

-- The responder returns the answer that the tables call for, or the driver's error.
pub ocsp_status-Answers :
    (authority_id serial : String) (w : World)
    → Answers
        (ocsp_status authority_id serial w).0
        (expected authority_id serial w.certificates w.revocations)
ocsp_status-Answers authority_id serial w = first_query authority_id serial w w.faults refl

third_calm :
    (w : World) (o : Option Revocation) → status_of (or_not_found o) w ≡ (ok (of_revocation o), w)
unfolding pure
third_calm w none = refl
third_calm w (some rev) = refl

second_calm :
    (w : World) (o : Option Certificate)
    → w.faults ≡ []
    → status_found (or_not_found o) w ≡ (ok (of_certificate w.revocations o), w)
unfolding pure ◌>>=◌ try Revocations.by_certificate select_first query
second_calm w none e = refl
second_calm w (some c) e = rw e (third_calm _ (first (is_of c.id) w.revocations))

ocsp_status_total :
    (authority_id serial : String) (w : World)
    → w.faults ≡ []
    → ocsp_status authority_id serial w
      ≡ (ok (expected authority_id serial w.certificates w.revocations), w)
unfolding ocsp_status ◌>>=◌ try Certificates.get_by_serial select_first query
ocsp_status_total authority_id serial w calm =
    rw calm (second_calm _ (first (is_serial authority_id serial) w.certificates) refl)

-- In sound tables, a certificate that reads as revoked is answered with the time and the reason of a
-- revocation of it that is in the table, whatever queries the driver fails, unless the driver's error
-- is returned; where no query fails, it is answered so.
pub ocsp_status-revoked :
    (authority_id serial : String) (w : World) (c : Certificate)
    → Sound w.certificates w.revocations
    → first (is_serial authority_id serial) w.certificates ≡ some c
    → find certificate_key c.id w.certificates ≡ some c
    → is_revoked c.status ≡ true
    → (rev : Revocation) × (rev.certificate_id ≡ c.id)
      × (find revocation_key rev.id w.revocations ≡ some rev)
      × Answers (ocsp_status authority_id serial w).0 (revoked_at rev.revoked_at rev.reason_code)
      × (w.faults ≡ []
          → (ocsp_status authority_id serial w).0 ≡ ok (revoked_at rev.revoked_at rev.reason_code))
ocsp_status-revoked authority_id serial w c s found there is =
    elim (Option-cases (first (is_of c.id) w.revocations)) [
      | inl lost ↦
          absurd (ground (arith, s.recorded c.id c there, first-none (is_of c.id) w.revocations))
      | inr (rev, rec) ↦
          let answer = ocsp_status-Answers authority_id serial w in
          let want = ap (of_certificate w.revocations) found ∙ ap of_revocation rec in
          (
            rev,
            (eq_iff rev.certificate_id c.id).0 (first_holds (is_of c.id) w.revocations rev rec),
            find-first revocation_key (is_of c.id) w.revocations rev s.keys rec,
            subst (Answers (ocsp_status authority_id serial w).0) want answer,
            λ calm. ap (λ r. r.0) (ocsp_status_total authority_id serial w calm) ∙ ap ok want,
          )
    ]
