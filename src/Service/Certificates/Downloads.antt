-- ===== src/Service/Certificates/Downloads.antt =====
-- internal/service/certificate.go: `AuthorizeKeyDownload`.
use certio.Prelude.{ℕ, ◌≡◌, refl, Bool, true, false, some, arith, eq_iff, subst, ◌+◌}
use certio.Store.{find}
use certio.Store.Models.{Certificate}
use certio.Store.Exec.Triple.{
  Pred, IsStable, Triple, Triple-pure, Triple-fail, Triple-bind, Triple-of, Triple-weaken,
  Triple-fact, Triple-fail_if, Triple-write_if, Triple-record_audit,
}
use certio.Store.Repos.{certificate_key, find-update_row}
use certio.Store.Repos.Certificates
use certio.Service.Certificates.{
  once, denied, has_private_key, count_download, refuse, authorize_key_download,
}

-- The row of a certificate's id.
abbrev pub Stored : Certificate → Pred
Stored c w = find certificate_key c.id w.certificates ≡ some c

stored-IsStable : (c : Certificate) → IsStable (Stored c)
stored-IsStable c = record { faults = λ w fs h. h; audit = λ w log h. h }

Triple-refuse :
    (c : Certificate) (b : Bool)
    → Triple (λ _. Unit) (Stored c) (refuse b c.id) (λ _ w. Stored c w × (b ≡ false))
unfolding refuse
Triple-refuse c true =
    Triple-bind (Triple-record_audit (stored-IsStable c) _ _) λ _. Triple-fail _ (λ w h. tt)
Triple-refuse c false = Triple-pure tt (λ w h. (h, refl))

Triple-count :
    (now n : ℕ) (c : Certificate)
    → Triple
        (λ _. Unit)
        (Stored c)
        (Certificates.update_fields c.id (count_download now n))
        (λ _. Stored (count_download now n c))
unfolding Certificates.update_fields
Triple-count now n c =
    Triple-write_if (stored-IsStable c) (λ w h. tt) _ _ _
      λ w _ h. ground (
        arith,
        find-update_row certificate_key c.id (count_download now n) w.certificates c.id (λ x. refl),
        eq_iff c.id c.id,
      )

-- Under the policy `once`, where the copy of a certificate is the row of its id: a download that is
-- allowed is of a certificate with a key and without an earlier download, and the row then counts
-- one, so that every copy read after it is denied.
pub authorize_key_download-once :
    (now : ℕ) (c : Certificate)
    → Triple
        (λ _. Unit)
        (Stored c)
        (authorize_key_download now once c)
        (λ _ w.
          (c.key_download_count ≡ 0)
          × (has_private_key c ≡ true)
          × Stored (count_download now 1 c) w
          × (denied once (count_download now 1 c) ≡ true))
unfolding authorize_key_download
authorize_key_download-once now c = Triple-bind (Triple-refuse c (denied once c)) λ _.
    Triple-fact (λ w h. h.1)
      λ unused. Triple-bind (Triple-fail_if _ _ (λ w h. tt)) λ _.
        Triple-fact (λ w h. h.1)
          λ there.
            let first_one : c.key_download_count ≡ 0 = ground arith in
            Triple-bind (Triple-of (λ w h. h.0.0) (Triple-count now _ c)) λ _.
              Triple-weaken
                (λ a w h. (
                  first_one,
                  ground arith,
                  subst (λ n. Stored (count_download now (n + 1) c) w) first_one h,
                  refl,
                ))
                (Triple-record_audit (stored-IsStable _) _ _)
