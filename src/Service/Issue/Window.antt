-- ===== src/Service/Issue/Window.antt =====
-- internal/service/certificate.go: the renewal window that `persistCertificate` chooses.
use certio.Prelude.{ℕ, ◌+◌, ◌-◌, ◌*◌, ◌/◌, ◌≡◌, ◌≤◌, ◌<◌, true, false, arith, Option, String}
use certio.Text.{Text}
use certio.Store.Repos.Certificates.{day, is_due}
use certio.Service.Issue.{renewal_window, Signed, IssueInput, validity_days_of, certificate_row}

-- Of a certificate of at least a day that renews by itself, the window is at least a day and no
-- longer than its life, and shorter than it from two days on.
renewal_window-bounds :
    (validity_days requested : ℕ)
    → 1 ≤ validity_days
    → (1 ≤ renewal_window true validity_days requested)
      × (renewal_window true validity_days requested ≤ validity_days)
      × (2 ≤ validity_days → renewal_window true validity_days requested < validity_days)
unfolding renewal_window
renewal_window-bounds validity_days requested h = ground arith

days_within : (a b d : ℕ) → d ≤ (b - a) / day → 1 ≤ d → a + d * day ≤ b
days_within a b d h pos = omega arith

-- A certificate of at least a day that renews by itself is not due when it starts to be valid.
certificate_row-not_due :
    (new_id ca_id : String) (inferred : Text) (cert : Signed) (key : Option Text)
    (input : IssueInput) (from : Option String)
    → input.auto_renew ≡ true
    → 1 ≤ validity_days_of cert
    → is_due cert.not_before (certificate_row new_id ca_id inferred cert key input from) ≡ false
unfolding certificate_row validity_days_of
certificate_row-not_due new_id ca_id inferred cert key input from auto lives =
    let bounds = renewal_window-bounds (validity_days_of cert) input.renew_before_days lives in
    rw auto (
      ground (
        arith,
        days_within cert.not_before cert.not_after
            (renewal_window true (validity_days_of cert) input.renew_before_days),
      ))

one_whole_day : (n : ℕ) → (n + day - n) / day ≡ 1
one_whole_day n = omega arith

-- A certificate of one day exactly that renews by itself is due from the second after its start:
-- the half of its life is no whole day, so the window is all of it.
pub one_day-due :
    (new_id ca_id : String) (inferred : Text) (cert : Signed) (key : Option Text)
    (input : IssueInput) (from : Option String) (now : ℕ)
    → input.auto_renew ≡ true
    → cert.not_after ≡ cert.not_before + day
    → cert.not_before < now
    → is_due now (certificate_row new_id ca_id inferred cert key input from) ≡ true
unfolding certificate_row validity_days_of renewal_window
one_day-due new_id ca_id inferred cert key input from now auto life later =
    rw (auto, life) (ground (arith, one_whole_day cert.not_before))
