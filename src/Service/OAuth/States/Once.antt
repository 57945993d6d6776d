-- ===== src/Service/OAuth/States/Once.antt =====
-- internal/service/oauth.go: a state is answered once, in its time, through sequences of sign-ins.
use certio.Prelude.{
  ℕ, ◌+◌, ◌≡◌, inl, inr, false, not, List, [], ◌∷◌, none, some, String, str_eq, eq_iff, arith, any,
  if◌then◌else◌, ltb,
}
use certio.Text.{Text}
use certio.Store.{
  find, find-save, find-delete, HasUniqueKeys, save-HasUniqueKeys, keep-HasUniqueKeys,
}
use certio.Store.Models.{OAuthPending, OAuthStates}
use certio.Service.OAuth.States.{
  oauth_state_ttl, state_key, is_expired, collect, remember, issue, redeem,
}
use certio.Service.OAuth.States.Waiting.{
  Event, issuing, redeeming, happen, run, issues, Waits, Before, keep-absent, run-Waits,
}

redeemed :
    (t : ℕ) (p : OAuthPending) (s : OAuthStates)
    → str_eq p.state "" ≡ false
    → Waits t p s
    → ((redeem p.state t s).0 ≡ (if is_expired t p then none else some p.verifier))
      × (find state_key p.state (redeem p.state t s).1.entries ≡ none)
unfolding redeem
redeemed t p s named (u, inl there) =
    ground (arith, there, find-delete state_key p.state s.entries p.state, eq_iff p.state p.state)
redeemed t p s named (u, inr (over, gone)) = ground (arith, gone)

-- A state that is not there.
abbrev IsGone : String → OAuthStates → Type 0
IsGone state s = find state_key state s.entries ≡ none

happen-IsGone :
    (state : String) (now : ℕ) (event : Event) (s : OAuthStates)
    → issues state event ≡ false
    → IsGone state s
    → IsGone state (happen event now s)
unfolding happen issue redeem collect
happen-IsGone state now (issuing none verifier) s new h = h
happen-IsGone state now (issuing (some drawn) none) s new h = h
happen-IsGone state now (issuing (some drawn) (some verifier)) s new h = ground (
  arith,
  find-save state_key
      (record { state = drawn; verifier = verifier; expires_at = now + oauth_state_ttl })
      (collect now s).entries state,
  keep-absent (λ e. not (is_expired now e)) state s.entries,
)
happen-IsGone state now (redeeming asked) s new h =
    ground (arith, find-delete state_key asked s.entries state)

run-IsGone :
    (state : String) (events : List (ℕ × Event)) (s : OAuthStates)
    → any (λ e. issues state e.1) events ≡ false
    → IsGone state s
    → IsGone state (run events s)
unfolding run
run-IsGone state [] s new h = h
run-IsGone state ((now, event) ∷ events) s new h =
    run-IsGone state events _ (ground (arith, new))
      (happen-IsGone state now event s (ground (arith, new)) h)

collect-HasUniqueKeys :
    (now : ℕ) (s : OAuthStates)
    → HasUniqueKeys state_key s.entries
    → HasUniqueKeys state_key (collect now s).entries
unfolding collect
collect-HasUniqueKeys now s u =
    ground (arith, keep-HasUniqueKeys state_key (λ e. not (is_expired now e)) s.entries u)

issued :
    (t now : ℕ) (p : OAuthPending) (s : OAuthStates)
    → HasUniqueKeys state_key s.entries
    → Waits t p (remember p (collect now s))
issued t now p s u = (
  save-HasUniqueKeys state_key p _ (collect-HasUniqueKeys now s u),
  inl (
      ground
        (arith, find-save state_key p (collect now s).entries p.state, eq_iff p.state p.state)),
)

unanswered :
    (state : String) (later : ℕ) (s : OAuthStates)
    → IsGone state s
    → (redeem state later s).0 ≡ none
unfolding redeem
unanswered state later s h = ground (arith, h)

-- Where the states of the pending sign-ins differ: a state that was issued and has a name is answered
-- with its verifier up to ten minutes later, and with nothing after that, whatever sign-ins under
-- other states begin, end or are collected in between; and once it was asked for, it is never
-- answered again, unless it is issued again.
pub redeem_once :
    (state : String) (verifier : Text) (now t later : ℕ) (before after : List (ℕ × Event))
    (s : OAuthStates)
    → HasUniqueKeys state_key s.entries
    → str_eq state "" ≡ false
    → Before t state before
    → any (λ e. issues state e.1) after ≡ false
    → ((redeem state t (run before (issue (some state) (some verifier) now s).1)).0
        ≡ (if ltb (now + oauth_state_ttl) t then none else some verifier))
      × ((redeem state later (
            run after
              (redeem state t (run before (issue (some state) (some verifier) now s).1)).1)).0
          ≡ none)
unfolding issue
redeem_once state verifier now t later before after s u named others new =
    let p : OAuthPending = record {
      state = state;
      verifier = verifier;
      expires_at = now + oauth_state_ttl;
    } in
    let answer = redeemed t p _ named (run-Waits t p before _ others (issued t now p s u)) in
    (answer.0, unanswered state later _ (run-IsGone state after _ new answer.1))
