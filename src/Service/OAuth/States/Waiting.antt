-- ===== src/Service/OAuth/States/Waiting.antt =====
-- internal/service/oauth.go: a state waits for its answer, through sequences of other sign-ins.
use certio.Prelude.{
  ℕ, ◌-◌, ◌≤◌, ◌<◌, ◌≡◌, refl, ◌⊎◌, inl, inr, Option-cases, Bool, true, false, not, List, [], ◌∷◌,
  Option, none, some, String, str_eq, eq_iff, arith, any, keep, All, Bool-cases, ltb,
}
use certio.Text.{Text}
use certio.Store.{
  find, has_key, delete, find-save, find-delete, HasUniqueKeys, save-HasUniqueKeys,
  keep-HasUniqueKeys,
}
use certio.Store.Models.{OAuthPending, OAuthStates}
use certio.Service.OAuth.States.{
  oauth_state_ttl, state_key, is_expired, collect, remember, issue, redeem,
}

pub data Event : Type 0 where
  issuing : Option String → Option Text → Event
  redeeming : String → Event

unfoldable pub happen : Event → ℕ → OAuthStates → OAuthStates
happen (issuing state verifier) now s = (issue state verifier now s).1
happen (redeeming state) now s = (redeem state now s).1

unfoldable pub run : List (ℕ × Event) → OAuthStates → OAuthStates
unfolding happen
run [] s = s
run ((now, event) ∷ events) s = run events (happen event now s)

-- An event is about other states.
abbrev pub is_other : String → Event → Bool
is_other state (issuing none verifier) = true
is_other state (issuing (some drawn) verifier) = not (str_eq drawn state)
is_other state (redeeming asked) = not (str_eq asked state)

abbrev pub issues : String → Event → Bool
issues state (issuing (some drawn) verifier) = str_eq drawn state
issues state _ = false

-- The state waits, or it was collected because its time had passed before `t`.
abbrev pub Waits : ℕ → OAuthPending → OAuthStates → Type 0
Waits t p s =
    HasUniqueKeys state_key s.entries
    × ((find state_key p.state s.entries ≡ some p)
        ⊎ ((p.expires_at < t) × (find state_key p.state s.entries ≡ none)))

module _ (q : OAuthPending → Bool) (id : String) where
  pub keep-absent :
      (rows : List OAuthPending)
      → find state_key id rows ≡ none
      → find state_key id (keep q rows) ≡ none
  keep-absent [] h = refl
  keep-absent (x ∷ rows) h = ground (arith, keep-absent rows)

  find-absent :
      (rows : List OAuthPending)
      → any (has_key state_key id) rows ≡ false
      → find state_key id rows ≡ none
  find-absent [] h = refl
  find-absent (x ∷ rows) h = ground (arith, find-absent rows)

  find-keep_kept :
      (p : OAuthPending) (rows : List OAuthPending)
      → q p ≡ true
      → find state_key id rows ≡ some p
      → find state_key id (keep q rows) ≡ some p
  find-keep_kept p [] k h = h
  find-keep_kept p (x ∷ rows) k h = ground (arith, find-keep_kept p rows)

  find-keep_dropped :
      (p : OAuthPending) (rows : List OAuthPending)
      → HasUniqueKeys state_key rows
      → q p ≡ false
      → find state_key id rows ≡ some p
      → find state_key id (keep q rows) ≡ none
  find-keep_dropped p [] u k h = refl
  find-keep_dropped p (x ∷ rows) (new, u) k h = ground (
    arith,
    eq_iff (state_key x) id,
    find-absent rows,
    keep-absent rows,
    find-keep_dropped p rows u,
  )

kept-Waits :
    (t now : ℕ) (p : OAuthPending) (s : OAuthStates)
    → now ≤ t
    → Waits t p s
    → Waits t p (record { entries = keep (λ e. not (is_expired now e)) s.entries; last_gc = now })
kept-Waits t now p s early (u, inl there) = (
  keep-HasUniqueKeys state_key _ s.entries u,
  elim (Bool-cases (is_expired now p)) [
    | inl over ↦
        inr (ground arith, find-keep_dropped _ p.state p s.entries u (ground (arith, over)) there)
    | inr waiting ↦ inl (find-keep_kept _ p.state p s.entries (ground (arith, waiting)) there)
  ],
)
kept-Waits t now p s early (u, inr (over, gone)) =
    (keep-HasUniqueKeys state_key _ s.entries u, inr (over, keep-absent _ p.state s.entries gone))

collect-Waits :
    (t now : ℕ) (p : OAuthPending) (s : OAuthStates)
    → now ≤ t
    → Waits t p s
    → Waits t p (collect now s)
unfolding collect
collect-Waits t now p s early h = elim (Bool-cases (ltb (now - s.last_gc) oauth_state_ttl)) [
  | inl later ↦ rw later h
  | inr due ↦ rw due (kept-Waits t now p s early h)
]

remember-Waits :
    (t : ℕ) (p other : OAuthPending) (s : OAuthStates)
    → str_eq other.state p.state ≡ false
    → Waits t p s
    → Waits t p (remember other s)
remember-Waits t p other s differs (u, inl there) = (
  save-HasUniqueKeys state_key other s.entries u,
  inl (ground (arith, find-save state_key other s.entries p.state)),
)
remember-Waits t p other s differs (u, inr (over, gone)) = (
  save-HasUniqueKeys state_key other s.entries u,
  inr (over, ground (arith, find-save state_key other s.entries p.state)),
)

forget-Waits :
    (t : ℕ) (p : OAuthPending) (state : String) (s : OAuthStates)
    → str_eq state p.state ≡ false
    → Waits t p s
    → Waits t p (record s { entries = delete state_key state s.entries })
forget-Waits t p state s differs (u, inl there) = (
  keep-HasUniqueKeys state_key _ s.entries u,
  inl (ground (arith, find-delete state_key state s.entries p.state)),
)
forget-Waits t p state s differs (u, inr (over, gone)) = (
  keep-HasUniqueKeys state_key _ s.entries u,
  inr (over, ground (arith, find-delete state_key state s.entries p.state)),
)

redeem-Waits :
    (t now : ℕ) (p : OAuthPending) (state : String) (s : OAuthStates)
    → str_eq state p.state ≡ false
    → Waits t p s
    → Waits t p (redeem state now s).1
unfolding redeem
redeem-Waits t now p state s differs h = elim (Bool-cases (str_eq state "")) [
  | inl unnamed ↦ rw unnamed h
  | inr named ↦ rw named (elim (Option-cases (find state_key state s.entries)) [
    | inl none_there ↦ rw none_there h
    | inr (e, there) ↦ rw there (forget-Waits t p state s differs h)
  ])
]

happen-Waits :
    (t now : ℕ) (p : OAuthPending) (event : Event) (s : OAuthStates)
    → now ≤ t
    → is_other p.state event ≡ true
    → Waits t p s
    → Waits t p (happen event now s)
unfolding happen issue
happen-Waits t now p (issuing none verifier) s early other h = h
happen-Waits t now p (issuing (some drawn) none) s early other h = h
happen-Waits t now p (issuing (some drawn) (some verifier)) s early other h =
    remember-Waits t p _ (collect now s) (ground (arith, other)) (collect-Waits t now p s early h)
happen-Waits t now p (redeeming asked) s early other h =
    redeem-Waits t now p asked s (ground (arith, other)) h

-- Events up to a time, about other states.
abbrev pub Before : ℕ → String → List (ℕ × Event) → Type 0
Before t state = All (λ e. (e.0 ≤ t) × (is_other state e.1 ≡ true))

pub run-Waits :
    (t : ℕ) (p : OAuthPending) (events : List (ℕ × Event)) (s : OAuthStates)
    → Before t p.state events
    → Waits t p s
    → Waits t p (run events s)
unfolding run
run-Waits t p [] s others h = h
run-Waits t p ((now, event) ∷ events) s ((early, other), others) h =
    run-Waits t p events _ others (happen-Waits t now p event s early other h)
