-- ===== src/Service/Acme/Nonces.antt =====
-- internal/store/repo_acme.go: `IssueNonce`, `SpendNonce` and `PruneNonces` in sequences of events.
use certio.Prelude.{
  ℕ, ◌≡◌, refl, Bool, true, false, not, List, [], ◌∷◌, String, str_eq, ◌≢◌, ◌+◌, subst, any-append,
  arith, any, keep, eq_iff,
}
use certio.Store.{HasUnique}
use certio.Store.Models.{AcmeNonce}
use certio.Store.Exec.{World, Result, ok, err}
use certio.Store.Exec.Triple.{
  Pred, IsStable, Post, Triple, Triple-query, Triple-write, Triple-Keeps,
}
use certio.Store.Repos.Acme.{
  spend_nonce, issue_nonce, prune_nonces, is_nonce, is_spendable, add_nonce,
}

no_other :
    (value : String) (now : ℕ) (rows : List AcmeNonce)
    → any (is_nonce value) rows ≡ false
    → any (is_spendable now value) rows ≡ false
no_other value now [] h = refl
no_other value now (n ∷ rows) h = ground (arith, no_other value now rows)

absent-keep :
    (value : String) (p : AcmeNonce → Bool) (rows : List AcmeNonce)
    → any (is_nonce value) rows ≡ false
    → any (is_nonce value) (keep p rows) ≡ false
absent-keep value p [] h = refl
absent-keep value p (n ∷ rows) h = ground (arith, absent-keep value p rows)

-- The row of a value that could be spent is the only one, and goes.
any-spent :
    (value : String) (now : ℕ) (rows : List AcmeNonce)
    → HasUnique (λ n. n.value) rows
    → any (is_spendable now value) rows ≡ true
    → any (is_nonce value) (keep (λ n. not (is_spendable now value n)) rows) ≡ false
any-spent value now [] u h = refl
any-spent value now (n ∷ rows) (new, u) h = ground (
  arith,
  eq_iff n.value value,
  no_other value now rows,
  absent-keep value (λ n. not (is_spendable now value n)) rows,
  any-spent value now rows u,
)

abbrev pub Unspent : Pred
Unspent w = HasUnique (λ n. n.value) w.acme_nonces

abbrev pub Absent : String → Pred
Absent value w = any (is_nonce value) w.acme_nonces ≡ false

unspent-IsStable : IsStable Unspent
unspent-IsStable = record { faults = λ w fs h. h; audit = λ w log h. h }

absent-IsStable : (value : String) → IsStable (Absent value)
absent-IsStable value = record { faults = λ w fs h. h; audit = λ w log h. h }

-- A nonce that was spent is not there.
Triple-spend_nonce :
    (now : ℕ) (value : String)
    → Triple (λ _. Unit) Unspent (spend_nonce now value) (λ b w. b ≡ true → Absent value w)
unfolding spend_nonce
Triple-spend_nonce now value =
    Triple-query unspent-IsStable (λ w h. tt) _
      (record { at = λ w h. any-spent value now w.acme_nonces h })

-- What the server asks of the table of nonces.
pub data Event : Type 0 where
  issuing : String → ℕ → Event
  spending : String → Event
  pruning : Event

unfoldable pub happen : Event → ℕ → World → World
happen (issuing value ttl) now w = (issue_nonce now value ttl w).1
happen (spending value) now w = (spend_nonce now value w).1
happen pruning now w = (prune_nonces now w).1

-- Each event has its schedule of faults and its time.
unfoldable pub run : List (List Bool × ℕ × Event) → World → World
unfolding happen
run [] w = w
run ((faults, now, event) ∷ events) w = run events (happen event now (record w { faults = faults }))

abbrev pub issues : String → Event → Bool
issues value (issuing v ttl) = str_eq v value
issues value _ = false

stays-spend_nonce :
    (now : ℕ) (value v : String)
    → Triple (Absent value) (Absent value) (spend_nonce now v) (λ _. Absent value)
unfolding spend_nonce
stays-spend_nonce now value v =
    Triple-query (absent-IsStable value) (λ w h. h) _
      (record { at = λ w h. absent-keep value (λ n. not (is_spendable now v n)) w.acme_nonces h })

absent-add :
    (value : String) (n : AcmeNonce) (rows : List AcmeNonce)
    → str_eq n.value value ≡ false
    → any (is_nonce value) rows ≡ false
    → any (is_nonce value) (add_nonce n rows) ≡ false
absent-add value n rows other h = ground (arith, any-append (is_nonce value) rows (n ∷ []))

happen-Absent :
    (value : String) (event : Event) (now : ℕ) (w : World)
    → issues value event ≡ false
    → Absent value w
    → Absent value (happen event now w)
unfolding happen issue_nonce prune_nonces
happen-Absent value (issuing v ttl) now w other h =
    (Triple-Keeps (
        Triple-write (absent-IsStable value) (λ w h. h) _
          (λ w h.
            absent-add value (record { value = v; expires_at = now + ttl }) w.acme_nonces other
              h))).at
      w h
happen-Absent value (spending v) now w other h =
    (Triple-Keeps (stays-spend_nonce now value v)).at w h
happen-Absent value pruning now w other h =
    (Triple-Keeps (
        Triple-write (absent-IsStable value) (λ w h. h) _
          (λ w h. absent-keep value _ w.acme_nonces h))).at
      w h

run-Absent :
    (value : String) (events : List (List Bool × ℕ × Event)) (w : World)
    → any (λ e. issues value e.2) events ≡ false
    → Absent value w
    → Absent value (run events w)
unfolding run
run-Absent value [] w others h = h
run-Absent value ((faults, now, event) ∷ events) w others h =
    run-Absent value events _ (ground arith)
      (happen-Absent value event now (record w { faults = faults }) (ground arith) h)

refused :
    (now : ℕ) (value : String)
    → Triple (λ _. Unit) (Absent value) (spend_nonce now value) (λ b _. b ≡ false)
unfolding spend_nonce
refused now value =
    Triple-query (absent-IsStable value) (λ w h. tt) _
      (record { at = λ w h. no_other value now w.acme_nonces h })

not_true : (w : World) (r : Result Bool) → Post (λ _. Unit) (λ b _. b ≡ false) r w → r ≢ ok true
not_true w (ok b) h e = ground arith
not_true w (err x) h e = cc

-- Where the values of the nonces differ, a nonce whose spending was answered with yes is never
-- answered with yes again, whatever is issued under other values, spent or pruned in between, and
-- whatever queries the driver fails.
pub spend_once :
    (now : ℕ) (value : String) (events : List (List Bool × ℕ × Event)) (later : ℕ)
    (faults : List Bool) (w : World)
    → HasUnique (λ n. n.value) w.acme_nonces
    → (spend_nonce now value w).0 ≡ ok true
    → any (λ e. issues value e.2) events ≡ false
    → (spend_nonce later value
        (record (run events (spend_nonce now value w).1) { faults = faults })).0
      ≢ ok true
spend_once now value events later faults w u spent others =
    let gone : Absent value (spend_nonce now value w).1 =
      subst (λ r. Post (λ _. Unit) (λ b w. b ≡ true → Absent value w) r (spend_nonce now value w).1)
        spent ((Triple-spend_nonce now value).at w u) refl in
    not_true _ _ ((refused later value).at _ (run-Absent value events _ others gone))
