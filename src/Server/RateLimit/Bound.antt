-- ===== src/Server/RateLimit/Bound.antt =====
-- internal/server/middleware/middleware.go: how many requests of one key the rate limiter lets through.
use certio.Prelude.{
  ℕ, ◌+◌, ◌-◌, ◌*◌, ◌≤◌, refl, sym, subst, Bool, List, [], ◌∷◌, Option, none, some, String, str_eq,
  arith, keep, length, All, Bool-cases, inl, inr,
}
use certio.Store.{find, HasUniqueKeys, find-key}
use certio.Server.RateLimit.{Window, RateLimiter, Answer, window_key, is_over}
use certio.Server.RateLimit.Reference.{answers, answers_of, times_of, IsOrdered, answers_of-answers}

abbrev pub is_allowed : Answer → Bool
is_allowed (allowed, wait) = allowed

abbrev pub allowed_count : List Answer → ℕ
allowed_count results = length (keep is_allowed results)

-- What a window that lasts has left.
abbrev left : ℕ → Window → ℕ
left limit w = limit - w.count

-- Times that are not after `to`.
abbrev pub AreBy : ℕ → List ℕ → Type 0
AreBy to times = All (λ t. t ≤ to) times

-- While a window lasts, it lets through what it has left.
allowed-lasting :
    (limit per to : ℕ) (key : String) (times : List ℕ) (w : Window)
    → AreBy to times
    → to ≤ w.reset_at
    → allowed_count (answers limit per key times (some w)) ≤ left limit w
unfolding answers
allowed-lasting limit per to key [] w by lasts = omega arith
allowed-lasting limit per to key (now ∷ times) w (le, by) lasts =
    let rest = allowed-lasting limit per to key times (record w { count = w.count + 1 }) by lasts in
    ground (arith, rest)

abbrev AreFrom : ℕ → List ℕ → Type 0
AreFrom from times = All (λ t. from ≤ t) times

abbrev left_of : ℕ → Option Window → ℕ
left_of limit none = 0
left_of limit (some w) = left limit w

-- A span of one window's length meets at most two windows.
allowed-span :
    (limit per from : ℕ) (key : String) (times : List ℕ) (o : Option Window)
    → 1 ≤ limit
    → AreFrom from times
    → AreBy (from + per) times
    → allowed_count (answers limit per key times o) ≤ left_of limit o + limit
unfolding answers
allowed-span limit per from key [] o some_limit since by = omega arith
allowed-span limit per from key (now ∷ times) none some_limit (ge, since) (le, by) =
    let rest =
      allowed-lasting limit per (from + per) key times
        (record { key = key; count = 1; reset_at = now + per }) by (omega arith) in
    ground (arith, rest)
allowed-span limit per from key (now ∷ times) (some w) some_limit (ge, since) (le, by) =
    elim (Bool-cases (is_over now w)) [
      | inl over ↦
          let rest =
            allowed-lasting limit per (from + per) key times
              (record { key = key; count = 1; reset_at = now + per }) by (omega arith) in
          rw over (ground (arith, rest))
      | inr on ↦
          let rest =
            allowed-span limit per from key times (some (record w { count = w.count + 1 }))
              some_limit since by in
          rw on (ground (arith, rest))
    ]

twice : {n : ℕ} (limit : ℕ) (o : Option Window) → n ≤ left_of limit o + limit → n ≤ limit * 2
twice limit none h = omega arith
twice limit (some w) h = omega arith

times_of-since :
    (key : String) (from before : ℕ) (requests : List (ℕ × String))
    → from ≤ before
    → IsOrdered before requests
    → AreFrom from (times_of key requests)
unfolding times_of IsOrdered
times_of-since key from before [] le h = tt
times_of-since key from before ((now, j) ∷ requests) le (ge, h) =
    let rest = times_of-since key from now requests (omega arith) h in
    elim (Bool-cases (str_eq j key)) [
      | inl own ↦ rw own (omega arith, rest)
      | inr other ↦ rw other rest
    ]

times_of-by :
    (key : String) (to : ℕ) (requests : List (ℕ × String))
    → All (λ request. request.0 ≤ to) requests
    → AreBy to (times_of key requests)
unfolding times_of
times_of-by key to [] h = tt
times_of-by key to ((now, j) ∷ requests) (le, h) =
    let rest = times_of-by key to requests h in
    elim (Bool-cases (str_eq j key)) [ inl own ↦ rw own (le, rest) | inr other ↦ rw other rest ]

-- Where the keys of the map differ and the limit is not 0: of the requests that come in the order of
-- their times within the length of one window, whatever windows the limiter holds before, those of a
-- key that are let through are at most twice as many as the limit.
pub answers_of-bound :
    (key : String) (requests : List (ℕ × String)) (from : ℕ) (r : RateLimiter)
    → 1 ≤ r.limit
    → HasUniqueKeys window_key r.hits
    → IsOrdered from requests
    → All (λ request. request.0 ≤ from + r.window) requests
    → allowed_count (answers_of key requests r) ≤ r.limit * 2
answers_of-bound key requests from r some_limit unique ordered within =
    let o : Option Window = find window_key key r.hits in
    let bound =
      allowed-span r.limit r.window from key (times_of key requests) o some_limit
        (times_of-since key from from requests (omega arith) ordered)
        (times_of-by key (from + r.window) requests within) in
    subst (λ results. allowed_count results ≤ r.limit * 2)
      (sym (
        answers_of-answers r.limit r.window key requests from r o refl refl unique ordered
          (find-key window_key key r.hits) (λ t le. refl)))
      (twice r.limit o bound)
