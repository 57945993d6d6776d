-- ===== src/Server/RateLimit/Reference.antt =====
-- internal/server/middleware/middleware.go: the rate limiter against one that holds a single key and
-- collects nothing.
use certio.Prelude.{
  ℕ, ◌+◌, ◌-◌, ◌≤◌, ◌≡◌, refl, sym, subst, ◌∙◌, ap, Bool, true, false, List, [], ◌∷◌, Option, none,
  some, String, str_eq, eq_iff, arith, ltb, keep, any, if◌then◌else◌, Bool-cases, inl, inr,
}
use certio.Store.{
  find, save, has_key, HasUniqueKeys, find-save, save-HasUniqueKeys, keep-HasUniqueKeys, find-key,
}
use certio.Server.RateLimit.{
  Window, RateLimiter, Answer, window_key, is_over, collect, allow_in, allow,
}

-- The window of a key at a time, which is none if it is over.
abbrev pub live : ℕ → Option Window → Option Window
live now none = none
live now (some w) = if is_over now w then none else some w

-- The answer to a request and the window that it leaves.
abbrev pub answer : ℕ → ℕ → ℕ → String → Option Window → Answer × Window
answer limit per now key none = ((true, 0), record { key = key; count = 1; reset_at = now + per })
answer limit per now key (some w) = (
  if ltb limit (w.count + 1) then (false, w.reset_at - now) else (true, 0),
  record w { count = w.count + 1 },
)

-- The answers to the requests of one key, each at its time.
unfoldable pub answers : ℕ → ℕ → String → List ℕ → Option Window → List Answer
answers limit per key [] o = []
answers limit per key (now ∷ times) o =
    let (a, w) = answer limit per now key (live now o) in a ∷ answers limit per key times (some w)

-- The answers of the limiter to the requests of one key among those of all keys.
unfoldable pub answers_of : String → List (ℕ × String) → RateLimiter → List Answer
unfolding allow
answers_of key [] r = []
answers_of key ((now, j) ∷ requests) r =
    let (a, r') = allow now j r in
    let rest = answers_of key requests r' in if str_eq j key then a ∷ rest else rest

unfoldable pub times_of : String → List (ℕ × String) → List ℕ
times_of key [] = []
times_of key ((now, j) ∷ requests) =
    let rest = times_of key requests in if str_eq j key then now ∷ rest else rest

-- Requests come in the order of their times, none before `from`.
unfoldable pub IsOrdered : ℕ → List (ℕ × String) → Type 0
IsOrdered from [] = Unit
IsOrdered from ((now, j) ∷ requests) = (from ≤ now) × IsOrdered now requests

find-absent :
    (p : Window → Bool) (rows : List Window) (j : String)
    → any (has_key window_key j) rows ≡ false
    → find window_key j (keep p rows) ≡ none
find-absent p [] j h = refl
find-absent p (w ∷ rows) j h = ground (arith, find-absent p rows j)

find-keep :
    (p : Window → Bool) (rows : List Window) (j : String) (t : ℕ)
    → HasUniqueKeys window_key rows
    → ((w : Window) → p w ≡ false → is_over t w ≡ true)
    → live t (find window_key j (keep p rows)) ≡ live t (find window_key j rows)
find-keep p [] j t h over = refl
find-keep p (w ∷ rows) j t (new, h) over =
    ground
      (arith, over w, eq_iff (window_key w) j, find-absent p rows j, find-keep p rows j t h over)

-- Over once, over for good.
module _ (now : ℕ) (r : RateLimiter) where
  collect-live :
      (j : String) (t : ℕ)
      → HasUniqueKeys window_key r.hits
      → now ≤ t
      → live t (find window_key j (collect now r).hits) ≡ live t (find window_key j r.hits)
  unfolding collect
  collect-live j t h le = elim (Bool-cases (ltb (now - r.last_gc) r.window)) [
    | inl early ↦ rw early refl
    | inr late ↦ rw late (find-keep _ r.hits j t h (λ w e. ground arith))
  ]

  collect-HasUniqueKeys :
      HasUniqueKeys window_key r.hits → HasUniqueKeys window_key (collect now r).hits
  unfolding collect
  collect-HasUniqueKeys h = elim (Bool-cases (ltb (now - r.last_gc) r.window)) [
    | inl early ↦ rw early h
    | inr late ↦ rw late (keep-HasUniqueKeys window_key _ r.hits h)
  ]

  collect_settings : ((collect now r).limit ≡ r.limit) × ((collect now r).window ≡ r.window)
  unfolding collect
  collect_settings = elim (Bool-cases (ltb (now - r.last_gc) r.window)) [
    | inl early ↦ rw early (refl, refl)
    | inr late ↦ rw late (refl, refl)
  ]

-- The limiter after a request whose window becomes `w`.
abbrev next : ℕ → RateLimiter → Window → RateLimiter
next now r w = let c = collect now r in record c { hits = save window_key w c.hits }

answer_key :
    (limit per now : ℕ) (key : String) (o : Option Window)
    → ((w : Window) → o ≡ some w → w.key ≡ key)
    → (answer limit per now key (live now o)).1.key ≡ key
answer_key limit per now key none h = refl
answer_key limit per now key (some w) h = elim (Bool-cases (is_over now w)) [
  | inl over ↦ rw over refl
  | inr on ↦ rw on (h w refl)
]

allow_in-answer :
    (now : ℕ) (key : String) (o : Option Window) (r : RateLimiter)
    → allow_in now key o r ≡ (
      (answer r.limit r.window now key (live now o)).0,
      record r { hits = save window_key (answer r.limit r.window now key (live now o)).1 r.hits },
    )
allow_in-answer now key none r = refl
allow_in-answer now key (some w) r = elim (Bool-cases (is_over now w)) [
  | inl over ↦ rw over refl
  | inr on ↦ rw on refl
]

answer_cong :
    (l l' p p' now : ℕ) (j : String) (o o' : Option Window)
    → l ≡ l'
    → p ≡ p'
    → o ≡ o'
    → answer l p now j o ≡ answer l' p' now j o'
answer_cong l l' p p' now j o o' el ep eo = cc

module _ (limit per now : ℕ) (j : String) (r : RateLimiter) where
  allow-answer :
      (o : Option Window)
      → r.limit ≡ limit
      → r.window ≡ per
      → HasUniqueKeys window_key r.hits
      → live now (find window_key j r.hits) ≡ live now o
      → allow now j r ≡ (
        (answer limit per now j (live now o)).0,
        next now r (answer limit per now j (live now o)).1,
      )
  unfolding allow
  allow-answer o l p unique same =
      let (cl, cp) = collect_settings now r in
      allow_in-answer now j (find window_key j (collect now r).hits) (collect now r)
      ∙ ap (λ a. (a.0, next now r a.1))
          (answer_cong _ _ _ _ now j _ _ (cl ∙ l) (cp ∙ p)
            (collect-live now r j now unique (omega arith) ∙ same))

  module _ (w : Window) (unique : HasUniqueKeys window_key r.hits) where
    next-find :
        (key : String) (t : ℕ)
        → now ≤ t
        → live t (find window_key key (next now r w).hits)
          ≡ (if str_eq w.key key then live t (some w) else live t (find window_key key r.hits))
    next-find key t le =
        ap (live t) (find-save window_key w (collect now r).hits key)
        ∙ elim (Bool-cases (str_eq w.key key)) [
          | inl own ↦ rw own refl
          | inr other ↦ rw other (collect-live now r key t unique le)
        ]

    next-HasUniqueKeys : HasUniqueKeys window_key (next now r w).hits
    next-HasUniqueKeys =
        save-HasUniqueKeys window_key w (collect now r).hits (collect-HasUniqueKeys now r unique)

-- The windows of a key agree from a time on.
abbrev pub Agrees : String → ℕ → RateLimiter → Option Window → Type 0
Agrees key from r o = (t : ℕ) → from ≤ t → live t (find window_key key r.hits) ≡ live t o

-- Where the keys of the map differ and requests come in the order of their times, the limiter answers
-- the requests of each key as one that holds the window of that key alone and collects nothing,
-- whatever other keys ask in between.
pub answers_of-answers :
    (limit per : ℕ) (key : String) (requests : List (ℕ × String)) (from : ℕ) (r : RateLimiter)
    (o : Option Window)
    → r.limit ≡ limit
    → r.window ≡ per
    → HasUniqueKeys window_key r.hits
    → IsOrdered from requests
    → ((w : Window) → o ≡ some w → w.key ≡ key)
    → Agrees key from r o
    → answers_of key requests r ≡ answers limit per key (times_of key requests) o
unfolding answers_of answers times_of IsOrdered
answers_of-answers limit per key [] from r o l p unique ordered keyed agrees = refl
answers_of-answers limit per key ((now, j) ∷ requests) from r o l p unique (le, ordered) keyed
      agrees =
    elim (Bool-cases (str_eq j key)) [
      | inl own ↦
          let a : Answer × Window = answer limit per now key (live now o) in
          let same_key = answer_key limit per now key o keyed in
          rw own (
            subst
              (λ i.
                (allow now i r).0 ∷ answers_of key requests (allow now i r).1
                ≡ a.0 ∷ answers limit per key (times_of key requests) (some a.1))
              (sym ((eq_iff j key).0 own))
              (ap (λ x. x.0 ∷ answers_of key requests x.1)
                  (allow-answer limit per now key r o l p unique (agrees now le))
                ∙ ap (λ rest. a.0 ∷ rest)
                    (answers_of-answers limit per key requests now (next now r a.1) (some a.1)
                      ((collect_settings now r).0 ∙ l) ((collect_settings now r).1 ∙ p)
                      (next-HasUniqueKeys limit per now j r a.1 unique) ordered (λ w e. cc)
                      (λ t before.
                        next-find limit per now j r a.1 unique key t before
                        ∙ rw ((eq_iff a.1.key key).1 same_key) refl))))
      | inr other ↦
          let found : Option Window = find window_key j r.hits in
          let w : Window = (answer limit per now j (live now found)).1 in
          let same_key = answer_key limit per now j found (find-key window_key j r.hits) in
          rw other (
            ap (λ x. answers_of key requests x.1)
              (allow-answer limit per now j r found l p unique refl)
            ∙ answers_of-answers limit per key requests now (next now r w) o
                ((collect_settings now r).0 ∙ l) ((collect_settings now r).1 ∙ p)
                (next-HasUniqueKeys limit per now j r w unique) ordered keyed
                (λ t before.
                  next-find limit per now j r w unique key t before
                  ∙ rw (ap (λ i. str_eq i key) same_key ∙ other)
                      (agrees t (omega (arith, le, before)))))
    ]
