-- ===== src/Server/RateLimit.antt =====
-- internal/server/middleware/middleware.go: `RateLimiter`. A map is the list of its entries, and the
-- clock is an argument; the lock makes the calls of `Allow` follow one another.
pub mod Reference
pub mod Bound
use certio.Prelude.{
  ℕ, ◌+◌, ◌-◌, Bool, true, false, not, List, [], Option, none, some, String, ltb, ◌==◌, keep,
  if◌then◌else◌,
}
use certio.Store.{find, save}

-- An entry of the map: the window of a key.
pub record Window : Type 0 where
  pub key : String
  pub count : ℕ
  pub reset_at : ℕ

pub record RateLimiter : Type 0 where
  pub hits : List Window
  pub limit : ℕ
  pub window : ℕ
  pub last_gc : ℕ

abbrev pub window_key : Window → String
window_key w = w.key

abbrev or_default : ℕ → ℕ → ℕ
or_default value default = if value == 0 then default else value

-- `minute` is a minute in the unit of the clock.
unfoldable pub new_rate_limiter : ℕ → ℕ → ℕ → ℕ → RateLimiter
new_rate_limiter minute limit per now = record {
  hits = [];
  limit = or_default limit 10;
  window = or_default per minute;
  last_gc = now;
}

abbrev pub is_over : ℕ → Window → Bool
is_over now w = ltb w.reset_at now

unfoldable pub collect : ℕ → RateLimiter → RateLimiter
collect now r =
    if ltb (now - r.last_gc) r.window
    then r
    else record r { hits = keep (λ w. not (is_over now w)) r.hits; last_gc = now }

-- Whether the request may proceed, and how long to wait.
abbrev pub Answer : Type 0
Answer = Bool × ℕ

abbrev pub start_window : ℕ → String → RateLimiter → Answer × RateLimiter
start_window now key r = (
  (true, 0),
  record r {
    hits = save window_key (record { key = key; count = 1; reset_at = now + r.window }) r.hits;
  },
)

abbrev pub count_hit : ℕ → Window → RateLimiter → Answer × RateLimiter
count_hit now w r = (
  if ltb r.limit (w.count + 1) then (false, w.reset_at - now) else (true, 0),
  record r { hits = save window_key (record w { count = w.count + 1 }) r.hits },
)

abbrev pub allow_in : ℕ → String → Option Window → RateLimiter → Answer × RateLimiter
allow_in now key none r = start_window now key r
allow_in now key (some w) r = if is_over now w then start_window now key r else count_hit now w r

unfoldable pub allow : ℕ → String → RateLimiter → Answer × RateLimiter
unfolding collect
allow now key r = let r' = collect now r in allow_in now key (find window_key key r'.hits) r'
