-- ===== src/Server/Tests.antt =====
-- The rate limiter and its header at concrete inputs.
use certio.Prelude.{
  ℕ, ◌*◌, ◌≤◌, ◌≡◌, refl, arith, true, false, [], ◌∷◌, List, none, String, ltb, if◌then◌else◌,
}
use certio.Server.RateLimit.{RateLimiter}
use certio.Server.RateLimit.Reference.{answers_of, answers, times_of, answers_of-answers, IsOrdered}
use certio.Server.RateLimit.Bound.{allowed_count, answers_of-bound}
use certio.Server.Numbers.{itoa, format_seconds, seconds_of}
use certio.Server.Numbers.Digits.{ReadsAs, format_seconds-ReadsAs}

abbrev limiter : RateLimiter
limiter = record { hits = []; limit = 2; window = 60; last_gc = 0 }

abbrev requests : List (ℕ × String)
requests = (70, "a") ∷ (80, "b") ∷ (80, "a") ∷ (90, "a") ∷ (130, "a") ∷ []

third_is_refused :
    answers_of "a" requests limiter ≡ (true, 0) ∷ (true, 0) ∷ (false, 40) ∷ (false, 0) ∷ []
unfolding answers_of certio.Store.save
third_is_refused = refl

ordered : IsOrdered 70 requests
unfolding IsOrdered
ordered = (omega arith, (omega arith, (omega arith, (omega arith, (omega arith, tt)))))

answers_of-answers_example :
    answers_of "a" requests limiter ≡ answers 2 60 "a" (times_of "a" requests) none
answers_of-answers_example =
    answers_of-answers 2 60 "a" requests 70 limiter none refl refl tt ordered (λ w e. absurd (cc))
      (λ t le. refl)

answers_of-bound_example : allowed_count (answers_of "a" requests limiter) ≤ 2 * 2
answers_of-bound_example =
    answers_of-bound "a" requests 70 limiter (omega arith) tt ordered
      (omega arith, (omega arith, (omega arith, (omega arith, (omega arith, tt)))))

format_seconds-ReadsAs_example :
    ReadsAs 120 (itoa 120)
    × ReadsAs
        (if ltb (seconds_of 2500000000) 1 then 1 else seconds_of 2500000000)
        (format_seconds 2500000000)
format_seconds-ReadsAs_example = format_seconds-ReadsAs 120 2500000000 (omega arith) (omega arith)
