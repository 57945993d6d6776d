-- ===== src/Server/Numbers/Digits.antt =====
-- internal/server/middleware/middleware.go: what the digits of a number read as.
use certio.Prelude.{
  ℕ, zero, suc, ◌+◌, ◌-◌, ◌*◌, ◌/◌, ◌%◌, ◌^◌, ◌<◌, ◌≤◌, ◌≡◌, ◌⊎◌, inl, inr, refl, sym, All, [], ◌∷◌,
  Option, none, some, ◌==◌, ltb, arith, subst, ap, Bool-cases, if◌then◌else◌,
}
use certio.Text.{Text, txt}
use certio.Server.Numbers.{fill, itoa, buffer, format_seconds, seconds_of}

-- The number that decimal digits spell behind `n`.
abbrev pub value : ℕ → Text → ℕ
value n [] = n
value n (c ∷ s) = value (n * 10 + (c - b'0')) s

abbrev pub AreDigits : Text → Type 0
AreDigits = All (λ c. (b'0' ≤ c) × (c ≤ b'9'))

-- The text begins with a digit that is not 0.
abbrev pub Leads : Text → Type 0
Leads [] = ⊥
Leads (c ∷ s) = b'1' ≤ c

-- The text is there: digits that read as the number, the one digit 0 or none in front.
abbrev pub ReadsAs : ℕ → Option Text → Type 0
ReadsAs n none = ⊥
ReadsAs n (some s) = (value 0 s ≡ n) × AreDigits s × ((s ≡ txt "0") ⊎ Leads s)

tenth : (n m : ℕ) → n < m * 10 → n / 10 < m
tenth n m h = omega arith

last_digit : (n : ℕ) → n / 10 * 10 + ((b'0' + n % 10) - b'0') ≡ n
last_digit n = omega arith

digit_bounds : (n : ℕ) → (b'0' ≤ b'0' + n % 10) × (b'0' + n % 10 ≤ b'9')
digit_bounds n = (omega arith, omega arith)

leading : (n : ℕ) → (n ≡ 0 → ⊥) → n / 10 ≡ 0 → b'1' ≤ b'0' + n % 10
leading n more done = omega (arith, more, done)

fill-ReadsAs :
    (room n : ℕ) (out : Text)
    → n < 10 ^ room
    → AreDigits out
    → (n ≡ 0 → Leads out)
    → ReadsAs (value n out) (fill room n out)
unfolding fill
fill-ReadsAs zero n out small digits leads =
    let done : n ≡ 0 = omega (arith, small) in rw (done, ◌==◌) (refl, digits, inr (leads done))
fill-ReadsAs (suc room) n out small digits leads = elim (Bool-cases (n == 0)) [
  | inl done ↦
      let is_zero : n ≡ 0 = ground arith in
      rw done (ap (λ k. value k out) (sym is_zero), digits, inr (leads is_zero))
  | inr more ↦ rw more (
      subst (λ k. ReadsAs (value k out) (fill room (n / 10) ((b'0' + n % 10) ∷ out))) (last_digit n)
        (fill-ReadsAs room (n / 10) ((b'0' + n % 10) ∷ out)
          (tenth n (10 ^ room) (omega (arith, small))) (digit_bounds n, digits)
          (leading n (λ e. ground arith))))
]

itoa-ReadsAs : (n : ℕ) → n < 10 ^ 20 → ReadsAs n (itoa n)
unfolding itoa
itoa-ReadsAs n h = elim (Bool-cases (n == 0)) [
  | inl none_left ↦ rw none_left (ground arith, ((omega arith, omega arith), tt), inl refl)
  | inr more ↦ rw more (fill-ReadsAs buffer n [] h tt (λ e. ground arith))
]

-- A number below 10 ^ 20, as every int is, is written without a panic, as decimal digits that read as
-- the number and do not begin with 0, or as the one digit 0; a duration is written so as its whole
-- seconds, and as 1 below one second.
pub format_seconds-ReadsAs :
    (n d : ℕ)
    → n < 10 ^ 20
    → seconds_of d < 10 ^ 20
    → ReadsAs n (itoa n)
      × ReadsAs (if ltb (seconds_of d) 1 then 1 else seconds_of d) (format_seconds d)
unfolding format_seconds
format_seconds-ReadsAs n d h k = (
  itoa-ReadsAs n h,
  elim (Bool-cases (ltb (seconds_of d) 1)) [
    | inl short ↦ rw short (itoa-ReadsAs 1 (omega arith))
    | inr long ↦ rw long (itoa-ReadsAs (seconds_of d) k)
  ],
)
