-- ===== src/Server/Numbers.antt =====
-- internal/server/middleware/middleware.go: the numbers of a `Retry-After` header. A number is not
-- negative, and a byte of the text is a code point.
pub mod Digits
use certio.Prelude.{
  ℕ, zero, suc, ◌+◌, ◌/◌, ◌%◌, ◌^◌, [], ◌∷◌, Option, none, some, ◌==◌, ltb, if◌then◌else◌,
}
use certio.Text.{Text, txt}

-- The digits of `n`, from the last, in front of `out`, in a buffer that has room for so many more: no
-- room left is a panic.
unfoldable pub fill : ℕ → ℕ → Text → Option Text
fill zero n out = if n == 0 then some out else none
fill (suc room) n out =
    let rest = fill room (n / 10) ((b'0' + n % 10) ∷ out) in if n == 0 then some out else rest

abbrev pub buffer : ℕ
buffer = 20

unfoldable pub itoa : ℕ → Option Text
itoa n = if n == 0 then some (txt "0") else fill buffer n []

-- A duration is in nanoseconds.
abbrev pub seconds_of : ℕ → ℕ
seconds_of d = d / 10 ^ 9

unfoldable pub format_seconds : ℕ → Option Text
format_seconds d = if ltb (seconds_of d) 1 then itoa 1 else itoa (seconds_of d)
