-- ===== src/Prelude/Attempts.antt =====
-- Chains of steps that may have no result.
use mathlib.Core.Option.{Option, none, some}
use mathlib.Core.Bool.{Bool, true, false}
use mathlib.Core.Path.{◌≡◌, refl}

module _ {ℓ κ} {A : Type ℓ} {B : Type κ} where
  infixl 5 ◌>>=◌ ◌>>◌
  unfoldable pub ◌>>=◌ : Option A → (A → Option B) → Option B
  ◌>>=◌ none f = none
  ◌>>=◌ (some a) f = f a

  abbrev pub ◌>>◌ : Option A → Option B → Option B
  m >> n = m >>= λ _. n

unfoldable pub require : Bool → Option (Unit {0})
require true = some tt
require false = none

-- A chain with a result went through its first step.
pub bind-elim :
    {A B P : Type 0} {b : B} (m : Option A) (f : A → Option B)
    → (m >>= f) ≡ some b
    → ((a : A) → m ≡ some a → f a ≡ some b → P)
    → P
unfolding ◌>>=◌
bind-elim none f e k = absurd (cc)
bind-elim (some a) f e k = k a refl e

pub require-elim :
    {B P : Type 0} {b : B} (test : Bool) (m : Option B)
    → (require test >> m) ≡ some b
    → (test ≡ true → m ≡ some b → P)
    → P
unfolding ◌>>=◌ require
require-elim true m e k = k refl e
require-elim false m e k = absurd (cc)
