-- ===== src/Common/Int.antt =====
-- The type int of C++, of 32 bits: a product that does not fit is undefined behaviour.
use ekg.Prelude.{ℕ, zero, suc, ◌+◌, ◌*◌, ◌^◌, ltb, leb, if◌then◌else◌}
use ekg.Common.Outcome.{Outcome, ok, undefined}

pub data ℤ : Type 0 where
  pos negsuc : ℕ → ℤ

-- Minus a number.
abbrev pub neg : ℕ → ℤ
neg zero = pos 0
neg (suc n) = negsuc n

abbrev pub overflow : Outcome ℤ
overflow = undefined "signed integer overflow"

-- A product with a constant that is not negative.
unfoldable pub int_mul : ℤ → ℕ → Outcome ℤ
int_mul (pos a) b = if ltb (a * b) (2 ^ 31) then ok (pos (a * b)) else overflow
int_mul (negsuc a) b = if leb ((a + 1) * b) (2 ^ 31) then ok (neg ((a + 1) * b)) else overflow
