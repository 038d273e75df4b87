-- ===== src/Logger/Rotation.antt =====
-- The size at which the log file is rotated, which is computed in an int.
use ekg.Prelude.{
  ℕ, zero, suc, ◌+◌, ◌*◌, ◌^◌, ◌≤◌, ◌<◌, ◌≡◌, refl, ap, ◌∙◌, ltb, leb, if◌then◌else◌, ◌⊎◌, inl, inr,
  arith, Bool-cases,
}
use ekg.Common.Int.{ℤ, pos, negsuc, neg, int_mul, overflow}
use ekg.Common.Outcome.{ok}
use ekg.Logger.{rotation_size}

-- From -2048 to 2047.
abbrev pub Fits : ℤ → Type 0
Fits (pos n) = n < 2048
Fits (negsuc n) = n + 1 ≤ 2048

-- The number of bytes in so many megabytes.
abbrev pub bytes : ℤ → ℤ
bytes (pos n) = pos (n * 1048576)
bytes (negsuc n) = neg ((n + 1) * 1048576)

int_mul-neg :
    (k b : ℕ)
    → 1 ≤ k
    → int_mul (neg k) b ≡ (if leb (k * b) (2 ^ 31) then ok (neg (k * b)) else overflow)
unfolding int_mul
int_mul-neg zero b h = absurd (omega arith)
int_mul-neg (suc n) b h =
    let e : n + 1 ≡ suc n = omega arith in
    ap (λ k. if leb (k * b) (2 ^ 31) then ok (neg (k * b)) else overflow) e

scale : (n : ℕ) → n * 1024 * 1024 ≡ n * 1048576
scale n = omega arith

rotation_size_pos :
    (n : ℕ) → rotation_size (pos n) ≡ (if ltb n 2048 then ok (pos (n * 1048576)) else overflow)
unfolding rotation_size int_mul
rotation_size_pos n = ground (arith, scale n)

rotation_size_negsuc :
    (n : ℕ)
    → rotation_size (negsuc n)
      ≡ (if leb (n + 1) 2048 then ok (neg ((n + 1) * 1048576)) else overflow)
unfolding rotation_size int_mul
rotation_size_negsuc n = ground (arith, scale (n + 1), int_mul-neg ((n + 1) * 1024) 1024)

-- The size in bytes is computed exactly from -2048 to 2047 megabytes; any other overflows.
pub rotation_size-bytes :
    (mb : ℤ)
    → (Fits mb × (rotation_size mb ≡ ok (bytes mb)))
      ⊎ ((Fits mb → ⊥) × (rotation_size mb ≡ overflow))
rotation_size-bytes (pos n) = elim (Bool-cases (ltb n 2048)) [
  | inl e ↦ inl (ground arith, rotation_size_pos n ∙ rw e refl)
  | inr e ↦ inr (ground arith, rotation_size_pos n ∙ rw e refl)
]
rotation_size-bytes (negsuc n) = elim (Bool-cases (leb (n + 1) 2048)) [
  | inl e ↦ inl (ground arith, rotation_size_negsuc n ∙ rw e refl)
  | inr e ↦ inr (ground arith, rotation_size_negsuc n ∙ rw e refl)
]
