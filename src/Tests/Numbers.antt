-- ===== src/Tests/Numbers.antt =====
-- The laws that the parameters are assumed to have hold of the instances that the tests run on.
use Prim.Native.Nat.{◌^◌}
use native.Mathlib.Nat.{le-div_iff_mul-le, div-mul-le_self}
use asr_serve.Base.{ℕ, zero, suc, ◌≤◌, ◌<◌, ◌*◌, ◌/◌, ◌≡◌, refl, ◌↔◌, true, ◌==◌, arith}
use asr_serve.Base.Floats.{IsIeee, micro}

ten_pow_pos : (k : ℕ) → zero < 10 ^ k
ten_pow_pos zero = omega arith
ten_pow_pos (suc k) = omega (arith, ten_pow_pos k)

div_mono : (a b k : ℕ) → zero < k → a ≤ b → a / k ≤ b / k
div_mono a b k p h = (le-div_iff_mul-le p).1 (omega (arith, div-mul-le_self a k))

pub micro-IsIeee : IsIeee micro
micro-IsIeee = record {
  lt_irrefl = λ x. ground arith;
  lt_trans = λ x y z h k. ground (arith, h, k);
  not_lt_trans = λ x y z p h k. ground (arith, h, k);
  feq_def = λ x y p q. ground arith;
  le_def = λ x y p q. ground arith;
  lit_mono = λ m n k h.
      ground
        (arith, div_mono (m * 1_000_000) (n * 1_000_000) (10 ^ k) (ten_pow_pos k) (omega arith));
  lit-IsNumber = λ m k. refl;
}

pub eq-lawful : (x y : ℕ) → ((x == y) ≡ true) ↔ (x ≡ y)
eq-lawful x y = (λ h. ground (arith, h), λ h. ground (arith, h))
