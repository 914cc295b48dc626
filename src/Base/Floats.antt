-- ===== src/Base/Floats.antt =====
-- Python's `float`, whose arithmetic the program takes from the machine: a type with its operations,
-- and the laws of its comparisons that the proofs use. IEEE 754 gives them: `<` is false at a NaN.
use Prim.Native.Nat.{ℕ, ◌≤◌, ◌*◌, ◌/◌, ◌+◌, ◌-◌, ◌^◌}
use mathlib.Core.Path.{◌≡◌}
use mathlib.Core.Bool.{Bool, true, false, not, ◌&&◌}
use mathlib.Core.Option.{Option, some}
use asr_serve.Base.Test.{ltb, leb, ◌==◌}
use asr_serve.Base.Int.{ℤ, pos, pos_part}
use asr_serve.Base.Order.{IsWeakOrder}

pub record Floats : Type 1 where
  pub Float : Type 0
  -- `lit m k` is the literal m · 10⁻ᵏ.
  pub lit : ℕ → ℕ → Float
  -- the conversion of an `int` operand
  pub of_int : ℤ → Float
  -- `a / b` of two `int`s, `b` not 0
  pub ratio : ℤ → ℤ → Float
  pub lt : Float → Float → Bool
  pub le : Float → Float → Bool
  pub feq : Float → Float → Bool
  pub add : Float → Float → Float
  pub sub : Float → Float → Float
  pub mul : Float → Float → Float
  pub div : Float → Float → Float
  -- `int(x)`, which raises at a NaN and an infinity
  pub to_int : Float → Option ℤ
  pub is_nan : Float → Bool

abbrev pub IsNumber : (fl : Floats) → fl.Float → Type 0
IsNumber fl x = fl.is_nan x ≡ false

-- What IEEE 754 says of the comparisons.
pub record IsIeee (fl : Floats) : Type 0 where
  pub lt_irrefl : (x : fl.Float) → fl.lt x x ≡ false
  pub lt_trans : (x y z : fl.Float) → fl.lt x y ≡ true → fl.lt y z ≡ true → fl.lt x z ≡ true
  pub not_lt_trans :
      (x y z : fl.Float) → IsNumber fl y → fl.lt x y ≡ false → fl.lt y z ≡ false → fl.lt x z ≡ false
  -- `==` of numbers is "neither is less"
  pub feq_def :
      (x y : fl.Float)
      → IsNumber fl x
      → IsNumber fl y
      → fl.feq x y ≡ (not (fl.lt x y) && not (fl.lt y x))
  -- `<=` of numbers is "not greater"
  pub le_def : (x y : fl.Float) → IsNumber fl x → IsNumber fl y → fl.le x y ≡ not (fl.lt y x)
  -- Rounding a literal keeps the order, and a literal is a number.
  pub lit_mono : (m n k : ℕ) → m ≤ n → fl.lt (fl.lit n k) (fl.lit m k) ≡ false
  pub lit-IsNumber : (m k : ℕ) → IsNumber fl (fl.lit m k)

pub IsWeakOrder-lt : (fl : Floats) → IsIeee fl → IsWeakOrder fl.lt (IsNumber fl)
IsWeakOrder-lt fl h = record {
  irrefl = λ x p. h.lt_irrefl x;
  trans = λ x y z p q r. h.lt_trans x y z;
  not_lt_trans = λ x y z p q r. h.not_lt_trans x y z q;
}

-- Millionths as numbers: an instance that shows that the laws can be met, and that tests run on.
abbrev pub micro : Floats
micro = record {
  Float = ℕ;
  lit = λ m k. m * 1_000_000 / 10 ^ k;
  of_int = λ n. pos_part n * 1_000_000;
  ratio = λ a b. pos_part a * 1_000_000 / pos_part b;
  lt = ltb;
  le = leb;
  feq = ◌==◌;
  add = ◌+◌;
  sub = ◌-◌;
  mul = λ x y. x * y / 1_000_000;
  div = λ x y. x * 1_000_000 / y;
  to_int = λ x. some (pos (x / 1_000_000));
  is_nan = λ x. false;
}
