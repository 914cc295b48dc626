-- ===== src/Base/Value.antt =====
-- Python values as the hints carry them (`Any`): the scalars. `int(v)` and `bool(v)`;
-- the OverflowError of `int` at an infinity is a ValueError here.
use mathlib.Core.Bool.{Bool, true, false, not}
use mathlib.Core.Option.{Option, none, some}
use mathlib.Core.List.{[], ◌∷◌}
use Prim.Native.Nat.{ℕ, zero}
use asr_serve.Base.Floats.{Floats}
use asr_serve.Base.Int.{ℤ, pos}
use asr_serve.Base.Result.{Result, ok, raise, type_error, value_error}
use asr_serve.Base.Text.{Text, parse_int}

pub data Value (Float : Type 0) : Type 0 where
  null : Value Float
  bool : Bool → Value Float
  int : ℤ → Value Float
  float : Float → Value Float
  str : Text → Value Float

abbrev or_value_error : Option ℤ → Result ℤ
or_value_error none = raise value_error
or_value_error (some n) = ok n

module _ (fl : Floats) (decimal : ℕ → Option ℕ) where
  unfoldable pub int_of : Value fl.Float → Result ℤ
  int_of null = raise type_error
  int_of (bool true) = ok (pos 1)
  int_of (bool false) = ok (pos 0)
  int_of (int n) = ok n
  int_of (float x) = or_value_error (fl.to_int x)
  int_of (str s) = or_value_error (parse_int decimal s)

unfoldable pub truth : (fl : Floats) → Value fl.Float → Bool
truth fl null = false
truth fl (bool b) = b
truth fl (int (pos zero)) = false
truth fl (int n) = true
truth fl (float x) = not (fl.feq x (fl.lit 0 0))
truth fl (str []) = false
truth fl (str (c ∷ s)) = true
