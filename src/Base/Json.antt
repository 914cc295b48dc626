-- ===== src/Base/Json.antt =====
-- Python values as `json.loads` and `yaml.safe_load` make them: scalars, lists and dictionaries.
use Prim.Native.String.{String}
use mathlib.Core.Bool.{Bool, true, false, not}
use mathlib.Core.List.{List, [], ◌∷◌}
use mathlib.Core.Option.{Option, none, some}
use Prim.Native.Nat.{ℕ, zero}
use asr_serve.Base.Dict.{Dict}
use asr_serve.Base.Floats.{Floats}
use asr_serve.Base.Int.{ℤ, pos}
use asr_serve.Base.Result.{Result, ok, raise, attribute_error, type_error, value_error}
use asr_serve.Base.Test.{str_eq}
use asr_serve.Base.Text.{codes, parse_int}

mutual
  pub data Json (Float : Type 0) : Type 0 where
    null : Json Float
    bool : Bool → Json Float
    int : ℤ → Json Float
    float : Float → Json Float
    text : String → Json Float
    array : Items Float → Json Float
    object : Fields Float → Json Float

  pub data Items (Float : Type 0) : Type 0 where
    nil : Items Float
    cons : Json Float → Items Float → Items Float

  pub data Fields (Float : Type 0) : Type 0 where
    end : Fields Float
    field : String → Json Float → Fields Float → Fields Float

module _ {Float : Type 0} where
  abbrev pub items : Items Float → List (Json Float)
  items nil = []
  items (cons v vs) = v ∷ items vs

  abbrev pub entries : Fields Float → Dict (Json Float)
  entries end = []
  entries (field k v fs) = (k, v) ∷ entries fs

  abbrev pub items_of : List (Json Float) → Items Float
  items_of [] = nil
  items_of (v ∷ vs) = cons v (items_of vs)

  abbrev pub fields_of : Dict (Json Float) → Fields Float
  fields_of [] = end
  fields_of ((k, v) ∷ d) = field k v (fields_of d)

  -- the attributes of a `dict`
  abbrev pub as_dict : Json Float → Result (Dict (Json Float))
  as_dict null = raise attribute_error
  as_dict (bool b) = raise attribute_error
  as_dict (int n) = raise attribute_error
  as_dict (float x) = raise attribute_error
  as_dict (text s) = raise attribute_error
  as_dict (array vs) = raise attribute_error
  as_dict (object fs) = ok (entries fs)

  -- `v == s`
  abbrev pub text_is : Json Float → String → Bool
  text_is null s = false
  text_is (bool b) s = false
  text_is (int n) s = false
  text_is (float x) s = false
  text_is (text t) s = str_eq t s
  text_is (array vs) s = false
  text_is (object fs) s = false

-- `bool(v)`
unfoldable pub json_truth : (fl : Floats) → Json fl.Float → Bool
json_truth fl null = false
json_truth fl (bool b) = b
json_truth fl (int (pos zero)) = false
json_truth fl (int n) = true
json_truth fl (float x) = not (fl.feq x (fl.lit 0 0))
json_truth fl (text s) = not (str_eq s "")
json_truth fl (array nil) = false
json_truth fl (array (cons v vs)) = true
json_truth fl (object end) = false
json_truth fl (object (field k v fs)) = true

module _ (fl : Floats) (decimal : ℕ → Option ℕ) where
  abbrev or_value_error : Option ℤ → Result ℤ
  or_value_error none = raise value_error
  or_value_error (some n) = ok n

  -- `int(v)`; the OverflowError of an infinity is a ValueError here
  unfoldable pub json_int : Json fl.Float → Result ℤ
  json_int null = raise type_error
  json_int (bool true) = ok (pos 1)
  json_int (bool false) = ok (pos 0)
  json_int (int n) = ok n
  json_int (float x) = or_value_error (fl.to_int x)
  json_int (text s) = or_value_error (parse_int decimal (codes s))
  json_int (array vs) = raise type_error
  json_int (object fs) = raise type_error
