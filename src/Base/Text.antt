-- ===== src/Base/Text.antt =====
-- Texts as the lists of their code points, where the program takes them apart: `str.split`,
-- `str(int)` and `int(str)`. `decimal` is Unicode's value of a decimal digit.
pub mod Decimal
use Prim.Native.Nat.{ℕ, zero, suc, ◌+◌, ◌-◌, ◌*◌, ◌/◌, ◌%◌, ◌<◌}
use Prim.Native.Char.{code}
use Prim.Native.String.{String}
use mathlib.Core.Path.{◌≡◌}
use mathlib.Core.Bool.{Bool, true, false, not, ◌&&◌, ◌||◌}
use mathlib.Core.Option
use mathlib.Core.Option.{Option, none, some}
use mathlib.Core.List.{List, [], ◌∷◌, ◌++◌}
use asr_serve.Base.Test.{◌==◌, ltb, leb, if◌then◌else◌}
use asr_serve.Base.Int.{ℤ, pos, negsuc}

abbrev pub Text : Type 0
Text = List ℕ

abbrev pub codes : String → Text
codes String.[] = []
codes (String.◌∷◌ c s) = code c ∷ codes s

-- the white space of `str.split()`
unfoldable pub is_space : ℕ → Bool
is_space c =
    (leb 9 c && leb c 13)
    || (leb 28 c && leb c 32)
    || c == 0x85
    || c == 0xa0
    || c == 0x1680
    || (leb 0x2000 c && leb c 0x200a)
    || c == 0x2028
    || c == 0x2029
    || c == 0x202f
    || c == 0x205f
    || c == 0x3000

-- the white space around the digits of `int(s)`, which has no separators of ASCII
unfoldable pub is_int_space : ℕ → Bool
is_int_space c = is_space c && not (leb 28 c && leb c 31)

abbrev pub lstrip : Text → Text
lstrip [] = []
lstrip (c ∷ s) = elim (is_int_space c) [ true ↦ lstrip s | false ↦ c ∷ s ]

-- the character before what is left, unless both are blank
abbrev pub kept : ℕ → Text → Text
kept c [] = if is_int_space c then [] else c ∷ []
kept c (d ∷ s) = c ∷ d ∷ s

abbrev pub rstrip : Text → Text
rstrip [] = []
rstrip (c ∷ s) = kept c (rstrip s)

-- `str(n)`, with fuel above `n`
pub digits : ℕ → ℕ → Text
digits zero n = []
digits (suc fuel) n =
    let rest = digits fuel (n / 10) in
    if ltb n 10 then (48 + n) ∷ [] else rest ++ (48 + n % 10) ∷ []

pub str_int : ℤ → Text
str_int (pos n) = digits (suc n) n
str_int (negsuc n) = b'-' ∷ digits (suc (suc n)) (suc n)

abbrev pub negative : ℕ → ℤ
negative zero = pos zero
negative (suc n) = negsuc n

module _ (decimal : ℕ → Option ℕ) where
  -- digits, with at most one underscore between two
  unfoldable pub parse_digits : Bool → ℕ → Text → Option ℕ
  parse_digits after_digit acc [] = if after_digit then some acc else none
  parse_digits after_digit acc (c ∷ s) = elim (decimal c) [
    | some d ↦ parse_digits true (acc * 10 + d) s
    | none ↦ elim (after_digit && c == b'_') [ true ↦ parse_digits false acc s | false ↦ none ]
  ]

  unfoldable pub parse_signed : Text → Option ℤ
  parse_signed [] = none
  parse_signed (c ∷ s) =
      if c == b'-'
      then Option.map negative (parse_digits false 0 s)
      else if c == b'+'
      then Option.map pos (parse_digits false 0 s)
      else Option.map pos (parse_digits false 0 (c ∷ s))

  -- `int(s)`; `none` is its ValueError.
  unfoldable pub parse_int : Text → Option ℤ
  parse_int s = parse_signed (rstrip (lstrip s))

-- Unicode gives the ASCII digits their values.
pub record IsDecimal (decimal : ℕ → Option ℕ) : Type 0 where
  pub ascii : (d : ℕ) → d < 10 → decimal (48 + d) ≡ some d

-- the digits of ASCII alone, for tests
abbrev pub ascii_digit : ℕ → Option ℕ
ascii_digit c = if leb 48 c && leb c 57 then some (c - 48) else none
