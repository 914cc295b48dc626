-- ===== src/Base/Text/Decimal.antt =====
-- `int` of the text that `str` makes of an integer, in Base/Text.
use Prim.Native.Nat.{ℕ, zero, suc, ◌+◌, ◌-◌, ◌*◌, ◌/◌, ◌%◌, ◌<◌, ◌≤◌}
use mathlib.Core.Path.{◌≡◌, refl, ap, ◌∙◌}
use mathlib.Core.Bool.{true, false}
use mathlib.Core.Option
use mathlib.Core.Option.{Option, none, some}
use mathlib.Core.List.{[], ◌∷◌, ◌++◌}
use native.Mathlib.Omega.{arith}
use mathlib.Core.Logic.{inl, inr}
use asr_serve.Base.Test.{ltb, Bool-cases}
use asr_serve.Base.Int.{ℤ, pos, negsuc}
use asr_serve.Base.Lists.{All}
use asr_serve.Base.Text.{
  Text, is_space, is_int_space, lstrip, rstrip, kept, digits, str_int, parse_digits, parse_signed,
  parse_int, IsDecimal,
}

abbrev IsDigit : ℕ → Type 0
IsDigit c = (48 ≤ c) × (c ≤ 57)

All-append : (P : ℕ → Type 0) (xs ys : Text) → All P xs → All P ys → All P (xs ++ ys)
All-append P [] ys h k = k
All-append P (x ∷ xs) ys h k = (h.0, All-append P xs ys h.1 k)

digits-IsDigit : (fuel n : ℕ) → All IsDigit (digits fuel n)
unfolding digits
digits-IsDigit zero n = tt
digits-IsDigit (suc fuel) n = elim (Bool-cases (ltb n 10)) [
  | inl e ↦ rw e (ground arith)
  | inr e ↦ rw e (All-append IsDigit _ _ (digits-IsDigit fuel (n / 10)) (omega arith))
]

append-cons : (xs : Text) (y : ℕ) → (c : ℕ) × (s : Text) × (xs ++ y ∷ [] ≡ c ∷ s)
append-cons [] y = (y, [], refl)
append-cons (x ∷ xs) y = (x, xs ++ y ∷ [], refl)

digits-cons : (fuel n : ℕ) → (c : ℕ) × (s : Text) × (digits (suc fuel) n ≡ c ∷ s)
unfolding digits
digits-cons fuel n = elim (Bool-cases (ltb n 10)) [
  | inl e ↦ (48 + n, [], rw e)
  | inr e ↦ rw e (append-cons (digits fuel (n / 10)) (48 + n % 10))
]

digit_not_space : (c : ℕ) → IsDigit c → is_int_space c ≡ false
unfolding is_int_space is_space
digit_not_space c h = ground arith

lstrip_digit : (c : ℕ) (s : Text) → IsDigit c → lstrip (c ∷ s) ≡ c ∷ s
lstrip_digit c s h = rw (digit_not_space c h, lstrip)

strip_digits : (s : Text) → All IsDigit s → rstrip s ≡ s
strip_digits [] h = refl
strip_digits (c ∷ []) h = rw (digit_not_space c h.0)
strip_digits (c ∷ d ∷ s) h = rw (strip_digits (d ∷ s) h.1, kept)

-- the number that digits stand for, after those that gave `acc`
value : ℕ → Text → ℕ
value acc [] = acc
value acc (c ∷ s) = value (acc * 10 + (c - 48)) s

value-snoc : (acc : ℕ) (s : Text) (c : ℕ) → value acc (s ++ c ∷ []) ≡ value acc s * 10 + (c - 48)
unfolding value
value-snoc acc [] c = refl
value-snoc acc (x ∷ s) c = value-snoc (acc * 10 + (x - 48)) s c

value-digits : (fuel n : ℕ) → n < fuel → value 0 (digits fuel n) ≡ n
unfolding digits
value-digits zero n h = absurd (omega arith)
value-digits (suc fuel) n h = elim (Bool-cases (ltb n 10)) [
  | inl e ↦ rw e (unfold value in omega arith)
  | inr e ↦ rw (e, value-snoc, value-digits fuel (n / 10) (ground arith)) (omega arith)
]

module _ (decimal : ℕ → Option ℕ) (known : IsDecimal decimal) where
  decimal-digit : (c : ℕ) → IsDigit c → decimal c ≡ some (c - 48)
  decimal-digit c h =
      let e : 48 + (c - 48) ≡ c = omega arith in rw e at (known.ascii (c - 48) (omega arith))

  parse_digits-value :
      (acc : ℕ) (s : Text) → All IsDigit s → parse_digits decimal true acc s ≡ some (value acc s)
  unfolding parse_digits value
  parse_digits-value acc [] h = refl
  parse_digits-value acc (c ∷ s) h =
      rw (decimal-digit c h.0, parse_digits) (parse_digits-value (acc * 10 + (c - 48)) s h.1)

  parse_digits-cons :
      (c : ℕ) (s : Text)
      → All IsDigit (c ∷ s)
      → parse_digits decimal false 0 (c ∷ s) ≡ some (value 0 (c ∷ s))
  unfolding parse_digits value
  parse_digits-cons c s h =
      rw (decimal-digit c h.0, parse_digits) (parse_digits-value (0 * 10 + (c - 48)) s h.1)

  parse_digits-digits : (n : ℕ) → parse_digits decimal false 0 (digits (suc n) n) ≡ some n
  parse_digits-digits n =
      let (c, s, e) = digits-cons n n in
      let all : All IsDigit (c ∷ s) = rw e at (digits-IsDigit (suc n) n) in
      let v : value 0 (c ∷ s) ≡ n = rw e at (value-digits (suc n) n (omega arith)) in
      rw e (parse_digits-cons c s all ∙ ap some v)

  parse_signed-digits :
      (c : ℕ) (s : Text)
      → IsDigit c
      → parse_signed decimal (c ∷ s) ≡ Option.map pos (parse_digits decimal false 0 (c ∷ s))
  unfolding parse_signed
  parse_signed-digits c s h = ground arith

  parse_int-digits : (n : ℕ) → parse_int decimal (digits (suc n) n) ≡ some (pos n)
  unfolding parse_int
  parse_int-digits n =
      let (c, s, e) = digits-cons n n in
      let all : All IsDigit (c ∷ s) = rw e at (digits-IsDigit (suc n) n) in
      let parsed = rw e at (parse_digits-digits n) in
      rw
        (e, lstrip_digit c s all.0, strip_digits (c ∷ s) all, parse_signed-digits c s all.0, parsed)

  parse_int-minus :
      (n : ℕ) → parse_int decimal (b'-' ∷ digits (suc (suc n)) (suc n)) ≡ some (negsuc n)
  unfolding parse_int parse_signed is_int_space is_space
  parse_int-minus n =
      let (c, s, e) = digits-cons (suc n) (suc n) in
      let all : All IsDigit (c ∷ s) = rw e at (digits-IsDigit (suc (suc n)) (suc n)) in
      let parsed = rw e at (parse_digits-digits (suc n)) in rw (e, strip_digits (c ∷ s) all, parsed)

  -- `int(str(z)) == z` for every integer.
  pub parse_int-str_int : (z : ℤ) → parse_int decimal (str_int z) ≡ some z
  unfolding str_int
  parse_int-str_int (pos n) = parse_int-digits n
  parse_int-str_int (negsuc n) = parse_int-minus n
