-- ===== src/Dynamo/Router/Percentile.antt =====
-- `_p99` of dynamo-orchestration/src/router.py.
use asr_serve.Base.{
  ℕ, ◌+◌, ◌-◌, ◌*◌, ◌/◌, ◌≤◌, ◌<◌, ◌≡◌, refl, arith, List, [], ◌∷◌, some, All, length, get_elem?,
  get_elem?-some,
}
use asr_serve.Base.Floats.{Floats, IsNumber, IsIeee, IsWeakOrder-lt}
use asr_serve.Base.Int.{pos}
use asr_serve.Base.Order.{sort_by}
use asr_serve.Base.Ranks.{IsAt, below, above, length-sort_by, sort_by-rank}
use asr_serve.Base.Result.{ok}
use asr_serve.Dynamo.Router.{at_place, p99}

module _ (fl : Floats) (ieee : IsIeee fl) where
  open fl use {Float, lit, lt, mul, of_int, to_int}

  -- The product with 0.99, truncated, is exact.
  abbrev pub IsExact : ℕ → Type 0
  IsExact n = to_int (mul (of_int (pos n)) (lit 99 2)) ≡ some (pos (99 * n / 100))

  -- `v` is the value of rank `i`, from 0, in the order of the values.
  abbrev pub HasRank : List Float → ℕ → Float → Type 0
  HasRank values i v =
      IsAt values v × (below lt v values ≤ i) × (above lt v values + i < length values)

  at_place-some :
      (values : List Float) (i : ℕ) (v : Float)
      → get_elem? values i ≡ some v
      → at_place fl values i ≡ ok v
  at_place-some values i v e = rw (at_place, e) refl

  -- Of a list of numbers that is not empty, `_p99` returns one: the one with ⌊0.99 n⌋ - 1 (at least 0)
  -- before it in the order of the n values, provided that the machine's n · 0.99 truncates to ⌊99 n / 100⌋.
  -- At most so many values are less, and fewer than the rest are greater.
  pub p99-rank :
      (values : List Float)
      → 1 ≤ length values
      → All (IsNumber fl) values
      → IsExact (length values)
      → (v : Float) × (p99 fl values ≡ ok v) × HasRank values (99 * length values / 100 - 1) v
  unfolding p99
  p99-rank [] h numbers exact = absurd (omega arith)
  p99-rank (x ∷ values) h numbers exact =
      let i = 99 * length (x ∷ values) / 100 - 1 in
      let within : i < length (sort_by lt (x ∷ values)) =
        omega (arith, length-sort_by lt (x ∷ values)) in
      let (v, at) = get_elem?-some (sort_by lt (x ∷ values)) i within in
      (
        v,
        rw (p99, exact) (at_place-some _ i v at),
        sort_by-rank lt (IsWeakOrder-lt fl ieee) (x ∷ values) i v numbers at,
      )
