-- ===== src/Factory/EditDistance.antt =====
-- `_edit_distance` of agentic-factory/src/evaluator.py: one row of the table, updated in place from
-- a copy of itself. A read or a write out of range raises, which is `none` here.
pub mod Bounds
pub mod Levenshtein
pub mod Rows
use asr_serve.Base.{
  ℕ, zero, suc, ◌+◌, ◌-◌, ◌<◌, min, Bool, List, [], ◌∷◌, Option, none, some, ltb, if◌then◌else◌,
  length, get_elem?, set,
}
use asr_serve.Base.Loops.{◌>>=◌, for_range}

-- `xs[i] = v`
unfoldable pub store : List ℕ → ℕ → ℕ → Option (List ℕ)
store xs i v = if ltb i (length xs) then some (set xs i v) else none

-- `list(range(i, i + n))`
unfoldable pub range : ℕ → ℕ → List ℕ
range zero i = []
range (suc n) i = i ∷ range n (suc i)

module _ {A : Type 0} (eq : A → A → Bool) (a b : List A) where
  -- the body of the inner loop
  unfoldable pub fill_cell : ℕ → List ℕ → ℕ → List ℕ → Option (List ℕ)
  fill_cell i prev j dp = do
    x ← get_elem? a (i - 1)
    y ← get_elem? b (j - 1)
    diagonal ← get_elem? prev (j - 1)
    if eq x y then store dp j diagonal else do
      above ← get_elem? prev j
      left ← get_elem? dp (j - 1)
      store dp j (1 + min (min above left) diagonal)

  -- the body of the outer loop, `prev` being the copy of `dp`
  unfoldable pub fill_row : ℕ → List ℕ → Option (List ℕ)
  fill_row i dp = do started ← store dp 0 i; for_range (length b) 1 (fill_cell i dp) started

  unfoldable pub edit_distance : Option ℕ
  edit_distance = do
    dp ← for_range (length a) 1 fill_row (range (length b + 1) 0)
    get_elem? dp (length b)
