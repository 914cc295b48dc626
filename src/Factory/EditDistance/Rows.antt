-- ===== src/Factory/EditDistance/Rows.antt =====
-- The rows of `_edit_distance` of agentic-factory/src/evaluator.py against the recursive distance.
use native.Mathlib.Numerals.{sub-one}
use asr_serve.Base.{
  ℕ, zero, suc, ◌+◌, ◌≤◌, ◌<◌, Bool, false, ◌≡◌, refl, ap, ◌∙◌, List, Option, none, some, arith,
  length, get_elem?, set, length-set, get_elem?-set_self, get_elem?-set_ne, get_elem?-some,
}
use asr_serve.Base.Loops.{Succeeds, for_range-Succeeds}
use asr_serve.Factory.EditDistance.{store, range, fill_cell, fill_row, edit_distance}
use asr_serve.Factory.EditDistance.Levenshtein.{Script, dist, dist-le-cost, dist-Script}

-- Of `width` cells those below `upto` hold the values of `f`.
record IsFilled (width : ℕ) (f : ℕ → ℕ) (upto : ℕ) (dp : List ℕ) : Type 0 where
  size : length dp ≡ width
  cells : (j : ℕ) → j < upto → get_elem? dp j ≡ some (f j)

store-IsFilled :
    {width : ℕ} {f : ℕ → ℕ} (k : ℕ) (dp : List ℕ)
    → k < width
    → IsFilled width f k dp
    → Succeeds (IsFilled width f (suc k)) (store dp k (f k))
unfolding store
store-IsFilled {f} k dp h p = (
  set dp k (f k),
  ground (arith, p.size),
  record {
    size = length-set dp k (f k) ∙ p.size;
    cells = λ j q.
        ground
          (arith, p.size, p.cells j, get_elem?-set_self dp k (f k), get_elem?-set_ne dp k j (f k));
  },
)

range-IsFilled : (n i : ℕ) → IsFilled n (λ j. i + j) n (range n i)
unfolding range
range-IsFilled n i = record { size = size n i; cells = cells n i }
  where
    size : (m k : ℕ) → length (range m k) ≡ m
    size zero k = refl
    size (suc m) k = ap suc (size m (suc k))

    cells : (m k j : ℕ) → j < m → get_elem? (range m k) j ≡ some (k + j)
    cells zero k j h = absurd (omega arith)
    cells (suc m) k zero h = ap some (omega arith)
    cells (suc m) k (suc j) h = cells m (suc k) j (omega arith) ∙ ap some (omega arith)

-- whether both are there and equal
abbrev pub both : {A : Type 0} → (A → A → Bool) → Option A → Option A → Bool
both eq none p = false
both eq (some x) none = false
both eq (some x) (some y) = eq x y

module _ {A : Type 0} (eq : A → A → Bool) (a b : List A) where
  -- whether item `i` of `a` and item `j` of `b` are there and equal
  abbrev pub same : ℕ → ℕ → Bool
  same i j = both eq (get_elem? a i) (get_elem? b j)

  abbrev IsRow : ℕ → ℕ → List ℕ → Type 0
  IsRow i = IsFilled (length b + 1) (dist same i)

  fill_cell-store :
      (i j : ℕ) (prev dp : List ℕ)
      → i < length a
      → j < length b
      → IsRow i (length b + 1) prev
      → IsRow (suc i) (suc j) dp
      → fill_cell eq a b (suc i) prev (suc j) dp ≡ store dp (suc j) (dist same (suc i) (suc j))
  unfolding fill_cell dist
  fill_cell-store i j prev dp hi hj p q =
      let (x, ex) = get_elem?-some a i hi in
      let (y, ey) = get_elem?-some b j hj in
      let diagonal = p.cells j (omega arith) in
      let above = p.cells (suc j) (omega arith) in
      let left = q.cells j (omega arith) in
      simp (sub-one, ex, ey, diagonal, above, left) (ground arith)

  fill_row-IsRow :
      (i : ℕ) (dp : List ℕ)
      → i < length a
      → IsRow i (length b + 1) dp
      → Succeeds (IsRow (suc i) (length b + 1)) (fill_row eq a b (suc i) dp)
  unfolding fill_row dist
  fill_row-IsRow i dp hi p =
      let (started, stored, first) =
        store-IsFilled {f = dist same (suc i)} 0 dp (omega arith)
          (record { size = p.size; cells = λ j h. absurd (omega arith) }) in
      rw stored (
        for_range-Succeeds (IsRow (suc i)) (length b + 1) _ (length b) 1 started (omega arith) step
          first)
    where
      step :
          (k : ℕ) (t : List ℕ)
          → 1 ≤ k
          → k < length b + 1
          → IsRow (suc i) k t
          → Succeeds (IsRow (suc i) (suc k)) (fill_cell eq a b (suc i) dp k t)
      step zero t lo below q = absurd (omega arith)
      step (suc j) t lo below q =
          rw (fill_cell-store i j dp t hi (omega arith) p q)
            (store-IsFilled {f = dist same (suc i)} (suc j) t below q)

  pub edit_distance-eq-dist : edit_distance eq a b ≡ some (dist same (length a) (length b))
  unfolding edit_distance dist
  edit_distance-eq-dist =
      let zero_row = range-IsFilled (length b + 1) 0 in
      let first : IsRow 0 (length b + 1) (range (length b + 1) 0) = record {
        size = zero_row.size;
        cells = λ j h. zero_row.cells j h ∙ ap some (omega arith);
      } in
      let (dp, ran, row) =
        for_range-Succeeds Before (suc (length a)) _ (length a) 1 _ (omega arith) step first in
      rw ran (row.cells (length b) (omega arith))
    where
      -- before round `k` the row is the one of `k - 1` items of `a`
      Before : ℕ → List ℕ → Type 0
      Before zero dp = ⊥
      Before (suc i) dp = IsRow i (length b + 1) dp

      step :
          (k : ℕ) (t : List ℕ)
          → 1 ≤ k
          → k < suc (length a)
          → Before k t
          → Succeeds (Before (suc k)) (fill_row eq a b k t)
      step zero t lo below q = absurd q
      step (suc i) t lo below q = fill_row-IsRow i t (omega arith) q

  -- The function never raises; its result is the cost of some edit script, and no script costs less.
  pub edit_distance_least :
      (d : ℕ) × (edit_distance eq a b ≡ some d)
      × Script same (length a) (length b) d
      × ((k : ℕ) → Script same (length a) (length b) k → d ≤ k)
  edit_distance_least = (
    dist same (length a) (length b),
    edit_distance-eq-dist,
    dist-Script same (length a) (length b),
    λ k s. dist-le-cost same s,
  )
