-- ===== src/Base/Ranks.antt =====
-- How many items of a list are less than, or greater than, the one at a place of its sorted list.
use Prim.Native.Nat.{ℕ, zero, suc, ◌+◌, ◌≤◌, ◌<◌}
use mathlib.Core.Path.{◌≡◌, refl, subst}
use mathlib.Core.Logic.{inl, inr}
use mathlib.Core.Bool.{Bool, false}
use mathlib.Core.List.{List, [], ◌∷◌}
use mathlib.Core.Option.{some}
use native.Mathlib.Omega.{arith}
use asr_serve.Base.Lists.{All, length, get_elem?}
use asr_serve.Base.Order.{
  IsWeakOrder, IsLeast, IsSorted, insert_sorted, sort_by, sort_by-IsSorted, All-sort_by,
}
use asr_serve.Base.Sums.{total}
use asr_serve.Base.Test.{if◌then◌else◌, Bool-cases}

module _ {A : Type 0} (p : A → Bool) where
  abbrev holds_once : A → ℕ
  holds_once x = if p x then 1 else 0

  -- how many items pass
  abbrev pub count : List A → ℕ
  count xs = total holds_once xs

  count-le : (xs : List A) → count xs ≤ length xs
  count-le [] = omega arith
  count-le (x ∷ xs) = elim (Bool-cases (p x)) [
    | inl e ↦ rw e (omega (arith, count-le xs))
    | inr e ↦ rw e (omega (arith, count-le xs))
  ]

  count-zero : (xs : List A) → All (λ x. p x ≡ false) xs → count xs ≡ 0
  count-zero [] h = refl
  count-zero (x ∷ xs) (e, h) = rw e (omega (arith, count-zero xs h))

module _ {A : Type 0} where
  All-get_elem? :
      (P : A → Type 0) (xs : List A) (i : ℕ) (v : A) → All P xs → get_elem? xs i ≡ some v → P v
  All-get_elem? P [] i v h e = cc
  All-get_elem? P (x ∷ xs) zero v h e = let same : x ≡ v = cc in subst P same h.0
  All-get_elem? P (x ∷ xs) (suc i) v h e = All-get_elem? P xs i v h.1 e

  -- the value stands at a place of the list
  abbrev pub IsAt : List A → A → Type 0
  IsAt xs v = (j : ℕ) × (get_elem? xs j ≡ some v)

  IsAt-part :
      (xs ys : List A) → ((j : ℕ) (v : A) → get_elem? ys j ≡ some v → IsAt xs v) → All (IsAt xs) ys
  IsAt-part xs [] h = tt
  IsAt-part xs (y ∷ ys) h = (h 0 y refl, IsAt-part xs ys (λ j v. h (suc j) v))

  All-IsAt : (xs : List A) → All (IsAt xs) xs
  All-IsAt xs = IsAt-part xs xs (λ j v e. (j, e))

module _ {A : Type 0} (lt : A → A → Bool) where
  total-insert_sorted :
      (f : A → ℕ) (x : A) (xs : List A) → total f (insert_sorted lt x xs) ≡ f x + total f xs
  unfolding insert_sorted
  total-insert_sorted f x [] = refl
  total-insert_sorted f x (y ∷ ys) = elim (Bool-cases (lt y x)) [
    | inl e ↦ rw e (omega (arith, total-insert_sorted f x ys))
    | inr e ↦ rw e refl
  ]

  total-sort_by : (f : A → ℕ) (xs : List A) → total f (sort_by lt xs) ≡ total f xs
  unfolding sort_by
  total-sort_by f [] = refl
  total-sort_by f (x ∷ xs) =
      omega (arith, total-insert_sorted f x (sort_by lt xs), total-sort_by f xs)

  length-insert_sorted : (x : A) (xs : List A) → length (insert_sorted lt x xs) ≡ suc (length xs)
  unfolding insert_sorted
  length-insert_sorted x [] = refl
  length-insert_sorted x (y ∷ ys) = elim (Bool-cases (lt y x)) [
    | inl e ↦ rw e (omega (arith, length-insert_sorted x ys))
    | inr e ↦ rw e refl
  ]

  pub length-sort_by : (xs : List A) → length (sort_by lt xs) ≡ length xs
  unfolding sort_by
  length-sort_by [] = refl
  length-sort_by (x ∷ xs) = omega (arith, length-insert_sorted x (sort_by lt xs), length-sort_by xs)

  abbrev pub below : A → List A → ℕ
  below v xs = count (λ x. lt x v) xs

  abbrev pub above : A → List A → ℕ
  above v xs = count (λ x. lt v x) xs

  first_rank :
      (x : A) (xs : List A)
      → lt x x ≡ false
      → IsLeast lt x xs
      → (below x (x ∷ xs) ≤ 0) × (above x (x ∷ xs) + 0 < length (x ∷ xs))
  first_rank x xs irrefl least =
      rw irrefl
        (omega (arith, count-zero (λ y. lt y x) xs least), omega (arith, count-le (λ y. lt x y) xs))

  module _ {Proper : A → Type 0} (o : IsWeakOrder lt Proper) where
    sorted_rank :
        (xs : List A) (i : ℕ) (v : A)
        → All Proper xs
        → IsSorted lt xs
        → get_elem? xs i ≡ some v
        → (below v xs ≤ i) × (above v xs + i < length xs)
    sorted_rank [] i v ps s e = cc
    sorted_rank (x ∷ xs) zero v ps s e =
        let same : x ≡ v = cc in
        subst (λ u. (below u (x ∷ xs) ≤ 0) × (above u (x ∷ xs) + 0 < length (x ∷ xs))) same
          (first_rank x xs (o.irrefl x ps.0) s.0)
    sorted_rank (x ∷ xs) (suc i) v ps s e =
        let (less, more) = sorted_rank xs i v ps.1 s.1 e in
        let not_above : lt v x ≡ false = All-get_elem? (λ y. lt y x ≡ false) xs i v s.0 e in
        elim (Bool-cases (lt x v)) [
          | inl b ↦ rw (b, not_above) (omega arith, omega arith)
          | inr b ↦ rw (b, not_above) (omega arith, omega arith)
        ]

    -- The item at place `i` of the sorted list is an item of the list; at most `i` items are less, and
    -- fewer than what is left after `i` are greater.
    pub sort_by-rank :
        (xs : List A) (i : ℕ) (v : A)
        → All Proper xs
        → get_elem? (sort_by lt xs) i ≡ some v
        → IsAt xs v × (below v xs ≤ i) × (above v xs + i < length xs)
    sort_by-rank xs i v ps e =
        let (less, more) =
          sorted_rank (sort_by lt xs) i v (All-sort_by lt Proper xs ps)
            (sort_by-IsSorted lt o xs ps) e in
        (
          All-get_elem? (IsAt xs) (sort_by lt xs) i v (All-sort_by lt (IsAt xs) xs (All-IsAt xs)) e,
          omega (arith, total-sort_by (holds_once (λ x. lt x v)) xs),
          omega (arith, total-sort_by (holds_once (λ x. lt v x)) xs, length-sort_by xs),
        )
