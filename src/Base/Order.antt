-- ===== src/Base/Order.antt =====
-- Python's `min` and `list.sort` over a strict comparison `lt`, and what they promise when `lt` is a
-- strict weak order on the values that are not exceptional (NaN is).
use mathlib.Core.Path.{◌≡◌, sym, subst}
use mathlib.Core.Logic.{inl, inr}
use mathlib.Core.Bool.{Bool, true, false}
use mathlib.Core.List.{List, [], ◌∷◌}
use mathlib.Core.Option.{Option, none, some}
use asr_serve.Base.Test.{if◌then◌else◌, Bool-cases}
use asr_serve.Base.Lists.{All}

pub record IsWeakOrder {A : Type 0} (lt : A → A → Bool) (Proper : A → Type 0) : Type 0 where
  pub irrefl : (x : A) → Proper x → lt x x ≡ false
  pub trans :
      (x y z : A) → Proper x → Proper y → Proper z → lt x y ≡ true → lt y z ≡ true → lt x z ≡ true
  pub not_lt_trans :
      (x y z : A)
      → Proper x
      → Proper y
      → Proper z
      → lt x y ≡ false
      → lt y z ≡ false
      → lt x z ≡ false

module _ {A : Type 0} (lt : A → A → Bool) where
  -- the loop of `min(xs)`: the first of the least items
  unfoldable pub min_from : A → List A → A
  min_from best [] = best
  min_from best (x ∷ xs) = min_from (if lt x best then x else best) xs

  unfoldable pub min_by : List A → Option A
  unfolding min_from
  min_by [] = none
  min_by (x ∷ xs) = some (min_from x xs)

  -- `xs.sort()`: a stable sort; an item goes before the first one that is not less.
  unfoldable pub insert_sorted : A → List A → List A
  insert_sorted x [] = x ∷ []
  insert_sorted x (y ∷ ys) = if lt y x then y ∷ insert_sorted x ys else x ∷ y ∷ ys

  unfoldable pub sort_by : List A → List A
  unfolding insert_sorted
  sort_by [] = []
  sort_by (x ∷ xs) = insert_sorted x (sort_by xs)

  -- No item is less than `m`.
  abbrev pub IsLeast : A → List A → Type 0
  IsLeast m = All (λ y. lt y m ≡ false)

  abbrev pub IsSorted : List A → Type 0
  IsSorted [] = Unit
  IsSorted (x ∷ xs) = IsLeast x xs × IsSorted xs

  pub All-insert_sorted :
      (P : A → Type 0) (x : A) (xs : List A) → P x → All P xs → All P (insert_sorted x xs)
  unfolding insert_sorted
  All-insert_sorted P x [] p h = (p, tt)
  All-insert_sorted P x (y ∷ ys) p h = elim (Bool-cases (lt y x)) [
    | inl e ↦ rw e (h.0, All-insert_sorted P x ys p h.1)
    | inr e ↦ rw e (p, h)
  ]

  pub All-sort_by : (P : A → Type 0) (xs : List A) → All P xs → All P (sort_by xs)
  unfolding sort_by
  All-sort_by P [] h = tt
  All-sort_by P (x ∷ xs) h = All-insert_sorted P x (sort_by xs) h.0 (All-sort_by P xs h.1)

  All-insert_sorted_inv :
      (P : A → Type 0) (x : A) (xs : List A) → All P (insert_sorted x xs) → P x × All P xs
  unfolding insert_sorted
  All-insert_sorted_inv P x [] h = h
  All-insert_sorted_inv P x (y ∷ ys) h = elim (Bool-cases (lt y x)) [
    | inl e ↦
        let h' : P y × All P (insert_sorted x ys) = rw e at h in
        let rest = All-insert_sorted_inv P x ys h'.1 in (rest.0, (h'.0, rest.1))
    | inr e ↦ let h' : P x × (P y × All P ys) = rw e at h in h'
  ]

  -- What holds of every item of the sorted list holds of every item.
  pub All-sort_by_inv : (P : A → Type 0) (xs : List A) → All P (sort_by xs) → All P xs
  unfolding sort_by
  All-sort_by_inv P [] h = tt
  All-sort_by_inv P (x ∷ xs) h =
      let rest = All-insert_sorted_inv P x (sort_by xs) h in (rest.0, All-sort_by_inv P xs rest.1)

  min_from-proper :
      (P : A → Type 0) (best : A) (xs : List A) → P best → All P xs → P (min_from best xs)
  unfolding min_from
  min_from-proper P best [] p h = p
  min_from-proper P best (x ∷ xs) p h = elim (Bool-cases (lt x best)) [
    | inl e ↦ rw e (min_from-proper P x xs h.0 h.1)
    | inr e ↦ rw e (min_from-proper P best xs p h.1)
  ]

  module _ {Proper : A → Type 0} (o : IsWeakOrder lt Proper) where
    lt_asymm : (x y : A) → Proper x → Proper y → lt x y ≡ true → lt y x ≡ false
    lt_asymm x y px py h = elim (Bool-cases (lt y x)) [
      | inl e ↦ cc (o.trans x y x px py px h e, o.irrefl x px)
      | inr e ↦ e
    ]

    -- What is not above `m` is below all that `m` is below.
    IsLeast-of_lt :
        (x m : A) (ys : List A)
        → Proper x
        → Proper m
        → All Proper ys
        → lt m x ≡ false
        → IsLeast m ys
        → IsLeast x ys
    IsLeast-of_lt x m [] px pm ps h all = tt
    IsLeast-of_lt x m (y ∷ ys) px pm ps h all =
        (o.not_lt_trans y m x ps.0 pm px all.0 h, IsLeast-of_lt x m ys px pm ps.1 h all.1)

    -- `m` is not below the candidate, and no item is less than `m`.
    abbrev IsMin : A → A → List A → Type 0
    IsMin best m xs = (lt best m ≡ false) × IsLeast m xs

    pub min_from-IsLeast :
        (best : A) (xs : List A) → Proper best → All Proper xs → IsMin best (min_from best xs) xs
    unfolding min_from
    min_from-IsLeast best [] p h = (o.irrefl best p, tt)
    min_from-IsLeast best (x ∷ xs) p h = elim (Bool-cases (lt x best)) [
      | inl e ↦
          let (below, rest) = min_from-IsLeast x xs h.0 h.1 in
          let least = min_from-proper Proper x xs h.0 h.1 in
          subst (λ b. IsMin best (min_from b xs) (x ∷ xs)) (sym (rw e))
            (o.not_lt_trans best x _ p h.0 least (lt_asymm x best h.0 p e) below, (below, rest))
      | inr e ↦
          let (below, rest) = min_from-IsLeast best xs p h.1 in
          let least = min_from-proper Proper best xs p h.1 in
          subst (λ b. IsMin best (min_from b xs) (x ∷ xs)) (sym (rw e))
            (below, (o.not_lt_trans x best _ h.0 p least e below, rest))
    ]

    insert_sorted-IsSorted :
        (x : A) (xs : List A)
        → Proper x
        → All Proper xs
        → IsSorted xs
        → IsSorted (insert_sorted x xs)
    unfolding insert_sorted
    insert_sorted-IsSorted x [] p ps s = (tt, tt)
    insert_sorted-IsSorted x (y ∷ ys) p ps s = elim (Bool-cases (lt y x)) [
      | inl e ↦ rw e (
        All-insert_sorted (λ z. lt z y ≡ false) x ys (lt_asymm y x ps.0 p e) s.0,
        insert_sorted-IsSorted x ys p ps.1 s.1,
      )
      | inr e ↦ rw e ((e, IsLeast-of_lt x y ys p ps.0 ps.1 e s.0), s)
    ]

    pub sort_by-IsSorted : (xs : List A) → All Proper xs → IsSorted (sort_by xs)
    unfolding sort_by
    sort_by-IsSorted [] h = tt
    sort_by-IsSorted (x ∷ xs) h =
        insert_sorted-IsSorted x (sort_by xs) h.0 (All-sort_by Proper xs h.1)
          (sort_by-IsSorted xs h.1)

    -- The first item of the sorted list is an item that no item is less than.
    pub sort_by-head :
        (xs : List A) (m : A) (rest : List A)
        → All Proper xs
        → sort_by xs ≡ m ∷ rest
        → Proper m × IsLeast m xs
    sort_by-head xs m rest h e =
        let sorted : IsSorted (m ∷ rest) = subst IsSorted e (sort_by-IsSorted xs h) in
        let proper : All Proper (m ∷ rest) = subst (All Proper) e (All-sort_by Proper xs h) in
        let least : IsLeast m (m ∷ rest) = (o.irrefl m proper.0, sorted.0) in
        (proper.0, All-sort_by_inv (λ y. lt y m ≡ false) xs (subst (IsLeast m) (sym e) least))
