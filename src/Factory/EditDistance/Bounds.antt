-- ===== src/Factory/EditDistance/Bounds.antt =====
-- `_edit_distance` of agentic-factory/src/evaluator.py: its range and its symmetry.
use mathlib.Core.Path.{subst}
use native.Mathlib.Decide.{dec_lt}
use asr_serve.Base.{
  ℕ, zero, suc, ◌+◌, ◌≤◌, ◌<◌, max, Bool, true, ◌≡◌, refl, ap, ◌∙◌, sym, ◌↔◌, List, [], ◌∷◌, Option,
  none, some, arith, length, get_elem?, get_elem?-some,
}
use asr_serve.Factory.EditDistance.{edit_distance}
use asr_serve.Factory.EditDistance.Levenshtein.{
  Script, start, delete, insert, substitute, keep_same, dist, dist-le-cost, dist-Script,
}
use asr_serve.Factory.EditDistance.Rows.{both, same, edit_distance-eq-dist}

module _ (eqv : ℕ → ℕ → Bool) where
  dist-le-max : (i j : ℕ) → dist eqv i j ≤ max i j
  unfolding dist
  dist-le-max zero j = omega arith
  dist-le-max (suc i) zero = omega arith
  dist-le-max (suc i) (suc j) = ground (arith, dist-le-max i j)

  Script-lengths : {i j k : ℕ} → Script eqv i j k → (i ≤ j + k) × (j ≤ i + k)
  Script-lengths start = omega arith
  Script-lengths (delete s) = omega (arith, Script-lengths s)
  Script-lengths (insert s) = omega (arith, Script-lengths s)
  Script-lengths (substitute s) = omega (arith, Script-lengths s)
  Script-lengths (keep_same h s) = omega (arith, Script-lengths s)

  abbrev AllSame : ℕ → Type 0
  AllSame i = (n : ℕ) → n < i → eqv n n ≡ true

  AllSame-of_Script : {i j k : ℕ} → Script eqv i j k → k ≡ 0 → (i ≡ j) × AllSame i
  AllSame-of_Script start e = (refl, λ n h. absurd (omega arith))
  AllSame-of_Script (delete s) e = absurd (omega arith)
  AllSame-of_Script (insert s) e = absurd (omega arith)
  AllSame-of_Script (substitute s) e = absurd (omega arith)
  AllSame-of_Script (keep_same {i} h s) e =
      let (ends, all) = AllSame-of_Script s e in
      (
        ap suc ends,
        λ n below. elim (dec_lt n i) [
          | yes p ↦ all n p
          | no p ↦ let at : n ≡ i = omega arith in rw at (rw (← ends) at h)
        ],
      )

  Script-of_AllSame : (i : ℕ) → AllSame i → Script eqv i i 0
  Script-of_AllSame zero h = start
  Script-of_AllSame (suc i) h =
      keep_same (h i (omega arith)) (Script-of_AllSame i (λ n p. h n (omega arith)))

dist_comm :
    (eqv eqv' : ℕ → ℕ → Bool)
    → ((i j : ℕ) → eqv i j ≡ eqv' j i)
    → (i j : ℕ) → dist eqv i j ≡ dist eqv' j i
unfolding dist
dist_comm eqv eqv' h zero zero = refl
dist_comm eqv eqv' h zero (suc j) = refl
dist_comm eqv eqv' h (suc i) zero = refl
dist_comm eqv eqv' h (suc i) (suc j) =
    rw (h i j, dist_comm eqv eqv' h i j)
      (ground (arith, dist_comm eqv eqv' h i (suc j), dist_comm eqv eqv' h (suc i) j))

module _ {A : Type 0} (eq : A → A → Bool) (lawful : (x y : A) → (eq x y ≡ true) ↔ (x ≡ y)) where
  eq_comm : (x y : A) → eq x y ≡ eq y x
  eq_comm x y = grind (arith, lawful x y, lawful y x)

  both_comm : (o p : Option A) → both eq o p ≡ both eq p o
  both_comm none none = refl
  both_comm none (some y) = refl
  both_comm (some x) none = refl
  both_comm (some x) (some y) = eq_comm x y

  same_comm : (a b : List A) (i j : ℕ) → same eq a b i j ≡ same eq b a j i
  same_comm a b i j = both_comm (get_elem? a i) (get_elem? b j)

  list_ext : (a b : List A) → length a ≡ length b → AllSame (same eq a b) (length a) → a ≡ b
  list_ext [] [] e h = refl
  list_ext [] (y ∷ b) e h = absurd (omega arith)
  list_ext (x ∷ a) [] e h = absurd (omega arith)
  list_ext (x ∷ a) (y ∷ b) e h = cc (
    (lawful x y).0 (h 0 (omega arith)),
    list_ext a b (omega arith) (λ n p. h (suc n) (omega arith)),
  )

  AllSame-self : (a : List A) → AllSame (same eq a a) (length a)
  AllSame-self a n h = let (x, e) = get_elem?-some a n h in rw (e, both) ((lawful x x).1 refl)

  -- The arguments' order does not matter.
  edit_distance_comm : (a b : List A) → edit_distance eq a b ≡ edit_distance eq b a
  edit_distance_comm a b =
      edit_distance-eq-dist eq a b
      ∙ ap some (dist_comm (same eq a b) (same eq b a) (same_comm a b) (length a) (length b))
      ∙ sym (edit_distance-eq-dist eq b a)

  -- The result is at most the longer length and at least the difference of the lengths, and it is
  -- 0 exactly when the sequences are equal.
  pub edit_distance_bounds :
      (a b : List A)
      → (d : ℕ) × (edit_distance eq a b ≡ some d)
        × (d ≤ max (length a) (length b))
        × (length a ≤ length b + d)
        × (length b ≤ length a + d)
        × ((d ≡ 0) ↔ (a ≡ b))
  edit_distance_bounds a b =
      let eqv = same eq a b in
      let m = length a in
      let n = length b in
      let script = dist-Script eqv m n in
      let lengths = Script-lengths eqv script in
      (
        dist eqv m n,
        edit_distance-eq-dist eq a b,
        dist-le-max eqv m n,
        lengths.0,
        lengths.1,
        (
          λ zero_cost.
              let (ends, all) = AllSame-of_Script eqv script zero_cost in list_ext a b ends all,
          λ equal. subst (λ c. dist (same eq a c) m (length c) ≡ 0) equal (self a),
        ),
      )
    where
      self : (c : List A) → dist (same eq c c) (length c) (length c) ≡ 0
      self c =
          let least =
            dist-le-cost (same eq c c)
              (Script-of_AllSame (same eq c c) (length c) (AllSame-self c)) in
          omega arith
