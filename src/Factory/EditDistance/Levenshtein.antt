-- ===== src/Factory/EditDistance/Levenshtein.antt =====
-- Edit scripts, over an abstract test `same i j` of item `i` of one sequence against item `j` of the
-- other, and the recursive distance of prefixes.
use native.Mathlib.Decide.{dec_le}
use asr_serve.Base.{
  ℕ, zero, suc, ◌+◌, ◌≤◌, min, Bool, true, ◌≡◌, refl, arith, if◌then◌else◌, Bool-cases, inl, inr,
}

module _ (same : ℕ → ℕ → Bool) where
  -- A script turns the first `i` items of one sequence into the first `j` items of the other, by
  -- `k` deletions, insertions and substitutions. Items that are the same are kept at no cost.
  pub data Script : ℕ → ℕ → ℕ → Type 0 where
    start : Script 0 0 0
    delete : {i j k : ℕ} → Script i j k → Script (suc i) j (suc k)
    insert : {i j k : ℕ} → Script i j k → Script i (suc j) (suc k)
    substitute : {i j k : ℕ} → Script i j k → Script (suc i) (suc j) (suc k)
    keep_same : {i j k : ℕ} → same i j ≡ true → Script i j k → Script (suc i) (suc j) k

  unfoldable pub dist : ℕ → ℕ → ℕ
  dist zero j = j
  dist (suc i) zero = suc i
  dist (suc i) (suc j) =
      if same i j then dist i j else 1 + min (min (dist i (suc j)) (dist (suc i) j)) (dist i j)

  dist-zero : (i : ℕ) → dist i 0 ≡ i
  unfolding dist
  dist-zero zero = refl
  dist-zero (suc i) = refl

  -- Neighbours in a row, and in a column, differ by one at most.
  abbrev Near : ℕ → ℕ → Type 0
  Near m n = (m ≤ n + 1) × (n ≤ m + 1)

  dist-Near : (i j : ℕ) → Near (dist i j) (dist i (suc j)) × Near (dist i j) (dist (suc i) j)
  unfolding dist
  dist-Near zero zero = ground arith
  dist-Near zero (suc j) = ground (arith, dist-Near zero j)
  dist-Near (suc i) zero = ground (arith, dist-Near i zero, dist-zero i)
  dist-Near (suc i) (suc j) =
      ground (arith, dist-Near i (suc j), dist-Near (suc i) j, dist-Near i j)

  pub dist-le-cost : {i j k : ℕ} → Script i j k → dist i j ≤ k
  unfolding dist
  dist-le-cost start = omega arith
  dist-le-cost (delete {i} {j} s) = omega (arith, dist-le-cost s, (dist-Near i j).1)
  dist-le-cost (insert {i} {j} s) = omega (arith, dist-le-cost s, (dist-Near i j).0)
  dist-le-cost (substitute {i} {j} s) = ground (arith, dist-le-cost s)
  dist-le-cost (keep_same {i} {j} h s) = ground (arith, dist-le-cost s)

  min-Script : {i j m n : ℕ} → Script i j m → Script i j n → Script i j (min m n)
  min-Script {m} {n} s t = elim (dec_le m n) [
    | yes h ↦ let e : min m n ≡ m = omega arith in rw e s
    | no h ↦ let e : min m n ≡ n = omega arith in rw e t
  ]

  pub dist-Script : (i j : ℕ) → Script i j (dist i j)
  unfolding dist
  dist-Script zero zero = start
  dist-Script zero (suc j) = insert (dist-Script zero j)
  dist-Script (suc i) zero = delete (rw (dist-zero i) at (dist-Script i zero))
  dist-Script (suc i) (suc j) = elim (Bool-cases (same i j)) [
    | inl e ↦ rw e (keep_same e (dist-Script i j))
    | inr e ↦
        let m = dist i (suc j) in
        let n = dist (suc i) j in
        let o = dist i j in
        let under : 1 + min (min m n) o ≡ min (min (suc m) (suc n)) (suc o) = omega arith in
        rw (e, under)
          (min-Script (min-Script (delete (dist-Script i (suc j))) (insert (dist-Script (suc i) j)))
            (substitute (dist-Script i j)))
  ]
