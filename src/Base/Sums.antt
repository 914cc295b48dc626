-- ===== src/Base/Sums.antt =====
-- Totals over a list.
use Prim.Native.Nat.{ℕ, zero, suc, ◌+◌, ◌≤◌}
use mathlib.Core.Path.{◌≡◌}
use mathlib.Core.List.{List, [], ◌∷◌}
use mathlib.Core.Option.{some}
use native.Mathlib.Omega.{arith}
use asr_serve.Base.Lists.{get_elem?, set}

module _ {A : Type 0} (f : A → ℕ) where
  abbrev pub total : List A → ℕ
  total [] = 0
  total (t ∷ ts) = f t + total ts

  pub total-set :
      (ts : List A) (i : ℕ) (t t' : A)
      → get_elem? ts i ≡ some t
      → total (set ts i t') + f t ≡ total ts + f t'
  total-set [] i t t' e = cc
  total-set (x ∷ ts) zero t t' e = let same : x ≡ t = cc in rw same (omega arith)
  total-set (x ∷ ts) (suc i) t t' e = let rest = total-set ts i t t' e in omega arith

  pub part-le-total : (ts : List A) (i : ℕ) (t : A) → get_elem? ts i ≡ some t → f t ≤ total ts
  part-le-total [] i t e = cc
  part-le-total (x ∷ ts) zero t e = let same : x ≡ t = cc in rw same (omega arith)
  part-le-total (x ∷ ts) (suc i) t e = let rest = part-le-total ts i t e in omega arith
