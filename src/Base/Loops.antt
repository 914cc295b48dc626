-- ===== src/Base/Loops.antt =====
-- `for k in range(i, i + rounds)` with a body that may raise, and its invariant rule.
use Prim.Native.Nat.{ℕ, zero, suc, ◌+◌, ◌≤◌, ◌<◌}
use mathlib.Core.Path.{◌≡◌, refl}
use mathlib.Core.Option.{Option, none, some}
use native.Mathlib.Omega.{arith}

infixl 5 ◌>>=◌
abbrev pub ◌>>=◌ {ℓ κ} : {A : Type ℓ} {B : Type κ} → Option A → (A → Option B) → Option B
none >>= f = none
some a >>= f = f a

module _ {ℓ} {S : Type ℓ} where
  unfoldable pub for_range : ℕ → ℕ → (ℕ → S → Option S) → S → Option S
  for_range zero i body s = some s
  for_range (suc n) i body s = elim (body i s) [ none ↦ none | some t ↦ for_range n (suc i) body t ]

  -- `m` returns a value that satisfies `P`.
  abbrev pub Succeeds {κ} : (S → Type κ) → Option S → Type (ℓ ⊔ κ)
  Succeeds P m = (s : S) × (m ≡ some s) × P s

  -- What a body keeps from round `i` on holds after the last round, and the loop does not raise.
  pub for_range-Succeeds {κ} :
      (P : ℕ → S → Type κ) (stop : ℕ) (body : ℕ → S → Option S) (n i : ℕ) (s : S)
      → i + n ≡ stop
      → ((k : ℕ) (t : S) → i ≤ k → k < stop → P k t → Succeeds (P (suc k)) (body k t))
      → P i s
      → Succeeds (P stop) (for_range n i body s)
  unfolding for_range
  for_range-Succeeds P stop body zero i s e step p =
      let e' : i ≡ stop = omega arith in (s, refl, rw (← e') p)
  for_range-Succeeds P stop body (suc n) i s e step p =
      let (t, ran, q) = step i s (omega arith) (omega arith) p in
      rw (ran, for_range)
        (for_range-Succeeds P stop body n (suc i) t (omega arith)
          (λ k u lo hi. step k u (omega arith) hi) q)
