-- ===== src/Base/Member.antt =====
-- Membership in a list, as a type that the proofs take apart.
use mathlib.Core.Path.{◌≡◌, refl}
use mathlib.Core.Logic.{◌⊎◌, inl, inr}
use mathlib.Core.Bool.{Bool, true, false}
use mathlib.Core.List.{List, [], ◌∷◌}
use mathlib.Core.Option.{some}
use Prim.Native.String.{String}
use native.Mathlib.Omega.{arith}
use text.Mathlib.TextEquality.{eq_iff}
use text.Mathlib.TextPositions.{eq_refl}
use asr_serve.Base.Test.{if◌then◌else◌, Bool-cases, str_eq}
use asr_serve.Base.Lists.{All, keep}
use asr_serve.Base.Dict.{Dict, lookup, values, IsDict}
use asr_serve.Base.Order.{min_from}

module _ {A : Type 0} where
  abbrev pub Member : A → List A → Type 0
  Member x [] = ⊥
  Member x (y ∷ ys) = (x ≡ y) ⊎ Member x ys

  pub All-Member : (P : A → Type 0) (x : A) (xs : List A) → All P xs → Member x xs → P x
  All-Member P x [] h m = absurd m
  All-Member P x (y ∷ ys) h (inl e) = rw e h.0
  All-Member P x (y ∷ ys) h (inr m) = All-Member P x ys h.1 m

  pub All-of_Member : (P : A → Type 0) (xs : List A) → ((x : A) → Member x xs → P x) → All P xs
  All-of_Member P [] h = tt
  All-of_Member P (y ∷ ys) h = (h y (inl refl), All-of_Member P ys (λ x m. h x (inr m)))

  unless_dropped :
      (b : Bool) (x y : A) (rest : List A)
      → Member x (if b then y ∷ rest else rest)
      → ((b ≡ true) × (x ≡ y)) ⊎ Member x rest
  unless_dropped true x y rest (inl e) = inl (refl, e)
  unless_dropped true x y rest (inr m) = inr m
  unless_dropped false x y rest m = inr m

  pub Member-keep :
      (p : A → Bool) (x : A) (xs : List A) → Member x (keep p xs) → Member x xs × (p x ≡ true)
  Member-keep p x [] m = absurd m
  Member-keep p x (y ∷ ys) m = elim (unless_dropped (p y) x y (keep p ys) m) [
    | inl (kept, e) ↦ (inl e, rw e kept)
    | inr later ↦ let (there, good) = Member-keep p x ys later in (inr there, good)
  ]

  pub keep-Member :
      (p : A → Bool) (x : A) (xs : List A) → Member x xs → p x ≡ true → Member x (keep p xs)
  keep-Member p x [] m good = m
  keep-Member p x (y ∷ ys) (inl e) good = let kept : p y ≡ true = rw (← e) good in rw kept (inl e)
  keep-Member p x (y ∷ ys) (inr m) good = elim (Bool-cases (p y)) [
    | inl e ↦ rw e (inr (keep-Member p x ys m good))
    | inr e ↦ rw e (keep-Member p x ys m good)
  ]

  either :
      (b : Bool) (z x best : A) (xs : List A)
      → Member z ((if b then x else best) ∷ xs)
      → Member z (best ∷ x ∷ xs)
  either true z x best xs m = inr m
  either false z x best xs (inl e) = inl e
  either false z x best xs (inr m) = inr (inr m)

  pub Member-min_from :
      (lt : A → A → Bool) (best : A) (xs : List A) → Member (min_from lt best xs) (best ∷ xs)
  unfolding min_from
  Member-min_from lt best [] = inl refl
  Member-min_from lt best (x ∷ xs) =
      either (lt x best) _ x best xs (Member-min_from lt (if lt x best then x else best) xs)

module _ {V : Type 0} where
  pub Member-values :
      (v : V) (d : Dict V) → IsDict d → Member v (values d) → (k : String) × (lookup k d ≡ some v)
  Member-values v [] h m = absurd m
  Member-values v ((j, w) ∷ d) h (inl e) = (j, rw (eq_refl j, e))
  Member-values v ((j, w) ∷ d) h (inr m) =
      let (k, there) = Member-values v d h.1 m in (k, ground (arith, there, h.0, eq_iff j k))

  pub values-Member : (k : String) (v : V) (d : Dict V) → lookup k d ≡ some v → Member v (values d)
  values-Member k v [] e = cc
  values-Member k v ((j, w) ∷ d) e = elim (Bool-cases (str_eq j k)) [
    | inl same ↦ inl (ground arith)
    | inr other ↦ inr (values-Member k v d (rw other at e))
  ]
