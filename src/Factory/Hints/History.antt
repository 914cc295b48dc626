-- ===== src/Factory/Hints/History.antt =====
-- The history of `AgentHintsManager` of agentic-factory/src/agent_hints.py.
use mathlib.Core.List.{append-nil, append_assoc}
use asr_serve.Base.{
  ℕ, zero, suc, ◌+◌, ◌-◌, ◌≤◌, ◌≡◌, refl, ap, sym, ◌∙◌, List, [], ◌∷◌, ◌++◌, arith, ltb, length,
  drop, length-append, length-drop, Bool-cases, inl, inr,
}
use asr_serve.Base.Int.{pos, negsuc}
use asr_serve.Factory.Hints.{HintProfile, AgentHintsManager, set_profile, recent_history}

module _ {A : Type 0} where
  -- the last `n` items
  abbrev pub take_last : ℕ → List A → List A
  take_last n xs = drop (length xs - n) xs

  drop-append : (n : ℕ) (xs ys : List A) → n ≤ length xs → drop n (xs ++ ys) ≡ drop n xs ++ ys
  drop-append zero xs ys h = refl
  drop-append (suc n) [] ys h = absurd (omega arith)
  drop-append (suc n) (x ∷ xs) ys h = drop-append n xs ys (omega arith)

  drop-nil : (n : ℕ) → drop {A = A} n [] ≡ []
  drop-nil zero = refl
  drop-nil (suc n) = refl

  drop-drop : (m n : ℕ) (xs : List A) → drop m (drop n xs) ≡ drop (n + m) xs
  drop-drop m zero xs = ap (λ k. drop k xs) (omega arith)
  drop-drop m (suc n) [] = drop-nil m ∙ sym (drop-nil (suc n + m))
  drop-drop m (suc n) (x ∷ xs) =
      drop-drop m n xs
      ∙ ap (λ k. drop k (x ∷ xs)) (let e : suc (n + m) ≡ suc n + m = omega arith in e)

  -- Of what follows, the last `n` items see no more than the last `n` of what came before.
  take_last-append :
      (n : ℕ) (xs ys : List A) → take_last n (take_last n xs ++ ys) ≡ take_last n (xs ++ ys)
  take_last-append n xs ys =
      let k = length xs - n in
      let e : drop k xs ++ ys ≡ drop k (xs ++ ys) = sym (drop-append k xs ys (omega arith)) in
      rw (e, drop-drop)
        (ap (λ m. drop m (xs ++ ys)) (omega (arith, length-drop k (xs ++ ys), length-append xs ys)))

module _ {Float : Type 0} where
  abbrev pub run_profiles :
      List (HintProfile Float) → AgentHintsManager Float → AgentHintsManager Float
  run_profiles [] m = m
  run_profiles (p ∷ ps) m = run_profiles ps (set_profile p m)

  -- the profiles that the manager remembers, the active one last
  abbrev pub trail : AgentHintsManager Float → List (HintProfile Float)
  trail m = m.history ++ m.active ∷ []

  trail-set_profile :
      (p : HintProfile Float) (m : AgentHintsManager Float)
      → length m.history ≤ 100
      → (trail (set_profile p m) ≡ take_last 101 (trail m ++ p ∷ []))
        × (length (set_profile p m).history ≤ 100)
  unfolding set_profile
  trail-set_profile p m h =
      let longer : List (HintProfile Float) = m.history ++ m.active ∷ [] in
      let old = length-append m.history (m.active ∷ []) in
      let all = length-append longer (p ∷ []) in
      elim (Bool-cases (ltb 100 (length longer))) [
        | inl e ↦ rw e (
          sym (drop-append 1 longer (p ∷ []) (omega arith))
              ∙ ap (λ k. drop k (longer ++ p ∷ [])) {x = 1} (ground arith),
          omega (arith, length-drop 1 longer),
        )
        | inr e ↦ rw e (ap (λ k. drop k (longer ++ p ∷ [])) {x = 0} (ground arith), ground arith)
      ]

  -- From a manager that remembers at most a hundred replaced profiles, any number of `set_profile`
  -- calls leave the last 101 of all profiles, old and new: the newest is active, the others are the
  -- history, in order.
  pub run_profiles-trail :
      (ps : List (HintProfile Float)) (m : AgentHintsManager Float)
      → length m.history ≤ 100
      → (trail (run_profiles ps m) ≡ take_last 101 (trail m ++ ps))
        × (length (run_profiles ps m).history ≤ 100)
  run_profiles-trail [] m h = (
    rw (append-nil (trail m)) (
        ap (λ k. drop k (trail m)) {x = 0}
          (omega (arith, length-append m.history (m.active ∷ [])))),
    h,
  )
  run_profiles-trail (p ∷ ps) m h =
      let (step, bounded) = trail-set_profile p m h in
      let (rest, bounded') = run_profiles-trail ps (set_profile p m) bounded in
      (
        rest
            ∙ ap (λ t. take_last 101 (t ++ ps)) step
            ∙ take_last-append 101 (trail m ++ p ∷ []) ps
            ∙ ap (take_last 101) (append_assoc (trail m) (p ∷ []) ps),
        bounded',
      )

  -- `recent_history(n)` is the last `n` profiles of the history, oldest first, for a positive `n`;
  -- for 0 it is the whole history, and for a negative `n` the history without its first `-n`.
  recent_history_last :
      (m : AgentHintsManager Float)
      → ((n : ℕ) → recent_history (pos (suc n)) m ≡ take_last (suc n) m.history)
        × (recent_history (pos 0) m ≡ m.history)
        × ((n : ℕ) → recent_history (negsuc n) m ≡ drop (suc n) m.history)
  unfolding recent_history
  recent_history_last m = (λ n. refl, refl, λ n. refl)
