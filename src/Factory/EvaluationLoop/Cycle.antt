-- ===== src/Factory/EvaluationLoop/Cycle.antt =====
-- Cycles of `EvaluationLoop` of agentic-factory/src/evaluator.py, one after the other.
use mathlib.Core.Path.{subst}
use asr_serve.Factory.EvaluationLoop.Promotion.{
  ids, IsServing, promote-IsServing, ids-promote, conclude_cases,
}
use asr_serve.Base.{
  ℕ, suc, ◌≡◌, refl, ap, sym, ◌∙◌, ◌⊎◌, inl, inr, All, Bool, List, [], ◌∷◌, Option, none, some, map,
}
use asr_serve.Base.Floats.{Floats}
use asr_serve.Base.Member.{Member}
use asr_serve.Base.Order.{sort_by, All-sort_by}
use asr_serve.Base.Text.{Text}
use asr_serve.Factory.Evaluator.{
  AsrModelCandidate, EvalSample, ModelMetrics, Call, fetch_wer_samples, samples_from,
}
use asr_serve.Factory.Evaluator.Counts.{evaluate_model_counts}
use asr_serve.Factory.EvaluationLoop.{
  EvaluationLoop, key_lt, conclude, evaluate_all, eval_cycle, eval_cycle_on,
}

pub List-cases : {A : Type 0} (xs : List A) → (xs ≡ []) ⊎ ((y : A) × (ys : List A) × (xs ≡ y ∷ ys))
List-cases [] = inl refl
List-cases (x ∷ xs) = inr (x, xs, refl)

All-weaken :
    {A : Type 0} (P Q : A → Type 0) (xs : List A) → ((x : A) → P x → Q x) → All P xs → All Q xs
All-weaken P Q [] f h = tt
All-weaken P Q (x ∷ xs) f h = (f x h.0, All-weaken P Q xs f h.1)

All-ids :
    {Float : Type 0} (results : List (ModelMetrics Float))
    → All (λ m. Member m.model_id (map (λ n. n.model_id) results)) results
All-ids [] = tt
All-ids (m ∷ results) = (inl refl, All-weaken _ _ results (λ n known. inr known) (All-ids results))

module _ (fl : Floats) where
  open fl use {Float}

  module _ (lower : Text → Text) (connected : Bool) where
    evaluate_all-total :
        (now : Float) (call : ℕ → ℕ → Call Float) (j : ℕ) (cs : List AsrModelCandidate)
        (s : EvalSample Float) (samples : List (EvalSample Float))
        → (results : List (ModelMetrics Float)) × (evaluate_all fl lower connected now call j cs
              (s ∷ samples)
            ≡ some results)
          × (map (λ m. m.model_id) results ≡ ids cs)
    unfolding evaluate_all
    evaluate_all-total now call j [] s samples = ([], refl, refl)
    evaluate_all-total now call j (c ∷ cs) s samples =
        let (m, ran, id, _, _, _) =
          evaluate_model_counts fl lower connected (call j) now c s samples in
        let (rest, ran', same) = evaluate_all-total now call (suc j) cs s samples in
        (m ∷ rest, rw (ran, ran') refl, rw (id, same) refl)

    -- the results of a cycle, in order, and what the cycle makes of them
    pub eval_cycle_cases :
        (now : Float) (call : ℕ → ℕ → Call Float) (loop : EvaluationLoop Float)
        → (results : List (ModelMetrics Float)) × (evaluate_all fl lower connected now call 0
              loop.candidates
              (fetch_wer_samples fl 100)
            ≡ some results)
          × (map (λ m. m.model_id) results ≡ ids loop.candidates)
          × (eval_cycle fl lower connected now call loop ≡ elim (sort_by (key_lt fl) results) [
            | [] ↦ some loop
            | best ∷ others ↦ some (conclude fl now best loop)
          ])
    unfolding eval_cycle eval_cycle_on fetch_wer_samples samples_from
    eval_cycle_cases now call loop =
        let (results, ran, same) = evaluate_all-total now call 0 loop.candidates _ _ in
        (results, ran, same, rw ran refl)

    best-Member :
        (results : List (ModelMetrics Float)) (best : ModelMetrics Float)
        (others : List (ModelMetrics Float)) (cs : List AsrModelCandidate)
        → sort_by (key_lt fl) results ≡ best ∷ others
        → map (λ m. m.model_id) results ≡ ids cs
        → Member best.model_id (ids cs)
    best-Member results best others cs e same =
        let sorted =
          All-sort_by (key_lt fl) (λ m. Member m.model_id (ids cs)) results
            (subst (λ is. All (λ m. Member m.model_id is) results) same (All-ids results)) in
        (subst (All (λ m. Member m.model_id (ids cs))) e sorted).0

    conclude-ids :
        (now : Float) (best : ModelMetrics Float) (loop : EvaluationLoop Float)
        → ids (conclude fl now best loop).candidates ≡ ids loop.candidates
    conclude-ids now best loop = elim (conclude_cases fl now best loop) [
      | inl e ↦ ap ids e
      | inr p ↦ ap ids p.0 ∙ ids-promote best.model_id loop.candidates
    ]

    conclude-IsServing :
        (now : Float) (best : ModelMetrics Float) (loop : EvaluationLoop Float)
        → IsServing loop.candidates
        → Member best.model_id (ids loop.candidates)
        → IsServing (conclude fl now best loop).candidates
    conclude-IsServing now best loop h known = elim (conclude_cases fl now best loop) [
      | inl e ↦ subst IsServing (sym e) h
      | inr p ↦ subst IsServing (sym p.0) (promote-IsServing best.model_id loop.candidates h known)
    ]

    cycle_step :
        (now : Float) (call : ℕ → ℕ → Call Float) (loop : EvaluationLoop Float)
        → IsServing loop.candidates
        → (loop' : EvaluationLoop Float) × (eval_cycle fl lower connected now call loop
            ≡ some loop')
          × (ids loop'.candidates ≡ ids loop.candidates)
          × IsServing loop'.candidates
    cycle_step now call loop h =
        let (results, ran, same, cycle) = eval_cycle_cases now call loop in
        elim (List-cases (sort_by (key_lt fl) results)) [
          | inl e ↦ (loop, cycle ∙ rw e refl, refl, h)
          | inr (best, others, e) ↦
              let known = best-Member results best others loop.candidates e same in
              (
                conclude fl now best loop,
                cycle ∙ rw e refl,
                conclude-ids now best loop,
                conclude-IsServing now best loop h known,
              )
        ]

    -- The runs of the loop, each with the time and the transcriptions that it meets.
    abbrev pub run_cycles :
        List (Float × (ℕ → ℕ → Call Float)) → EvaluationLoop Float → Option (EvaluationLoop Float)
    run_cycles [] loop = some loop
    run_cycles ((now, call) ∷ events) loop = elim (eval_cycle fl lower connected now call loop) [
      | none ↦ none
      | some loop' ↦ run_cycles events loop'
    ]

    -- Started with candidates of distinct ids of which exactly one is active, any number of cycles,
    -- whatever the service answers and the clock reads, all return, and leave the same candidates,
    -- in order, with exactly one of them active.
    pub run_cycles-IsServing :
        (events : List (Float × (ℕ → ℕ → Call Float))) (loop : EvaluationLoop Float)
        → IsServing loop.candidates
        → (loop' : EvaluationLoop Float) × (run_cycles events loop ≡ some loop')
          × (ids loop'.candidates ≡ ids loop.candidates)
          × IsServing loop'.candidates
    run_cycles-IsServing [] loop h = (loop, refl, refl, h)
    run_cycles-IsServing ((now, call) ∷ events) loop h =
        let (loop', ran, same, h') = cycle_step now call loop h in
        let (last, ran', same', h'') = run_cycles-IsServing events loop' h' in
        (last, rw (run_cycles, ran) ran', same' ∙ same, h'')
