-- ===== src/Factory/EvaluationLoop/Best.antt =====
-- The best result of a cycle of agentic-factory/src/evaluator.py, and what is recorded of it.
use mathlib.Core.Path.{subst}
use mathlib.Core.Option.{some-injective}
use mathlib.Core.List.{cons-ne-nil}
use asr_serve.Base.{
  ℕ, ◌&&◌, ◌≡◌, ◌≢◌, refl, sym, ap, ◌∙◌, ◌⊎◌, inl, inr, All, Bool, true, false, String, List, [],
  ◌∷◌, some, map, Option-cases, if◌then◌else◌, arith,
}
use asr_serve.Base.Dict.{Dict, insert}
use asr_serve.Base.Floats.{Floats, IsNumber, IsIeee}
use asr_serve.Base.Member.{Member, All-Member, All-of_Member}
use asr_serve.Base.Order.{sort_by, IsLeast, IsWeakOrder, All-sort_by, All-sort_by_inv, sort_by-head}
use asr_serve.Base.Int.{pos}
use asr_serve.Base.Text.{Text, codes}
use asr_serve.Base.Value.{str}
use asr_serve.Factory.Policy.{wer_to_priority, rtf_to_kv_ttl_ms}
use asr_serve.Factory.Evaluator.{AsrModelCandidate, ModelMetrics, Call, fetch_wer_samples}
use asr_serve.Factory.Hints.{HintProfile, AgentHintsManager, set_profile}
use asr_serve.Factory.EvaluationLoop.{
  EvaluationLoop, profile_for, active_candidate, key_lt, conclude, promote, recorded, replaced,
  evaluate_all, eval_cycle,
}
use asr_serve.Factory.EvaluationLoop.Promotion.{
  ids, conclude_cases, conclude_idle, conclude-replaced, Promoted, Promotes-Promoted,
}
use asr_serve.Factory.EvaluationLoop.Cycle.{List-cases, eval_cycle_cases}

module _ (fl : Floats) (ieee : IsIeee fl) where
  open fl use {Float}

  abbrev pub HasNumbers : ModelMetrics Float → Type 0
  HasNumbers m = IsNumber fl m.wer × IsNumber fl m.rtf

  IsWeakOrder-key_lt : IsWeakOrder (key_lt fl) HasNumbers
  IsWeakOrder-key_lt = record {
    irrefl = λ m p.
        ground
          (arith, ieee.feq_def m.wer m.wer p.0 p.0, ieee.lt_irrefl m.wer, ieee.lt_irrefl m.rtf);
    trans = λ a b c p q r h k. ground (
      arith,
      h,
      k,
      ieee.feq_def a.wer b.wer p.0 q.0,
      ieee.feq_def b.wer c.wer q.0 r.0,
      ieee.feq_def a.wer c.wer p.0 r.0,
      ieee.lt_trans a.wer b.wer c.wer,
      ieee.not_lt_trans a.wer b.wer c.wer q.0,
      ieee.not_lt_trans c.wer b.wer a.wer q.0,
      ieee.not_lt_trans b.wer a.wer c.wer p.0,
      ieee.not_lt_trans a.wer c.wer b.wer r.0,
      ieee.lt_trans a.rtf b.rtf c.rtf,
    );
    not_lt_trans = λ a b c p q r h k. ground (
      arith,
      h,
      k,
      ieee.feq_def a.wer b.wer p.0 q.0,
      ieee.feq_def b.wer c.wer q.0 r.0,
      ieee.feq_def a.wer c.wer p.0 r.0,
      ieee.not_lt_trans a.wer b.wer c.wer q.0,
      ieee.not_lt_trans c.wer b.wer a.wer q.0,
      ieee.not_lt_trans c.wer a.wer b.wer p.0,
      ieee.not_lt_trans b.wer c.wer a.wer r.0,
      ieee.lt_irrefl a.wer,
      ieee.lt_trans a.wer c.wer a.wer,
      ieee.lt_trans c.wer b.wer a.wer,
      ieee.lt_trans a.wer b.wer a.wer,
      ieee.lt_trans b.wer c.wer b.wer,
      ieee.lt_irrefl b.wer,
      ieee.not_lt_trans a.rtf b.rtf c.rtf q.1,
    );
  }

  -- No result has a lower error rate, and none of an equal one a lower real-time factor.
  abbrev pub IsUnbeaten : ModelMetrics Float → List (ModelMetrics Float) → Type 0
  IsUnbeaten best results =
      All
        (λ m.
          (fl.lt m.wer best.wer ≡ false)
          × ((fl.feq m.wer best.wer && fl.lt m.rtf best.rtf) ≡ false))
        results

  IsUnbeaten-of_IsLeast :
      (best : ModelMetrics Float) (results : List (ModelMetrics Float))
      → HasNumbers best
      → All HasNumbers results
      → IsLeast (key_lt fl) best results
      → IsUnbeaten best results
  IsUnbeaten-of_IsLeast best [] p numbers least = tt
  IsUnbeaten-of_IsLeast best (m ∷ results) p numbers least = (
    (
      ground (arith, least.0, ieee.feq_def m.wer best.wer numbers.0.0 p.0),
      ground (arith, least.0, ieee.feq_def m.wer best.wer numbers.0.0 p.0),
    ),
    IsUnbeaten-of_IsLeast best results p numbers.1 least.1,
  )

  -- The profile of a best result: a priority of 9, 7, 5 or 3 for an error rate below 5%, 10%, 20% or above,
  -- and a TTL of 200, 350 or 500 ms for a real-time factor below 0.01, 0.05 or above.
  abbrev pub best_profile : ModelMetrics Float → Float → HintProfile Float
  best_profile best now = record {
    model_id = str (codes best.model_id);
    priority = pos (
        if fl.lt best.wer (fl.lit 5 2)
        then 9
        else if fl.lt best.wer (fl.lit 10 2)
        then 7
        else if fl.lt best.wer (fl.lit 20 2)
        then 5
        else 3);
    kv_ttl_ms = pos (
        if fl.lt best.rtf (fl.lit 1 2)
        then 200
        else if fl.lt best.rtf (fl.lit 5 2)
        then 350
        else 500);
    debug = false;
    updated_at = now;
  }

  profile_for-best_profile :
      (best : ModelMetrics Float) (now : Float) → profile_for fl best now ≡ best_profile best now
  unfolding wer_to_priority rtf_to_kv_ttl_ms
  profile_for-best_profile best now = refl

  -- the fields that a promotion leaves alone
  abbrev written : EvaluationLoop Float → AgentHintsManager Float × Dict (ModelMetrics Float)
  written l = (l.hints, l.best_metrics)

  written-promote :
      (b : Bool) (id : String) (l : EvaluationLoop Float)
      → written (if b then promote id l else l) ≡ written l
  unfolding promote
  written-promote true id l = refl
  written-promote false id l = refl

  written-conclude :
      (now : Float) (best : ModelMetrics Float) (loop : EvaluationLoop Float)
      → written (conclude fl now best loop) ≡ written (recorded fl now best loop)
  written-conclude now best loop = elim (Option-cases (active_candidate loop.candidates)) [
    | inl e ↦ ap written (conclude_idle fl now best loop e)
    | inr (active, e) ↦
        ap written (conclude-replaced fl now best loop active e)
        ∙ written-promote (replaced fl (recorded fl now best loop) active best) best.model_id
            (recorded fl now best loop)
  ]

  empty_sorted : (ms : List (ModelMetrics Float)) → sort_by (key_lt fl) ms ≡ [] → ms ≡ []
  empty_sorted [] e = refl
  empty_sorted (m ∷ ms) e =
      absurd (All-sort_by_inv (key_lt fl) (λ n. ⊥) (m ∷ ms) (subst (All (λ n. ⊥)) (sym e) tt)).0

  sorted-Member :
      (ms : List (ModelMetrics Float)) (best : ModelMetrics Float)
      (others : List (ModelMetrics Float))
      → sort_by (key_lt fl) ms ≡ best ∷ others
      → Member best ms
  sorted-Member ms best others e =
      let all = All-sort_by (key_lt fl) (λ m. Member m ms) ms (All-of_Member _ ms (λ m h. h)) in
      (subst (All (λ m. Member m ms)) e all).0

  nonempty :
      (ms : List (ModelMetrics Float)) (c : AsrModelCandidate) (cs : List AsrModelCandidate)
      → map (λ m. m.model_id) ms ≡ ids (c ∷ cs)
      → ms ≢ []
  nonempty [] c cs same e = absurd (cons-ne-nil _ _ (sym same))
  nonempty (m ∷ ms) c cs same e = absurd (cons-ne-nil _ _ e)

  module _ (lower : Text → Text) (connected : Bool) where
    -- If the loop has a candidate, and the error rates and real-time factors that its evaluation finds are
    -- numbers, a cycle returns. There is then a best result: one of the evaluation's, such that no result has
    -- a lower error rate, and none of an equal rate a lower real-time factor. The active profile becomes
    -- one for its id, at the time of the cycle and with debug off, with the priority 9, 7, 5 or 3 by whether
    -- its error rate is below 0.05, 0.1, 0.2 or not, and the TTL 200, 350 or 500 by whether its real-time
    -- factor is below 0.01, 0.05 or not. Its metrics are recorded under its id. And either the candidates
    -- stay as they are, or they are the same but that exactly those with its id are active: then a model
    -- of another id was active, whose recorded error rate was above its own by more than the threshold.
    pub eval_cycle_best :
        (now : Float) (call : ℕ → ℕ → Call Float) (loop : EvaluationLoop Float)
        (c : AsrModelCandidate) (cs : List AsrModelCandidate) (results : List (ModelMetrics Float))
        → loop.candidates ≡ c ∷ cs
        → evaluate_all fl lower connected now call 0 loop.candidates (fetch_wer_samples fl 100)
          ≡ some results
        → All HasNumbers results
        → (best : ModelMetrics Float) × (loop' : EvaluationLoop Float) × (eval_cycle fl lower
              connected now call loop
            ≡ some loop')
          × Member best results
          × IsUnbeaten best results
          × (loop'.hints ≡ set_profile (best_profile best now) loop.hints)
          × (loop'.best_metrics ≡ insert best.model_id best loop.best_metrics)
          × ((loop'.candidates ≡ loop.candidates) ⊎ Promoted fl loop best loop')
    eval_cycle_best now call loop c cs results e ran numbers =
        let (found, ran', same, cycle) = eval_cycle_cases fl lower connected now call loop in
        let agree : found ≡ results = some-injective _ _ (sym ran' ∙ ran) in
        elim (List-cases (sort_by (key_lt fl) results)) [
          | inl empty ↦ absurd (
              nonempty results c cs
                (subst (λ ms. map (λ m. m.model_id) ms ≡ ids (c ∷ cs)) agree (same ∙ ap ids e))
                (empty_sorted results empty))
          | inr (best, others, sorted) ↦
              let least =
                sort_by-head (key_lt fl) IsWeakOrder-key_lt results best others numbers sorted in
              let kept = written-conclude now best loop in
              let found_in = sorted-Member results best others sorted in
              (
                best,
                conclude fl now best loop,
                cycle ∙ rw (agree, sorted) refl,
                found_in,
                IsUnbeaten-of_IsLeast best results
                    (All-Member HasNumbers best results numbers found_in) numbers least.1,
                ap (λ w. w.0) kept
                    ∙ ap (λ p. set_profile p loop.hints) (profile_for-best_profile best now),
                ap (λ w. w.1) kept,
                elim (conclude_cases fl now best loop) [
                  | inl same ↦ inl same
                  | inr p ↦ inr (Promotes-Promoted fl loop best (conclude fl now best loop) p)
                ],
              )
        ]
