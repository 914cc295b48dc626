-- ===== src/Tests/Evaluation.antt =====
-- The theorems on the evaluation loop at concrete inputs.

use asr_serve.Base.{
  ℕ, ◌≡◌, ◌≢◌, refl, arith, ◌↔◌, ◌⊎◌, inl, inr, All, Bool, true, false, String, List, [], ◌∷◌, some,
  eq_iff,
}
use asr_serve.Base.Dict.{insert}
use asr_serve.Base.Floats.{micro}
use asr_serve.Base.Int.{pos}
use asr_serve.Base.Member.{Member}
use asr_serve.Base.Text.{codes}
use asr_serve.Base.Value.{str}
use asr_serve.Tests.Numbers.{micro-IsIeee}
use asr_serve.Factory.Evaluator.{
  AsrModelCandidate, EvalSample, ModelMetrics, body, Call, evaluate_model,
}
use asr_serve.Factory.Evaluator.Counts.{
  reference_words, word_errors, AllRight, evaluate_model_counts,
}
use asr_serve.Factory.Hints.{default_profile, set_profile}
use asr_serve.Factory.EvaluationLoop.{
  EvaluationLoop, Turn, start_loop, stop_loop, run_loop, promote_candidates, active_candidate,
  conclude, eval_cycle, promote, improves,
}
use asr_serve.Factory.EvaluationLoop.Promotion.{
  ids, IsServing, Warranted, Activated, Promoted, conclude-promotes,
}
use asr_serve.Factory.EvaluationLoop.Cycle.{eval_cycle_cases, run_cycles, run_cycles-IsServing}
use asr_serve.Factory.EvaluationLoop.Stop.{run_loop-stop}
use asr_serve.Factory.EvaluationLoop.Best.{HasNumbers, IsUnbeaten, best_profile, eval_cycle_best}

abbrev candidate : String → Bool → AsrModelCandidate
candidate id active = record {
  model_id = id;
  model_path = "/models";
  version = "latest";
  is_active = active;
  tags = [];
}

abbrev metrics : String → ℕ → ℕ → ModelMetrics ℕ
metrics id wer rtf = record {
  model_id = id;
  wer = wer;
  cer = 0;
  rtf = rtf;
  ttft_ms = 0;
  eval_time = 0;
  n_samples = 5;
}

-- The service hears "1 2" in every sample.
abbrev hears : ℕ → Call ℕ
hears i = record { reply = body (some (codes "1 2")); t0 = 0; t1 = 1 }

abbrev sample : EvalSample ℕ
sample = record {
  sample_id = codes "s";
  audio_bytes = [];
  reference_text = codes "1 2 3";
  duration_s = 1_000_000;
}

evaluate_model_counts_example :
    (m : ModelMetrics ℕ) × (evaluate_model micro
        (λ s. s)
        true
        0
        hears
        (candidate "a" true)
        (sample ∷ [])
      ≡ some m)
    × (m.model_id ≡ "a")
    × (m.wer
        ≡ micro.ratio
            (pos (word_errors micro (λ s. s) true hears 0 (sample ∷ [])))
            (pos (reference_words micro (λ s. s) true hears (sample ∷ []))))
    × (m.n_samples ≡ 1)
    × ((word_errors micro (λ s. s) true hears 0 (sample ∷ []) ≡ 0)
        ↔ AllRight micro (λ s. s) true hears 0 (sample ∷ []))
evaluate_model_counts_example =
    evaluate_model_counts micro (λ s. s) true hears 0 (candidate "a" true) sample []

abbrev start : EvaluationLoop ℕ
start = record {
  candidates = candidate "a" true ∷ candidate "b" false ∷ [];
  hints = record { active = default_profile (str (codes "a")) 0; history = [] };
  wer_promote_thresh = 50_000;
  best_metrics = ("a", metrics "a" 200_000 10_000) ∷ [];
  running = true;
}

a-ne-b : ◌≢◌ {A = String} "a" "b"
a-ne-b e = let same = (eq_iff "a" "b").1 e in ground (arith, same)

start-IsServing : IsServing start.candidates
start-IsServing = record {
  distinct = (λ m. elim m [ inl e ↦ a-ne-b e | inr r ↦ absurd r ], (λ m. absurd m, tt));
  one_active = refl;
}

run_cycles-IsServing_example :
    (loop' : EvaluationLoop ℕ) × (run_cycles micro (λ s. s) true ((7, λ j i. hears i) ∷ []) start
      ≡ some loop')
    × (ids loop'.candidates ≡ "a" ∷ "b" ∷ [])
    × IsServing loop'.candidates
run_cycles-IsServing_example =
    run_cycles-IsServing micro (λ s. s) true ((7, λ j i. hears i) ∷ []) start start-IsServing

-- One cycle, after which the loop goes on, and one in which it is stopped.
abbrev turn : Bool → Turn ℕ
turn stops = record { now = 7; call = λ j i. hears i; stopped = stops }

run_loop-stop_example :
    (loop' : EvaluationLoop ℕ) × (run_cycles micro
        (λ s. s)
        true
        ((7, λ j i. hears i) ∷ (7, λ j i. hears i) ∷ [])
        (start_loop start)
      ≡ some loop')
    × (run_loop micro (λ s. s) true (turn false ∷ turn true ∷ turn false ∷ []) start
        ≡ some (stop_loop loop'))
run_loop-stop_example =
    run_loop-stop micro (λ s. s) true (turn false ∷ []) (turn true) (turn false ∷ []) start
      (refl, tt) refl

conclude-promotes_example :
    let best = metrics "b" 20_000 10_000 in
    (Warranted micro start best (candidate "a" true)
      × Activated "b" start.candidates (conclude micro 7 best start).candidates)
    ⊎ ((¬ Warranted micro start best (candidate "a" true))
        × ((conclude micro 7 best start).candidates ≡ start.candidates))
conclude-promotes_example =
    conclude-promotes micro 7 (metrics "b" 20_000 10_000) start (candidate "a" true) refl (inl refl)
      refl

-- It is the first of the two: the best model is better by more than the threshold.
best_is_promoted :
    (conclude micro 7 (metrics "b" 20_000 10_000) start).candidates
    ≡ candidate "a" false ∷ candidate "b" true ∷ []
unfolding conclude promote promote_candidates improves active_candidate
best_is_promoted = refl

All-numbers : (ms : List (ModelMetrics ℕ)) → All (HasNumbers micro micro-IsIeee) ms
All-numbers [] = tt
All-numbers (m ∷ ms) = ((refl, refl), All-numbers ms)

-- the results of the cycle
abbrev results : List (ModelMetrics ℕ)
results = (eval_cycle_cases micro (λ s. s) true 7 (λ j. hears) start).0

eval_cycle_best_example :
    (best : ModelMetrics ℕ) × (loop' : EvaluationLoop ℕ) × (eval_cycle micro
        (λ s. s)
        true
        7
        (λ j. hears)
        start
      ≡ some loop')
    × Member best results
    × IsUnbeaten micro micro-IsIeee best results
    × (loop'.hints ≡ set_profile (best_profile micro micro-IsIeee best 7) start.hints)
    × (loop'.best_metrics ≡ insert best.model_id best start.best_metrics)
    × ((loop'.candidates ≡ start.candidates) ⊎ Promoted micro start best loop')
eval_cycle_best_example =
    eval_cycle_best micro micro-IsIeee (λ s. s) true 7 (λ j. hears) start (candidate "a" true)
      (candidate "b" false ∷ []) results refl
      (eval_cycle_cases micro (λ s. s) true 7 (λ j. hears) start).1 (All-numbers results)
