-- ===== src/Factory/EvaluationLoop.antt =====
-- `EvaluationLoop` of agentic-factory/src/evaluator.py: one cycle. `none` is an exception.
pub mod Best
pub mod Cycle
pub mod Promotion
pub mod Stop
use asr_serve.Base.{
  ℕ, zero, suc, Bool, true, false, not, ◌&&◌, String, List, [], ◌∷◌, Option, none, some, map,
  str_eq, if◌then◌else◌,
}
use asr_serve.Base.Dict.{Dict, lookup, insert}
use asr_serve.Base.Floats.{Floats}
use asr_serve.Base.Int.{pos}
use asr_serve.Base.Loops.{◌>>=◌}
use asr_serve.Base.Order.{sort_by}
use asr_serve.Base.Text.{Text, codes}
use asr_serve.Base.Value.{str}
use asr_serve.Factory.Evaluator.{
  AsrModelCandidate, EvalSample, ModelMetrics, Call, evaluate_model, fetch_wer_samples,
}
use asr_serve.Factory.Hints.{HintProfile, AgentHintsManager, default_profile, set_profile}
use asr_serve.Factory.Policy.{wer_to_priority, rtf_to_kv_ttl_ms}

pub record EvaluationLoop (Float : Type 0) : Type 0 where
  pub candidates : List AsrModelCandidate
  pub hints : AgentHintsManager Float
  pub wer_promote_thresh : Float
  pub best_metrics : Dict (ModelMetrics Float)
  pub running : Bool

-- A turn of `run`: what its cycle meets, and whether `stop` is called before its sleep is over.
pub record Turn (Float : Type 0) : Type 0 where
  pub now : Float
  pub call : ℕ → ℕ → Call Float
  pub stopped : Bool

-- the start of `run`
abbrev pub start_loop : {Float : Type 0} → EvaluationLoop Float → EvaluationLoop Float
start_loop loop = record loop { running = true }

-- `stop`
abbrev pub stop_loop : {Float : Type 0} → EvaluationLoop Float → EvaluationLoop Float
stop_loop loop = record loop { running = false }

-- `_promote`
abbrev pub set_active : String → AsrModelCandidate → AsrModelCandidate
set_active model_id c = record c { is_active = str_eq c.model_id model_id }

unfoldable pub promote_candidates : String → List AsrModelCandidate → List AsrModelCandidate
promote_candidates model_id candidates = map (set_active model_id) candidates

unfoldable pub promote : {Float : Type 0} → String → EvaluationLoop Float → EvaluationLoop Float
promote model_id loop = record loop { candidates = promote_candidates model_id loop.candidates }

-- `next((c for c in self._candidates if c.is_active), None)`
unfoldable pub active_candidate : List AsrModelCandidate → Option AsrModelCandidate
active_candidate [] = none
active_candidate (c ∷ cs) = if c.is_active then some c else active_candidate cs

module _ (fl : Floats) where
  open fl use {Float, lt, feq, sub}

  -- the comparison of the sort keys `(m.wer, m.rtf)`
  abbrev pub key_lt : ModelMetrics Float → ModelMetrics Float → Bool
  key_lt m n = if feq m.wer n.wer then lt m.rtf n.rtf else lt m.wer n.wer

  -- the profile that a cycle writes for its best model
  abbrev pub profile_for : ModelMetrics Float → Float → HintProfile Float
  profile_for best now = record (default_profile (str (codes best.model_id)) now) {
    priority = pos (wer_to_priority fl best.wer);
    kv_ttl_ms = pos (rtf_to_kv_ttl_ms fl best.rtf);
  }

  -- whether the active model's recorded metrics warrant its replacement
  unfoldable pub improves : EvaluationLoop Float → AsrModelCandidate → ModelMetrics Float → Bool
  improves loop active best = elim (lookup active.model_id loop.best_metrics) [
    | none ↦ false
    | some active_metrics ↦ lt loop.wer_promote_thresh (sub active_metrics.wer best.wer)
  ]

  -- the loop with `best` in its metrics and in its hints
  abbrev pub recorded : Float → ModelMetrics Float → EvaluationLoop Float → EvaluationLoop Float
  recorded now best loop = record loop {
    best_metrics = insert best.model_id best loop.best_metrics;
    hints = set_profile (profile_for best now) loop.hints;
  }

  abbrev pub replaced : EvaluationLoop Float → AsrModelCandidate → ModelMetrics Float → Bool
  replaced loop active best =
      not (str_eq active.model_id best.model_id) && improves loop active best

  -- the end of a cycle, from `best` on
  unfoldable pub conclude : Float → ModelMetrics Float → EvaluationLoop Float → EvaluationLoop Float
  conclude now best loop = elim (active_candidate (recorded now best loop).candidates) [
    | none ↦ recorded now best loop
    | some active ↦
        if replaced (recorded now best loop) active best
        then promote best.model_id (recorded now best loop)
        else recorded now best loop
  ]

  module _ (lower : Text → Text) (connected : Bool) where
    -- `call j i` is the transcription of sample `i` for candidate `j`.
    pub evaluate_all :
        Float
        → (ℕ → ℕ → Call Float)
        → ℕ
        → List AsrModelCandidate
        → List (EvalSample Float)
        → Option (List (ModelMetrics Float))
    evaluate_all now call j [] samples = some []
    evaluate_all now call j (c ∷ cs) samples = do
      metrics ← evaluate_model fl lower connected now (call j) c samples
      rest ← evaluate_all now call (suc j) cs samples
      some (metrics ∷ rest)

    pub eval_cycle_on :
        List (EvalSample Float)
        → Float
        → (ℕ → ℕ → Call Float)
        → EvaluationLoop Float
        → Option (EvaluationLoop Float)
    eval_cycle_on [] now call loop = some loop
    eval_cycle_on (s ∷ samples) now call loop = do
      results ← evaluate_all now call 0 loop.candidates (s ∷ samples)
      elim (sort_by key_lt results) [
        | [] ↦ some loop
        | best ∷ others ↦ some (conclude now best loop)
      ]

    -- `_eval_cycle`
    pub eval_cycle :
        Float → (ℕ → ℕ → Call Float) → EvaluationLoop Float → Option (EvaluationLoop Float)
    eval_cycle now call loop = eval_cycle_on (fetch_wer_samples fl 100) now call loop

    -- `run`, for a list of turns that is long enough; after each cycle it sleeps, and looks whether it
    -- was stopped meanwhile
    pub run_turns : List (Turn Float) → EvaluationLoop Float → Option (EvaluationLoop Float)
    run_turns [] loop = some loop
    run_turns (t ∷ turns) loop =
        let rest : EvaluationLoop Float → Option (EvaluationLoop Float) =
          λ next. run_turns turns (if t.stopped then stop_loop next else next) in
        if loop.running then eval_cycle t.now t.call loop >>= rest else some loop

    unfoldable pub run_loop :
        List (Turn Float) → EvaluationLoop Float → Option (EvaluationLoop Float)
    unfolding run_turns
    run_loop turns loop = run_turns turns (start_loop loop)
