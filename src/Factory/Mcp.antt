-- ===== src/Factory/Mcp.antt =====
-- The tools of agentic-factory/src/mcp_client.py: the handlers, their table and the dispatch. The
-- callbacks act on a state `World`, which Factory/Mcp/Tools takes to include the context. The server's
-- library checks arguments against the `inputSchema` of their tool, so that `model_id` and `key` are
-- texts; any other value is refused, as a TypeError. Python's formatting is a parameter: `fixed k` is
-- `:.kf`, `percent` is `:.1%`, `shown` is `str` of a value and `shown_dict` of a dictionary.
pub mod Agent
pub mod Frame
pub mod Metrics
pub mod Tools
use Prim.Native.String.{◌++◌ as text_append}
use asr_serve.Base.{
  ℕ, Bool, true, false, String, List, [], ◌∷◌, Option, none, some, map, length, str_eq,
  if◌then◌else◌,
}
use asr_serve.Factory.Context.{FactoryContext, joined, concat, text_argument}
use asr_serve.Base.Dict.{Dict, lookup, get_default, insert, merge}
use asr_serve.Base.Floats.{Floats}
use asr_serve.Base.Int.{pos}
use asr_serve.Base.Json.{
  Json, null, bool, int, float, text, array, object, nil, cons, end, field, json_truth,
}
use asr_serve.Base.Result.{Result, ok, raise, key_error, value_error, type_error, ◌>>=◌}

pub data Handler : Type 0 where
  list_models evaluate_model get_metrics set_agent_hint promote_model cluster_status : Handler

pub record ToolEntry (Float : Type 0) : Type 0 where
  pub name : String
  pub description : String
  pub input_schema : Json Float
  pub handler : Handler

module _ (fl : Floats) (shown : Json fl.Float → String) where
  open fl use {Float}

  abbrev pub active_mark : Dict (Json Float) → String
  active_mark c = elim (lookup "is_active" c) [
    | none ↦ ""
    | some v ↦ if json_truth fl v then " [ACTIVE]" else ""
  ]

  -- the lines of the candidates
  pub model_lines : List (Dict (Json Float)) → Result (List String)
  model_lines [] = ok []
  model_lines (c ∷ cs) = elim (lookup "model_id" c) [
    | none ↦ raise key_error
    | some model_id ↦ do
      let line = concat (
          "  - "
          ∷ shown model_id
          ∷ active_mark c
          ∷ "  version="
          ∷ shown (get_default "version" (text "?") c)
          ∷ [])
      lines ← model_lines cs
      ok (line ∷ lines)
  ]

  abbrev pub listing : List (Dict (Json Float)) → Result String
  listing [] = ok "No ASR model candidates registered."
  listing (c ∷ cs) = do
    lines ← model_lines (c ∷ cs)
    ok (joined ("Registered ASR model candidates:" ∷ lines))

  -- `_handle_list_models`
  unfoldable pub handle_list_models : FactoryContext Float → Result String
  unfolding model_lines
  handle_list_models ctx = listing ctx.candidates

module _ {Float : Type 0} (fixed : ℕ → Float → String) where
  -- `f"{m.get(key, 'n/a'):.kf}"`: a text does not take the format
  abbrev pub formatted : ℕ → String → Dict Float → Result String
  formatted k key m = elim (lookup key m) [ none ↦ raise value_error | some x ↦ ok (fixed k x) ]

  -- the lines that two handlers share
  pub metrics_text : String → Dict Float → Result String
  metrics_text title m = do
    wer ← formatted 3 "wer" m
    cer ← formatted 3 "cer" m
    rtf ← formatted 4 "rtf" m
    ttft ← formatted 1 "ttft_ms" m
    ok (
        concat (
          title ∷ ":\n  WER=" ∷ wer ∷ "  CER=" ∷ cer ∷ "  RTF=" ∷ rtf ∷ "  TTFT=" ∷ ttft ∷ " ms"
          ∷ []))

  abbrev pub metrics_reply : FactoryContext Float → String → Result String
  metrics_reply ctx model_id =
      if str_eq model_id ""
      then ok "ERROR: model_id is required"
      else elim (lookup model_id ctx.metrics_store) [
        | none ↦ ok (text_append "No metrics available for " model_id)
        | some m ↦ metrics_text (text_append "Metrics for " model_id) m
      ]

  -- `_handle_get_metrics`
  pub handle_get_metrics : FactoryContext Float → Dict (Json Float) → Result String
  handle_get_metrics ctx arguments = do
    model_id ← text_argument "model_id" arguments
    metrics_reply ctx model_id

  module _ {World : Type 0} where
    -- what awaiting the evaluator's answer makes of it
    abbrev pub evaluated : String → Result (Dict Float) × World → Result String × World
    evaluated model_id (ok metrics, w) =
        (metrics_text (text_append "Evaluation complete for " model_id) metrics, w)
    evaluated model_id (raise e, w) = (raise e, w)

    abbrev pub evaluate_with :
        Option (String → World → Result (Dict Float) × World)
        → String
        → World
        → Result String × World
    evaluate_with none model_id w = (
      ok (concat ("Evaluation triggered for " ∷ model_id ∷ " (stub – evaluator not wired)" ∷ [])),
      w,
    )
    evaluate_with (some evaluate_fn) model_id w = evaluated model_id (evaluate_fn model_id w)

    -- `_handle_evaluate_model`
    unfoldable pub handle_evaluate_model :
        Option (String → World → Result (Dict Float) × World)
        → Dict (Json Float)
        → World
        → Result String × World
    handle_evaluate_model evaluate_fn arguments w = elim (text_argument "model_id" arguments) [
      | raise e ↦ (raise e, w)
      | ok model_id ↦
          if str_eq model_id ""
          then (ok "ERROR: model_id is required", w)
          else evaluate_with evaluate_fn model_id w
    ]

module _ {World : Type 0} where
  abbrev pub promoted : String → Result (Unit {0}) × World → Result String × World
  promoted model_id (ok done, w) =
      (ok (concat ("Model " ∷ model_id ∷ " promoted to production." ∷ [])), w)
  promoted model_id (raise e, w) = (raise e, w)

  abbrev pub promote_with :
      Option (String → World → Result (Unit {0}) × World) → String → World → Result String × World
  promote_with none model_id w = (
    ok (concat ("Promotion requested for " ∷ model_id ∷ " (stub – promote_fn not wired)" ∷ [])),
    w,
  )
  promote_with (some promote_fn) model_id w = promoted model_id (promote_fn model_id w)

module _ {Float World : Type 0} where
  -- `_handle_promote_model`
  unfoldable pub handle_promote_model :
      Option (String → World → Result (Unit {0}) × World)
      → Dict (Json Float)
      → World
      → Result String × World
  handle_promote_model promote_fn arguments w = elim (text_argument "model_id" arguments) [
    | raise e ↦ (raise e, w)
    | ok model_id ↦
        if str_eq model_id ""
        then (ok "ERROR: model_id is required", w)
        else promote_with promote_fn model_id w
  ]

module _ {Float : Type 0} (shown : Json Float → String) where
  -- `_handle_set_agent_hint`
  pub handle_set_agent_hint :
      FactoryContext Float → Dict (Json Float) → Result String × FactoryContext Float
  handle_set_agent_hint ctx arguments = elim (text_argument "key" arguments) [
    | raise e ↦ (raise e, ctx)
    | ok key ↦
        let value = get_default "value" null arguments in
        if str_eq key "" then (ok "ERROR: key is required", ctx) else (
          ok (concat ("Agent hint set: " ∷ key ∷ "=" ∷ shown value ∷ [])),
          record ctx { agent_hints = insert key value ctx.agent_hints },
        )
  ]

-- `_handle_cluster_status`; `decimal_text` is `str` of a number
unfoldable pub handle_cluster_status :
    {Float : Type 0}
    → (Float → String)
    → (Dict (Json Float) → String)
    → (ℕ → String)
    → FactoryContext Float
    → String
handle_cluster_status percent shown_dict decimal_text ctx = concat (
    "Cluster status:\n  overall_load="
    ∷ percent ctx.cluster_load
    ∷ "\n  active_hints="
    ∷ shown_dict ctx.agent_hints
    ∷ "\n  models_evaluated="
    ∷ decimal_text (length ctx.metrics_store)
    ∷ [])
