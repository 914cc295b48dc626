-- ===== src/Tests/Mcp.antt =====
-- The theorems on the server's tools at concrete inputs.
use Prim.Native.String.{◌++◌ as text_append}
use asr_serve.Base.{
  ℕ, ◌+◌, ◌≡◌, ◌≢◌, refl, arith, true, String, List, [], ◌∷◌, ◌++◌, none, some, eq_iff, inl,
}
use asr_serve.Base.Dict.{Dict}
use asr_serve.Base.Floats.{micro}
use asr_serve.Base.Json.{Json, bool, text, json_truth}
use asr_serve.Base.Result.{ok, raise, value_error}
use asr_serve.Factory.Context.{FactoryContext, update_metrics}
use asr_serve.Factory.Mcp.{handle_get_metrics}
use asr_serve.Factory.Mcp.Agent.{served, Evaluated, hint_of, execute_actions-stub_reason}
use asr_serve.Factory.Mcp.Frame.{Unlisted, IsFramed, call_tool_lem}
use asr_serve.Factory.Mcp.Metrics.{handle_get_metrics-update_metrics}
use asr_serve.Factory.Mcp.Tools.{Wiring, Formats, list_tools, call_tool}
use asr_serve.Factory.NatAgent.{
  FactoryObservation, AgentAction, hint_action, evaluate_action, first_idle, stub_reason,
  execute_actions,
}

abbrev context : FactoryContext ℕ
context = record { candidates = []; metrics_store = []; agent_hints = []; cluster_load = 900_000 }

abbrev figures : Dict ℕ
figures = ("wer", 1) ∷ ("cer", 2) ∷ ("rtf", 3) ∷ ("ttft_ms", 4) ∷ []

abbrev fixed : ℕ → ℕ → String
fixed k x = "0"

abbrev arguments : Dict (Json ℕ)
arguments = ("model_id", text "m") ∷ []

abbrev model : String
model = "m"

named : model ≢ ""
named e = absurd (ground (arith, (eq_iff "m" "").1 e))

handle_get_metrics-update_metrics_example :
    (handle_get_metrics fixed (update_metrics "m" figures context) arguments
      ≡ ok "Metrics for m:\n  WER=0  CER=0  RTF=0  TTFT=0 ms")
    × (handle_get_metrics fixed (update_metrics "m" [] context) arguments ≡ raise value_error)
handle_get_metrics-update_metrics_example = (
  (handle_get_metrics-update_metrics fixed context "m" figures arguments named refl).0 1 2 3 4 refl
      refl refl refl,
  (handle_get_metrics-update_metrics fixed context "m" [] arguments named refl).1 (inl refl),
)

abbrev formats : Formats ℕ
formats = record {
  fixed = fixed;
  percent = λ x. "90.0%";
  decimal_text = λ n. "0";
  shown = λ v. "v";
  shown_dict = λ d. "{}";
}

-- Evaluations are counted, clear the load and raise.
abbrev wiring : Wiring ℕ ℕ
wiring = record {
  evaluate_fn = some (λ m s. (raise value_error, (record s.0 { cluster_load = 0 }, s.1 + 1)));
  promote_fn = none;
}

abbrev observation : FactoryObservation ℕ
observation = record {
  timestamp = 0;
  active_model = "m";
  active_wer = 200_000;
  active_rtf = 0;
  candidate_models =
      (("model_id", text "m") ∷ ("is_active", bool true) ∷ []) ∷ (("model_id", text "n") ∷ []) ∷ [];
  cluster_load = 900_000;
  current_hints = [];
}

abbrev ruled : List (AgentAction ℕ)
ruled =
    hint_action micro formats.percent (fixed 3) formats.shown 900_000
    ∷ evaluate_action micro formats.percent (fixed 3) formats.shown 200_000 (text "n")
    ∷ []

rules : stub_reason micro formats.percent (fixed 3) formats.shown observation ≡ ok ruled
unfolding stub_reason first_idle json_truth
rules = refl

execute_actions-stub_reason_example :
    (actions : List (AgentAction ℕ)) × (stub_reason micro formats.percent
        (fixed 3)
        formats.shown
        observation
      ≡ ok actions)
    × (let (returned, taken', s') =
          execute_actions (served micro formats wiring) actions [] (context, 0) in
        Evaluated micro formats wiring
          (record context { agent_hints = hint_of micro formats wiring 900_000 [] }, 0)
          s'
        × (taken' ≡ [] ++ actions))
execute_actions-stub_reason_example =
    execute_actions-stub_reason micro formats wiring observation [] context 0
      ((text "m", refl), ((text "n", refl), tt))

abbrev set_tool : String
set_tool = "set_agent_hint"

call_tool_lem_example :
    (Unlisted (list_tools {Float = ℕ}) set_tool
      → call_tool micro formats wiring set_tool arguments (context, 0)
        ≡ (ok (text_append "Unknown tool: " set_tool), (context, 0)))
    × IsFramed micro formats wiring set_tool arguments
        (context, 0)
        (call_tool micro formats wiring set_tool arguments (context, 0)).1
call_tool_lem_example = call_tool_lem micro formats wiring set_tool arguments context 0
