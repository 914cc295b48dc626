-- ===== src/Factory/Mcp/Tools.antt =====
-- `_TOOLS` and `call_tool` of agentic-factory/src/mcp_client.py.
use Prim.Native.String.{◌++◌ as text_append}
use asr_serve.Base.{ℕ, String, List, [], ◌∷◌, Option, map, str_eq, if◌then◌else◌}
use asr_serve.Base.Dict.{Dict}
use asr_serve.Base.Floats.{Floats}
use asr_serve.Base.Json.{Json, text, array, object, nil, cons, end, field}
use asr_serve.Base.Result.{Result, ok}
use asr_serve.Factory.Context.{FactoryContext}
use asr_serve.Factory.Mcp.{
  Handler, list_models, evaluate_model, get_metrics, set_agent_hint, promote_model, cluster_status,
  ToolEntry, handle_list_models, handle_get_metrics, handle_evaluate_model, handle_promote_model,
  handle_set_agent_hint, handle_cluster_status,
}

module _ {Float : Type 0} where
  abbrev pub no_input : Json Float
  no_input = object (field "type" (text "object") (field "properties" (object end) end))

  abbrev pub string_type : Json Float
  string_type = object (field "type" (text "string") end)

  -- the schema of a tool that takes a model
  abbrev pub model_input : Json Float → Json Float
  model_input type = object (
      field "type" (text "object") (
        field "properties" (object (field "model_id" type end))
          (field "required" (array (cons (text "model_id") nil)) end)))

  abbrev pub tools : List (ToolEntry Float)
  tools =
      record {
        name = "list_models";
        description = "List all registered ASR model candidates and their active status.";
        input_schema = no_input;
        handler = list_models;
      }
      ∷ record {
        name = "evaluate_model";
        description =
            "Trigger an on-demand evaluation of a specific ASR model against live telemetry.";
        input_schema = model_input (
            object
              (field "type" (text "string") (field "description" (text "Model identifier") end)));
        handler = evaluate_model;
      }
      ∷ record {
        name = "get_metrics";
        description = "Retrieve the latest WER/CER/RTF metrics for an ASR model.";
        input_schema = model_input string_type;
        handler = get_metrics;
      }
      ∷ record {
        name = "set_agent_hint";
        description =
            "Override an Agent Hint key/value that will be attached to inference requests.";
        input_schema = object (
            field "type" (text "object") (
              field "properties" (object (field "key" string_type (field "value" (object end) end)))
                (field "required" (array (cons (text "key") (cons (text "value") nil))) end)));
        handler = set_agent_hint;
      }
      ∷ record {
        name = "promote_model";
        description = "Promote a model candidate to production serving.";
        input_schema = model_input string_type;
        handler = promote_model;
      }
      ∷ record {
        name = "get_cluster_status";
        description = "Return current AI Factory cluster health, load, and active agent hints.";
        input_schema = no_input;
        handler = cluster_status;
      }
      ∷ []

  -- `list_tools`
  unfoldable pub list_tools : List (String × String × Json Float)
  list_tools = map (λ (t : ToolEntry Float). (t.name, t.description, t.input_schema)) tools

-- What the server is wired to. A callback acts on the context, which the evaluator shares, and on `World`.
pub record Wiring (Float World : Type 0) : Type 0 where
  pub evaluate_fn :
      Option (
        String
        → FactoryContext Float × World
        → Result (Dict Float) × (FactoryContext Float × World))
  pub promote_fn :
      Option
        (String → FactoryContext Float × World → Result (Unit {0}) × (FactoryContext Float × World))

-- Python's formatting.
pub record Formats (Float : Type 0) : Type 0 where
  pub fixed : ℕ → Float → String
  pub percent : Float → String
  pub decimal_text : ℕ → String
  pub shown : Json Float → String
  pub shown_dict : Dict (Json Float) → String

module _ (fl : Floats) {World : Type 0} (formats : Formats fl.Float)
    (wiring : Wiring fl.Float World) where
  open fl use {Float}

  -- `await handler(ctx, arguments)`
  abbrev pub handle :
      Handler
      → Dict (Json Float)
      → FactoryContext Float × World
      → Result String × (FactoryContext Float × World)
  handle list_models arguments (ctx, w) = (handle_list_models fl formats.shown ctx, (ctx, w))
  handle evaluate_model arguments (ctx, w) =
      handle_evaluate_model formats.fixed wiring.evaluate_fn arguments (ctx, w)
  handle get_metrics arguments (ctx, w) = (handle_get_metrics formats.fixed ctx arguments, (ctx, w))
  handle set_agent_hint arguments (ctx, w) =
      let (result, ctx') = handle_set_agent_hint formats.shown ctx arguments in (result, (ctx', w))
  handle promote_model arguments (ctx, w) =
      handle_promote_model {Float = Float} wiring.promote_fn arguments (ctx, w)
  handle cluster_status arguments (ctx, w) = (
    ok (handle_cluster_status formats.percent formats.shown_dict formats.decimal_text ctx),
    (ctx, w),
  )

  -- the loop over the table
  unfoldable pub dispatch :
      List (ToolEntry Float)
      → String
      → Dict (Json Float)
      → FactoryContext Float × World
      → Result String × (FactoryContext Float × World)
  dispatch [] name arguments (ctx, w) = (ok (text_append "Unknown tool: " name), (ctx, w))
  dispatch (t ∷ ts) name arguments (ctx, w) =
      let rest = dispatch ts name arguments (ctx, w) in
      if str_eq t.name name then handle t.handler arguments (ctx, w) else rest

  unfoldable pub call_tool :
      String
      → Dict (Json Float)
      → FactoryContext Float × World
      → Result String × (FactoryContext Float × World)
  unfolding dispatch
  call_tool name arguments s = dispatch tools name arguments s
