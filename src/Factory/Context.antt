-- ===== src/Factory/Context.antt =====
-- `FactoryContext` of agentic-factory/src/mcp_client.py, but for its callbacks, which are arguments of
-- the tools that call them, and the texts that the tools take and make.
use Prim.Native.String.{◌++◌ as text_append}
use asr_serve.Base.{String, List, [], ◌∷◌}
use asr_serve.Base.Dict.{Dict, get_default, insert, merge}
use asr_serve.Base.Json.{Json, null, bool, int, float, text, array, object}
use asr_serve.Base.Result.{Result, ok, raise, type_error}

pub record FactoryContext (Float : Type 0) : Type 0 where
  pub candidates : List (Dict (Json Float))
  pub metrics_store : Dict (Dict Float)
  pub agent_hints : Dict (Json Float)
  pub cluster_load : Float

module _ {Float : Type 0} where
  unfoldable pub update_metrics : String → Dict Float → FactoryContext Float → FactoryContext Float
  update_metrics model_id metrics ctx = record ctx {
    metrics_store = insert model_id metrics ctx.metrics_store;
  }

  unfoldable pub update_hints : Dict (Json Float) → FactoryContext Float → FactoryContext Float
  update_hints hints ctx = record ctx { agent_hints = merge ctx.agent_hints hints }

-- `"\n".join(lines)`
abbrev pub joined : List String → String
joined [] = ""
joined (line ∷ []) = line
joined (line ∷ next ∷ lines) = text_append line (text_append "\n" (joined (next ∷ lines)))

-- the concatenation of the parts of a text
abbrev pub concat : List String → String
concat [] = ""
concat (s ∷ parts) = text_append s (concat parts)

abbrev pub as_text : {Float : Type 0} → Json Float → Result String
as_text null = raise type_error
as_text (bool b) = raise type_error
as_text (int n) = raise type_error
as_text (float x) = raise type_error
as_text (text s) = ok s
as_text (array vs) = raise type_error
as_text (object fs) = raise type_error

-- `arguments.get(key, "")`
abbrev pub text_argument : {Float : Type 0} → String → Dict (Json Float) → Result String
text_argument key arguments = as_text (get_default key (text "") arguments)
