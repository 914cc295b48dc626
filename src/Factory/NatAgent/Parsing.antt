-- ===== src/Factory/NatAgent/Parsing.antt =====
-- `_parse_actions` of agentic-factory/src/nat_agent.py on the answers that it is made for.
use asr_serve.Base.{String, List, [], ◌∷◌, ◌++◌, Option, none, some, map}
use asr_serve.Base.Dict.{Dict}
use asr_serve.Base.Json.{Json, text, array, object, end, field, items_of, fields_of}
use asr_serve.Factory.NatAgent.{AgentAction}

-- an item of an answer, any of whose fields may be missing
pub record Written (Float : Type 0) : Type 0 where
  pub action_type : Option (Json Float)
  pub parameters : Option (Json Float)
  pub rationale : Option (Json Float)

module _ {Float : Type 0} where
  abbrev pub written : String → Option (Json Float) → Dict (Json Float)
  written key none = []
  written key (some v) = (key, v) ∷ []

  abbrev to_json : Written Float → Json Float
  to_json w = object (
      fields_of (
        written "action_type" w.action_type
        ++ (written "parameters" w.parameters ++ written "rationale" w.rationale)))

  abbrev or_else : Option (Json Float) → Json Float → Json Float
  or_else none v = v
  or_else (some w) v = w

  -- the action that it stands for
  abbrev pub meaning : Written Float → AgentAction Float
  meaning w = record {
    action_type = or_else w.action_type (text "noop");
    parameters = or_else w.parameters (object end);
    rationale = or_else w.rationale (text "");
  }

  abbrev pub answer : List (Written Float) → Json Float
  answer ws = object (field "actions" (array (items_of (map to_json ws))) end)
