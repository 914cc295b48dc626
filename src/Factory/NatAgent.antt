-- ===== src/Factory/NatAgent.antt =====
-- `NATAgent` of agentic-factory/src/nat_agent.py: its stub rules, the parsing of a model's answer, the
-- execution of actions and the cycles of `run`. What a tool call does is `mcp_call`, over the state
-- `World` of what it acts on; it returns (`true`) or raises (`false`). `loads` is `json.loads`, `none`
-- being a JSONDecodeError. Python's formatting is a parameter: `percent` is `:.1%`, `fixed` is `:.3f`
-- and `shown` is `str`.
pub mod Actions
pub mod Cycles
pub mod Parsing
pub mod Reason
use Prim.Native.String.{◌++◌ as text_append}
use asr_serve.Base.{
  ℕ, ◌+◌, Bool, true, false, String, List, [], ◌∷◌, ◌++◌, Option, none, some, str_eq, if◌then◌else◌,
}
use asr_serve.Base.Dict.{Dict, lookup, get_default}
use asr_serve.Base.Floats.{Floats}
use asr_serve.Base.Int.{pos}
use asr_serve.Base.Json.{
  Json, Items, Fields, null, bool, int, float, text, array, object, nil, end, field, items, as_dict,
  text_is, json_truth,
}
use asr_serve.Base.Result.{Result, ok, raise, key_error, attribute_error, type_error, ◌>>=◌}

pub record FactoryObservation (Float : Type 0) : Type 0 where
  pub timestamp : Float
  pub active_model : String
  pub active_wer : Float
  pub active_rtf : Float
  pub candidate_models : List (Dict (Json Float))
  pub cluster_load : Float
  pub current_hints : Dict (Json Float)

pub record AgentAction (Float : Type 0) : Type 0 where
  pub action_type : Json Float
  pub parameters : Json Float
  pub rationale : Json Float

pub record NatAgent (Float : Type 0) : Type 0 where
  pub running : Bool
  pub cycle_count : ℕ
  pub actions_taken : List (AgentAction Float)

module _ (fl : Floats) (percent fixed : fl.Float → String) (shown : Json fl.Float → String) where
  open fl use {Float, lit, lt}

  abbrev pub hint_action : Float → AgentAction Float
  hint_action load = record {
    action_type = text "set_hint";
    parameters = object (field "key" (text "kv_ttl_ms") (field "value" (int (pos 750)) end));
    rationale = text (
        text_append "Cluster load " (
          text_append (percent load)
            " > 80%; increasing KV cache TTL to reduce eviction pressure."));
  }

  abbrev pub evaluate_action : Float → Json Float → AgentAction Float
  evaluate_action wer model_id = record {
    action_type = text "evaluate";
    parameters = object (field "model_id" model_id end);
    rationale = text (
        text_append "Active WER=" (
          text_append (fixed wer) (
            text_append " exceeds 0.10; evaluating candidate "
              (text_append (shown model_id) "."))));
  }

  abbrev pub noop_action : AgentAction Float
  noop_action = record {
    action_type = text "noop";
    parameters = object end;
    rationale = text "Metrics within acceptable range; no action required.";
  }

  -- `c.get("is_active")` as a condition
  abbrev pub serves : Dict (Json Float) → Bool
  serves c = elim (lookup "is_active" c) [ none ↦ false | some v ↦ json_truth fl v ]

  -- the loop over the candidates, which breaks at the first that does not serve
  unfoldable pub first_idle : Float → List (Dict (Json Float)) → Result (List (AgentAction Float))
  first_idle wer [] = ok []
  first_idle wer (c ∷ cs) =
      let rest = first_idle wer cs in
      if serves c then rest else elim (lookup "model_id" c) [
        | none ↦ raise key_error
        | some model_id ↦ ok (evaluate_action wer model_id ∷ [])
      ]

  abbrev pub or_noop : List (AgentAction Float) → List (AgentAction Float)
  or_noop [] = noop_action ∷ []
  or_noop (a ∷ actions) = a ∷ actions

  -- the rule for a hot cluster
  abbrev pub hot_actions : Float → List (AgentAction Float)
  hot_actions load = if lt (lit 8 1) load then hint_action load ∷ [] else []

  -- `_stub_reason`
  unfoldable pub stub_reason : FactoryObservation Float → Result (List (AgentAction Float))
  stub_reason obs = do
    evaluations ←
        (if lt (lit 10 2) obs.active_wer
          then first_idle obs.active_wer obs.candidate_models
          else ok [])
    ok (or_noop (hot_actions obs.cluster_load ++ evaluations))

module _ {Float : Type 0} where
  -- the action of one item of the answer
  abbrev pub parse_action : Json Float → Result (AgentAction Float)
  parse_action a = do
    d ← as_dict a
    ok (record {
      action_type = get_default "action_type" (text "noop") d;
      parameters = get_default "parameters" (object end) d;
      rationale = get_default "rationale" (text "") d;
    })

  pub parse_each : List (Json Float) → Result (List (AgentAction Float))
  parse_each [] = ok []
  parse_each (a ∷ items) = do
    action ← parse_action a
    actions ← parse_each items
    ok (action ∷ actions)

  -- the comprehension over `actions`, whatever that is: a text gives its characters, a dictionary its
  -- keys, and neither has a `get`
  pub parse_items : Json Float → Result (List (AgentAction Float))
  unfolding parse_each
  parse_items null = raise type_error
  parse_items (bool b) = raise type_error
  parse_items (int n) = raise type_error
  parse_items (float x) = raise type_error
  parse_items (text s) = if str_eq s "" then ok [] else raise attribute_error
  parse_items (array vs) = parse_each (items vs)
  parse_items (object end) = ok []
  parse_items (object (field k v fs)) = raise attribute_error

  abbrev pub parse_error_action : AgentAction Float
  parse_error_action = record {
    action_type = text "noop";
    parameters = object end;
    rationale = text "parse error";
  }

  module _ (loads : String → Option (Json Float)) where
    -- `_parse_actions`; its handler catches the decoder's error and a KeyError only
    pub parse_actions : String → Result (List (AgentAction Float))
    unfolding parse_items
    parse_actions response = elim (loads response) [
      | none ↦ ok (parse_error_action ∷ [])
      | some document ↦ do d ← as_dict document; parse_items (get_default "actions" (array nil) d)
    ]

module _ {Float World : Type 0} (mcp_call : String → Json Float → World → Bool × World) where
  -- the chain of tests on the action's type; an unknown type is logged
  abbrev pub call_for : Json Float → Json Float → World → Bool × World
  call_for kind parameters w =
      if text_is kind "noop"
      then (true, w)
      else if text_is kind "evaluate"
      then mcp_call "evaluate_model" parameters w
      else if text_is kind "promote"
      then mcp_call "promote_model" parameters w
      else if text_is kind "set_hint"
      then mcp_call "set_agent_hint" parameters w
      else (true, w)

  -- whether it returned, the actions taken and the world
  unfoldable pub execute_actions :
      List (AgentAction Float)
      → List (AgentAction Float)
      → World
      → Bool × List (AgentAction Float) × World
  execute_actions [] taken w = (true, taken, w)
  execute_actions (a ∷ actions) taken w =
      let (returned, w') = call_for a.action_type a.parameters w in
      let rest = execute_actions actions (taken ++ a ∷ []) w' in
      if returned then rest else (false, taken ++ a ∷ [], w')

  -- one turn of `run`, given what observing and reasoning gave; an exception of these or of a tool is
  -- caught
  pub agent_cycle :
      Result (List (AgentAction Float)) → NatAgent Float × World → NatAgent Float × World
  agent_cycle (raise e) (agent, w) = (record agent { cycle_count = agent.cycle_count + 1 }, w)
  agent_cycle (ok actions) (agent, w) =
      let (returned, taken, w') = execute_actions actions agent.actions_taken w in
      (record agent { cycle_count = agent.cycle_count + 1; actions_taken = taken }, w')

-- `run` up to its loop, and `stop`
pub run_agent : {Float : Type 0} → NatAgent Float → NatAgent Float
run_agent agent = record agent { running = true }

pub stop_agent : {Float : Type 0} → NatAgent Float → NatAgent Float
stop_agent agent = record agent { running = false }
