-- ===== src/Factory/NatAgent/Reason.antt =====
-- `reason` and `_build_observation_prompt` of agentic-factory/src/nat_agent.py. `agent` is the language
-- model's agent, if there is one, which answers the prompt with a text or raises. `fixed k` is `:.kf`,
-- `dumps` is `json.dumps`, and `dumps_indented` that with two blanks of indentation.
use asr_serve.Base.{ℕ, String, List, [], ◌∷◌, Option, none, some}
use asr_serve.Base.Dict.{Dict}
use asr_serve.Base.Floats.{Floats}
use asr_serve.Base.Json.{Json, array, object, items_of, fields_of}
use asr_serve.Base.Result.{Result, ◌>>=◌}
use asr_serve.Factory.Context.{concat}
use asr_serve.Factory.NatAgent.{FactoryObservation, AgentAction, stub_reason, parse_actions}

module _ (fl : Floats) (fixed : ℕ → fl.Float → String) (percent : fl.Float → String)
    (shown : Json fl.Float → String) (dumps dumps_indented : Json fl.Float → String) where
  open fl use {Float}

  abbrev pub objects : List (Dict (Json Float)) → List (Json Float)
  objects [] = []
  objects (d ∷ ds) = object (fields_of d) ∷ objects ds

  -- `_build_observation_prompt`
  pub build_observation_prompt : FactoryObservation Float → String
  build_observation_prompt obs = concat (
      "Current factory state:\n"
      ∷ "  active_model : "
      ∷ obs.active_model
      ∷ "\n  active_wer   : "
      ∷ fixed 4 obs.active_wer
      ∷ "\n  active_rtf   : "
      ∷ fixed 5 obs.active_rtf
      ∷ "\n  cluster_load : "
      ∷ percent obs.cluster_load
      ∷ "\n  current_hints: "
      ∷ dumps (object (fields_of obs.current_hints))
      ∷ "\n  candidates   : "
      ∷ dumps_indented (array (items_of (objects obs.candidate_models)))
      ∷ "\n\nDecide what actions to take. Respond with a JSON object:\n"
      ∷ "{\"actions\": [{\"action_type\": \"...\", \"parameters\": {...}, \"rationale\": \"...\"}]}\n"
      ∷ "Use action_type \"noop\" if no changes are needed."
      ∷ [])

  unfoldable pub reason :
      (String → Option (Json Float))
      → Option (String → Result String)
      → FactoryObservation Float
      → Result (List (AgentAction Float))
  unfolding build_observation_prompt
  reason loads none obs = stub_reason fl percent (fixed 3) shown obs
  reason loads (some agent) obs = do
    response ← agent (build_observation_prompt obs)
    parse_actions loads response
