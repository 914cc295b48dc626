-- ===== src/Tests/Agent.antt =====
-- The theorems on the NAT agent at concrete inputs.
use asr_serve.Base.{
  ℕ, ◌+◌, ◌≡◌, Bool, true, false, String, List, [], ◌∷◌, Option, none, some, str_eq, if◌then◌else◌,
}
use asr_serve.Base.Json.{Json, Items, null, int, text, array, object, cons, nil, end, field}
use asr_serve.Base.Int.{pos}
use asr_serve.Base.Result.{ok, raise, key_error}
use asr_serve.Factory.NatAgent.{AgentAction, NatAgent}
use asr_serve.Factory.NatAgent.Cycles.{
  Extends, AgentTurn, turns_run, run_agent_loop, run_agent_loop_lem,
}
use asr_serve.Factory.NatAgent.Parsing.{Written, answer}

abbrev action : String → AgentAction ℕ
action kind = record { action_type = text kind; parameters = object end; rationale = text "test" }

-- A tool call is counted, and a promotion raises.
abbrev count_call : String → Json ℕ → ℕ → Bool × ℕ
count_call tool arguments n = (if str_eq tool "promote_model" then false else true, n + 1)

abbrev actions : List (AgentAction ℕ)
actions = action "noop" ∷ action "evaluate" ∷ action "promote" ∷ action "set_hint" ∷ []

abbrev agent : NatAgent ℕ
agent = record { running = true; cycle_count = 4; actions_taken = action "noop" ∷ [] }

-- A turn whose observation raises, one that is stopped, and one that is not reached.
abbrev turns : List (AgentTurn ℕ ℕ)
turns =
    record { think = λ n. (raise key_error, n); stopped = false }
    ∷ record { think = λ n. (ok actions, n + 100); stopped = true }
    ∷ record { think = λ n. (ok actions, n); stopped = false }
    ∷ []

run_agent_loop_lem_example :
    let (agent', w') = run_agent_loop count_call turns (agent, 0) in
    (agent'.cycle_count ≡ 4 + turns_run turns)
    × (agent'.running ≡ false)
    × Extends (action "noop" ∷ []) agent'.actions_taken
run_agent_loop_lem_example = run_agent_loop_lem count_call turns agent 0

-- An evaluation of a model, and an item that says nothing.
abbrev items : List (Written ℕ)
items =
    record {
      action_type = some (text "evaluate");
      parameters = some (object (field "model_id" (text "canary-1b") end));
      rationale = none;
    }
    ∷ record { action_type = none; parameters = none; rationale = some null }
    ∷ []

abbrev listed : Items ℕ
listed = cons (int (pos 1)) nil

-- A decoder of two texts.
abbrev decode : String → Option (Json ℕ)
decode s =
    if str_eq s "A" then some (answer items) else if str_eq s "B" then some (array listed) else none
