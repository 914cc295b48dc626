-- ===== src/Factory/NatAgent/Cycles.antt =====
-- The cycles of `run` of agentic-factory/src/nat_agent.py.
use mathlib.Core.List.{append_assoc, append-nil}
use mathlib.Core.Path.{subst}
use asr_serve.Base.{
  ℕ, ◌+◌, ◌≡◌, refl, sym, ◌∙◌, ap, arith, Bool, String, List, [], ◌∷◌, ◌++◌, Bool-cases, inl, inr,
  true, false, not, if◌then◌else◌,
}
use asr_serve.Base.Json.{Json}
use asr_serve.Base.Result.{Result, ok, raise}
use asr_serve.Factory.NatAgent.{
  AgentAction, NatAgent, call_for, execute_actions, agent_cycle, run_agent, stop_agent,
}

-- `ys` begins with `xs`.
abbrev pub Extends : {A : Type 0} → List A → List A → Type 0
Extends {A} xs ys = (more : List A) × (ys ≡ xs ++ more)

Extends-trans : {A : Type 0} (xs ys zs : List A) → Extends xs ys → Extends ys zs → Extends xs zs
Extends-trans xs ys zs (more, e) (more', e') =
    (more ++ more', e' ∙ ap (λ l. l ++ more') e ∙ append_assoc xs more more')

-- A turn of `run`: what observing and reasoning make of the world, and whether `stop` is called before
-- its sleep is over.
pub record AgentTurn (Float World : Type 0) : Type 0 where
  pub think : World → Result (List (AgentAction Float)) × World
  pub stopped : Bool

-- the turns up to the first in which the agent is stopped, that one included
abbrev pub turns_run : {Float World : Type 0} → List (AgentTurn Float World) → ℕ
turns_run [] = 0
turns_run (t ∷ turns) = if t.stopped then 1 else turns_run turns + 1

abbrev is_stopped : {Float World : Type 0} → List (AgentTurn Float World) → Bool
is_stopped [] = false
is_stopped (t ∷ turns) = if t.stopped then true else is_stopped turns

module _ {Float World : Type 0} (mcp_call : String → Json Float → World → Bool × World) where
  execute_actions-Extends :
      (actions taken : List (AgentAction Float)) (w : World)
      → Extends taken (execute_actions mcp_call actions taken w).1
  unfolding execute_actions
  execute_actions-Extends [] taken w = ([], sym (append-nil taken))
  execute_actions-Extends (a ∷ actions) taken w =
      let p = call_for mcp_call a.action_type a.parameters w in
      let rest = execute_actions-Extends actions (taken ++ a ∷ []) p.1 in
      elim (Bool-cases p.0) [
        | inl e ↦ rw e (Extends-trans taken (taken ++ a ∷ []) _ (a ∷ [], refl) rest)
        | inr e ↦ rw e (a ∷ [], refl)
      ]

  agent_cycle_lem :
      (reasoned : Result (List (AgentAction Float))) (agent : NatAgent Float) (w : World)
      → let (agent', w') = agent_cycle mcp_call reasoned (agent, w) in
        (agent'.cycle_count ≡ agent.cycle_count + 1)
        × (agent'.running ≡ agent.running)
        × Extends agent.actions_taken agent'.actions_taken
  unfolding agent_cycle
  agent_cycle_lem (raise e) agent w = (refl, refl, ([], sym (append-nil agent.actions_taken)))
  agent_cycle_lem (ok actions) agent w =
      (refl, refl, execute_actions-Extends actions agent.actions_taken w)

  -- the loop, for a list of turns that is long enough; the sleep of a turn may see it stopped
  pub run_agent_turns :
      List (AgentTurn Float World) → NatAgent Float × World → NatAgent Float × World
  run_agent_turns [] s = s
  run_agent_turns (t ∷ turns) (agent, w) =
      let (reasoned, w') = t.think w in
      let (agent', w'') = agent_cycle mcp_call reasoned (agent, w') in
      let rest = run_agent_turns turns (if t.stopped then stop_agent agent' else agent', w'') in
      if agent.running then rest else (agent, w)

  -- `run`
  pub run_agent_loop :
      List (AgentTurn Float World) → NatAgent Float × World → NatAgent Float × World
  unfolding run_agent_turns
  run_agent_loop turns (agent, w) = run_agent_turns turns (run_agent agent, w)

  abbrev Ran : List (AgentTurn Float World) → NatAgent Float → NatAgent Float × World → Type 0
  Ran turns agent (agent', w) =
      (agent'.cycle_count ≡ agent.cycle_count + turns_run turns)
      × (agent'.running ≡ not (is_stopped turns))
      × Extends agent.actions_taken agent'.actions_taken

  idle :
      (turns : List (AgentTurn Float World)) (agent : NatAgent Float) (w : World)
      → agent.running ≡ false
      → run_agent_turns turns (agent, w) ≡ (agent, w)
  unfolding run_agent_turns
  idle [] agent w e = refl
  idle (t ∷ turns) agent w e = rw (run_agent_turns, e) refl

  run_agent_turns-turn :
      (t : AgentTurn Float World) (turns : List (AgentTurn Float World)) (agent : NatAgent Float)
      (w : World) (b : Bool)
      → agent.running ≡ true
      → t.stopped ≡ b
      → let (reasoned, w') = t.think w in
        let (agent', w'') = agent_cycle mcp_call reasoned (agent, w') in
        run_agent_turns (t ∷ turns) (agent, w)
        ≡ run_agent_turns turns (if b then stop_agent agent' else agent', w'')
  unfolding run_agent_turns
  run_agent_turns-turn t turns agent w b runs e =
      let (reasoned, w') = t.think w in
      let (agent', w'') = agent_cycle mcp_call reasoned (agent, w') in
      ap
        (λ r.
          if r
          then run_agent_turns turns (if t.stopped then stop_agent agent' else agent', w'')
          else (agent, w))
        runs
      ∙ ap (λ r. run_agent_turns turns (if r then stop_agent agent' else agent', w'')) e

  run_agent_turns-Ran :
      (turns : List (AgentTurn Float World)) (agent : NatAgent Float) (w : World)
      → agent.running ≡ true
      → Ran turns agent (run_agent_turns turns (agent, w))
  unfolding run_agent_turns stop_agent
  run_agent_turns-Ran [] agent w runs =
      (omega arith, runs, ([], sym (append-nil agent.actions_taken)))
  run_agent_turns-Ran (t ∷ turns) agent w runs =
      let (reasoned, w') = t.think w in
      let (counted, still, kept) = agent_cycle_lem reasoned agent w' in
      let (agent', w'') = agent_cycle mcp_call reasoned (agent, w') in
      elim (Bool-cases t.stopped) [
        | inl e ↦
            let ran =
              run_agent_turns-turn t turns agent w true runs e
              ∙ idle turns (stop_agent agent') w'' refl in
            subst (Ran (t ∷ turns) agent) (sym ran) (rw e (counted, refl, kept))
        | inr e ↦
            let (counted', ends, kept') = run_agent_turns-Ran turns agent' w'' (still ∙ runs) in
            subst (Ran (t ∷ turns) agent) (sym (run_agent_turns-turn t turns agent w false runs e))
              (rw e (
                omega arith,
                ends,
                Extends-trans agent.actions_taken agent'.actions_taken _ kept kept',
              ))
      ]

  -- However many turns `run` takes, and whether observing, reasoning and the tools return or raise in
  -- them, it counts each turn up to the first in which it is stopped, that one included, and no other;
  -- it goes on if it is never stopped, and stops otherwise; and the actions taken before stay
  -- recorded, in order, before the new ones.
  pub run_agent_loop_lem :
      (turns : List (AgentTurn Float World)) (agent : NatAgent Float) (w : World)
      → let (agent', w') = run_agent_loop turns (agent, w) in
        (agent'.cycle_count ≡ agent.cycle_count + turns_run turns)
        × (agent'.running ≡ not (is_stopped turns))
        × Extends agent.actions_taken agent'.actions_taken
  unfolding run_agent_loop run_agent
  run_agent_loop_lem turns agent w = run_agent_turns-Ran turns (run_agent agent) w refl
