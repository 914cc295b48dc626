-- ===== src/Factory/NatAgent/Actions.antt =====
-- The tool calls of `execute_actions` of agentic-factory/src/nat_agent.py.
use mathlib.Core.Path.{subst}
use mathlib.Core.List.{append_assoc, append-nil}
use asr_serve.Base.{
  ◌≡◌, refl, sym, ◌∙◌, arith, Bool, true, false, String, List, [], ◌∷◌, ◌++◌, Option, none, some,
  str_eq, if◌then◌else◌, eq_iff, Bool-cases, inl, inr,
}
use asr_serve.Base.Json.{Json, null, bool, int, float, text, array, object, text_is}
use asr_serve.Factory.NatAgent.{AgentAction, call_for, execute_actions}

-- the tool that serves an action, if one does
abbrev pub tool_of : {Float : Type 0} → Json Float → Option String
tool_of kind =
    if text_is kind "evaluate"
    then some "evaluate_model"
    else if text_is kind "promote"
    then some "promote_model"
    else if text_is kind "set_hint"
    then some "set_agent_hint"
    else none

module _ {Float : Type 0} where
  -- the calls for some actions, in order
  abbrev pub tool_calls : List (AgentAction Float) → List (String × Json Float)
  tool_calls [] = []
  tool_calls (a ∷ actions) = elim (tool_of a.action_type) [
    | none ↦ tool_calls actions
    | some tool ↦ (tool, a.parameters) ∷ tool_calls actions
  ]

  module _ {World : Type 0} (mcp_call : String → Json Float → World → Bool × World) where
    -- calls in order, up to the first that raises
    abbrev pub call_each : List (String × Json Float) → World → Bool × World
    call_each [] w = (true, w)
    call_each ((tool, arguments) ∷ calls) w =
        let (returned, w') = mcp_call tool arguments w in
        if returned then call_each calls w' else (false, w')

    call_for-text :
        (kind : String) (parameters : Json Float) (w : World)
        → call_for mcp_call (text kind) parameters w ≡ elim (tool_of {Float = Float} (text kind)) [
          | none ↦ (true, w)
          | some tool ↦ mcp_call tool parameters w
        ]
    call_for-text kind parameters w = elim (Bool-cases (str_eq kind "noop")) [
      | inl e ↦ rw ((eq_iff kind "noop").0 e) refl
      | inr e₁ ↦ rw e₁ (elim (Bool-cases (str_eq kind "evaluate")) [
        | inl e ↦ rw e refl
        | inr e₂ ↦ rw e₂ (elim (Bool-cases (str_eq kind "promote")) [
          | inl e ↦ rw e refl
          | inr e₃ ↦
              rw e₃ (elim (Bool-cases (str_eq kind "set_hint")) [
                | inl e ↦ rw e refl
                | inr e ↦ rw e refl
              ])
        ])
      ])
    ]

    call_for-tool_of :
        (kind parameters : Json Float) (w : World)
        → call_for mcp_call kind parameters w
          ≡ elim (tool_of kind) [ none ↦ (true, w) | some tool ↦ mcp_call tool parameters w ]
    call_for-tool_of null parameters w = refl
    call_for-tool_of (bool b) parameters w = refl
    call_for-tool_of (int n) parameters w = refl
    call_for-tool_of (float x) parameters w = refl
    call_for-tool_of (text kind) parameters w = call_for-text kind parameters w
    call_for-tool_of (array vs) parameters w = refl
    call_for-tool_of (object fs) parameters w = refl

    -- `r` is what executing `actions` after `taken` gives, and `calls` the calls it makes from `w` on.
    abbrev Executes :
        List (AgentAction Float)
        → List (AgentAction Float)
        → List (String × Json Float)
        → World
        → Bool × List (AgentAction Float) × World
        → Type 0
    Executes actions taken calls w r =
        (r.0 ≡ (call_each calls w).0)
        × (r.2 ≡ (call_each calls w).1)
        × (r.0 ≡ true → r.1 ≡ taken ++ actions)

    after_call :
        (a : AgentAction Float) (actions taken : List (AgentAction Float)) (w : World)
        (o : Option String)
        → ((w' : World)
            → Executes actions
                (taken ++ a ∷ [])
                (tool_calls actions)
                w'
                (execute_actions mcp_call actions (taken ++ a ∷ []) w'))
        → let p : Bool × World = elim o [
          | none ↦ (true, w)
          | some tool ↦ mcp_call tool a.parameters w
        ] in
          Executes
            (a ∷ actions)
            taken
            (elim o [
              | none ↦ tool_calls actions
              | some tool ↦ (tool, a.parameters) ∷ tool_calls actions
            ])
            w
            (if p.0
              then execute_actions mcp_call actions (taken ++ a ∷ []) p.1
              else (false, taken ++ a ∷ [], p.1))
    after_call a actions taken w none rest =
        let (x, y, z) = rest w in (x, y, λ e. z e ∙ append_assoc taken (a ∷ []) actions)
    after_call a actions taken w (some tool) rest =
        let (x, y, z) = rest (mcp_call tool a.parameters w).1 in
        elim (Bool-cases (mcp_call tool a.parameters w).0) [
          | inl e ↦ rw (call_each, e) (x, y, λ h. z h ∙ append_assoc taken (a ∷ []) actions)
          | inr e ↦ rw (call_each, e) (refl, refl, λ h. absurd (ground (arith, h)))
        ]

    -- Executing actions makes the tool calls of those that name a tool, in order, with their
    -- parameters, up to the first call that raises; it raises exactly if one does, and otherwise adds
    -- every action, in order, to those taken.
    execute_actions-calls :
        (actions taken : List (AgentAction Float)) (w : World)
        → let (returned, taken', w') = execute_actions mcp_call actions taken w in
          (returned ≡ (call_each (tool_calls actions) w).0)
          × (w' ≡ (call_each (tool_calls actions) w).1)
          × (returned ≡ true → taken' ≡ taken ++ actions)
    unfolding execute_actions
    execute_actions-calls [] taken w = (refl, refl, λ e. sym (append-nil taken))
    execute_actions-calls (a ∷ actions) taken w =
        subst
          (λ p. Executes (a ∷ actions) taken (tool_calls (a ∷ actions)) w (
            if p.0
            then execute_actions mcp_call actions (taken ++ a ∷ []) p.1
            else (false, taken ++ a ∷ [], p.1)))
          (sym (call_for-tool_of a.action_type a.parameters w))
          (after_call a actions taken w (tool_of a.action_type)
            (λ w'. execute_actions-calls actions (taken ++ a ∷ []) w'))
