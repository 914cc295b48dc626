-- ===== src/Factory/Mcp/Agent.antt =====
-- The agent of agentic-factory/src/nat_agent.py at work on the server of
-- agentic-factory/src/mcp_client.py: its tool calls are calls of `call_tool`.
use mathlib.Core.List.{append_assoc, append-nil}
use asr_serve.Base.{
  All, ◌≡◌, refl, sym, ◌∙◌, ◌⊎◌, inl, inr, Bool, true, false, String, List, [], ◌∷◌, ◌++◌, some,
  if◌then◌else◌, Bool-cases,
}
use asr_serve.Base.Dict.{Dict, lookup, insert}
use asr_serve.Base.Floats.{Floats}
use asr_serve.Base.Int.{pos}
use asr_serve.Base.Json.{
  Json, null, bool, int, float, text, array, object, end, field, as_dict, entries,
}
use asr_serve.Base.Result.{Result, ok, raise}
use asr_serve.Factory.Context.{FactoryContext}
use asr_serve.Factory.Mcp.{handle_evaluate_model, handle_set_agent_hint}
use asr_serve.Factory.Mcp.Frame.{CalledBack, handle_evaluate_model-CalledBack}
use asr_serve.Factory.Mcp.Tools.{Wiring, Formats, dispatch, call_tool}
use asr_serve.Factory.NatAgent.{
  FactoryObservation, AgentAction, hint_action, evaluate_action, serves, first_idle, or_noop,
  hot_actions, stub_reason, execute_actions,
}

abbrev returns : {A S : Type 0} → Result A × S → Bool × S
returns (ok a, s) = (true, s)
returns (raise e, s) = (false, s)

module _ (fl : Floats) {World : Type 0} (formats : Formats fl.Float)
    (wiring : Wiring fl.Float World) where
  open fl use {Float, lit, lt}

  -- a tool call of the agent, which the server serves
  abbrev pub served :
      String → Json Float → FactoryContext Float × World → Bool × (FactoryContext Float × World)
  served tool parameters s = elim (as_dict parameters) [
    | raise e ↦ (false, s)
    | ok arguments ↦ returns (call_tool fl formats wiring tool arguments s)
  ]

  -- the evaluation of a candidate, as the rules ask for it
  abbrev evaluation : Float → Json Float → AgentAction Float
  evaluation wer model_id =
      evaluate_action fl formats.percent (formats.fixed 3) formats.shown wer model_id

  -- what the rules leave to evaluate: nothing, or one candidate
  abbrev IsIdle : Float → List (AgentAction Float) → Type 0
  IsIdle wer rest = (rest ≡ []) ⊎ ((model_id : Json Float) × (rest ≡ evaluation wer model_id ∷ []))

  -- The state stays, or is what the evaluator, called once with some model, makes of it.
  abbrev pub Evaluated : FactoryContext Float × World → FactoryContext Float × World → Type 0
  Evaluated s s' =
      (s' ≡ s)
      ⊎ ((arguments : Dict (Json Float)) × CalledBack fl formats wiring wiring.evaluate_fn arguments
            s s')

  returns-state : {S : Type 0} (r : Result String × S) → (returns r).1 ≡ r.1
  returns-state (ok a, s) = refl
  returns-state (raise e, s) = refl

  served-evaluate_model :
      (parameters : Json Float) (s : FactoryContext Float × World)
      → Evaluated s (served "evaluate_model" parameters s).1
  unfolding call_tool dispatch
  served-evaluate_model null (ctx, w) = inl refl
  served-evaluate_model (bool b) (ctx, w) = inl refl
  served-evaluate_model (int n) (ctx, w) = inl refl
  served-evaluate_model (float x) (ctx, w) = inl refl
  served-evaluate_model (text t) (ctx, w) = inl refl
  served-evaluate_model (array vs) (ctx, w) = inl refl
  served-evaluate_model (object fs) (ctx, w) =
      let run = handle_evaluate_model formats.fixed wiring.evaluate_fn (entries fs) (ctx, w) in
      elim (handle_evaluate_model-CalledBack fl formats wiring (entries fs) (ctx, w)) [
        | inl same ↦ inl (returns-state run ∙ same)
        | inr (f, model_id, e, read, nonempty, after) ↦
            inr (entries fs, (f, model_id, e, read, nonempty, returns-state run ∙ after))
      ]

  -- Each candidate has the key that the rules read.
  abbrev pub HasModelId : Dict (Json Float) → Type 0
  HasModelId c = (model_id : Json Float) × (lookup "model_id" c ≡ some model_id)

  first_idle-IsIdle :
      (wer : Float) (cs : List (Dict (Json Float)))
      → All HasModelId cs
      → (rest : List (AgentAction Float)) × (first_idle fl formats.percent
            (formats.fixed 3)
            formats.shown
            wer
            cs
          ≡ ok rest)
        × IsIdle wer rest
  unfolding first_idle
  first_idle-IsIdle wer [] named = ([], refl, inl refl)
  first_idle-IsIdle wer (c ∷ cs) ((model_id, named), h) =
      elim (Bool-cases (serves fl formats.percent (formats.fixed 3) formats.shown c)) [
        | inl b ↦ rw b (first_idle-IsIdle wer cs h)
        | inr b ↦
            (evaluation wer model_id ∷ [], rw (first_idle, b, named) refl, inr (model_id, refl))
      ]

  abbrev pub hint_of : Float → Dict (Json Float) → Dict (Json Float)
  hint_of load hints = if lt (lit 8 1) load then insert "kv_ttl_ms" (int (pos 750)) hints else hints

  execute_one :
      (wer : Float) (model_id : Json Float) (taken : List (AgentAction Float))
      (s : FactoryContext Float × World)
      → let (returned, taken', s') =
          execute_actions served (evaluation wer model_id ∷ []) taken s in
        Evaluated s s' × (taken' ≡ taken ++ evaluation wer model_id ∷ [])
  unfolding execute_actions
  execute_one wer model_id taken s =
      let called = served "evaluate_model" (object (field "model_id" model_id end)) s in
      let kept = served-evaluate_model (object (field "model_id" model_id end)) s in
      elim (Bool-cases called.0) [ inl e ↦ rw e (kept, refl) | inr e ↦ rw e (kept, refl) ]

  -- the rules' actions, the hint apart
  execute_rest :
      (wer : Float) (rest taken : List (AgentAction Float)) (s : FactoryContext Float × World)
      → IsIdle wer rest
      → let (returned, taken', s') = execute_actions served rest taken s in
        Evaluated s s' × (taken' ≡ taken ++ rest)
  unfolding execute_actions
  execute_rest wer rest taken s (inl e) = rw e (inl refl, sym (append-nil taken))
  execute_rest wer rest taken s (inr (model_id, e)) = rw e (execute_one wer model_id taken s)

  execute_hot :
      (load wer : Float) (rest taken : List (AgentAction Float)) (ctx : FactoryContext Float)
      (w : World)
      → IsIdle wer rest
      → let hint = hint_action fl formats.percent (formats.fixed 3) formats.shown load in
        let (returned, taken', s') = execute_actions served (hint ∷ rest) taken (ctx, w) in
        Evaluated
          (record ctx { agent_hints = insert "kv_ttl_ms" (int (pos 750)) ctx.agent_hints }, w)
          s'
        × (taken' ≡ taken ++ hint ∷ rest)
  unfolding execute_actions call_tool dispatch handle_set_agent_hint
  execute_hot load wer rest taken ctx w h =
      let hint = hint_action fl formats.percent (formats.fixed 3) formats.shown load in
      let hinted = record ctx {
        agent_hints = insert "kv_ttl_ms" (int (pos 750)) ctx.agent_hints;
      } in
      let (kept, all) = execute_rest wer rest (taken ++ hint ∷ []) (hinted, w) h in
      (kept, all ∙ append_assoc taken (hint ∷ []) rest)

  execute_cool :
      (wer : Float) (rest taken : List (AgentAction Float)) (ctx : FactoryContext Float) (w : World)
      → IsIdle wer rest
      → let actions = or_noop fl formats.percent (formats.fixed 3) formats.shown rest in
        let (returned, taken', s') = execute_actions served actions taken (ctx, w) in
        Evaluated (ctx, w) s' × (taken' ≡ taken ++ actions)
  unfolding execute_actions
  execute_cool wer rest taken ctx w (inl e) = rw e (inl refl, refl)
  execute_cool wer rest taken ctx w (inr (model_id, e)) =
      rw e (execute_one wer model_id taken (ctx, w))

  -- the actions of the rules, given what they leave to evaluate
  abbrev ruled : Float → List (AgentAction Float) → List (AgentAction Float)
  ruled load rest =
      or_noop fl formats.percent (formats.fixed 3) formats.shown
        (hot_actions fl formats.percent (formats.fixed 3) formats.shown load ++ rest)

  execute_ruled :
      (load wer : Float) (rest taken : List (AgentAction Float)) (ctx : FactoryContext Float)
      (w : World)
      → IsIdle wer rest
      → let (returned, taken', s') = execute_actions served (ruled load rest) taken (ctx, w) in
        Evaluated (record ctx { agent_hints = hint_of load ctx.agent_hints }, w) s'
        × (taken' ≡ taken ++ ruled load rest)
  execute_ruled load wer rest taken ctx w idle = elim (Bool-cases (lt (lit 8 1) load)) [
    | inl b ↦ rw b (execute_hot load wer rest taken ctx w idle)
    | inr b ↦ rw b (execute_cool wer rest taken ctx w idle)
  ]

  stub_reason-ruled :
      (obs : FactoryObservation Float)
      → All HasModelId obs.candidate_models
      → (rest : List (AgentAction Float)) × (stub_reason fl formats.percent
            (formats.fixed 3)
            formats.shown
            obs
          ≡ ok (ruled obs.cluster_load rest))
        × IsIdle obs.active_wer rest
  unfolding stub_reason
  stub_reason-ruled obs named =
      let (rest, found, idle) = first_idle-IsIdle obs.active_wer obs.candidate_models named in
      elim (Bool-cases (lt (lit 10 2) obs.active_wer)) [
        | inl b ↦ (rest, rw (stub_reason, b, found) refl, idle)
        | inr b ↦ ([], rw (stub_reason, b) refl, inl refl)
      ]

  -- If each candidate has a "model_id", the rules give actions. Executing them through the server takes them
  -- all, in order, also when the evaluator raises. It leaves the context as it was, but for the hint
  -- `kv_ttl_ms`, which is set to 750 if the load is above 0.8, whether it was lower or higher before; or it
  -- leaves what the evaluator, called once with some model, makes of that.
  pub execute_actions-stub_reason :
      (obs : FactoryObservation Float) (taken : List (AgentAction Float))
      (ctx : FactoryContext Float) (w : World)
      → All HasModelId obs.candidate_models
      → (actions : List (AgentAction Float)) × (stub_reason fl formats.percent
            (formats.fixed 3)
            formats.shown
            obs
          ≡ ok actions)
        × (let (returned, taken', s') = execute_actions served actions taken (ctx, w) in
            Evaluated (record ctx { agent_hints = hint_of obs.cluster_load ctx.agent_hints }, w) s'
            × (taken' ≡ taken ++ actions))
  execute_actions-stub_reason obs taken ctx w named =
      let (rest, reasoned, idle) = stub_reason-ruled obs named in
      (
        ruled obs.cluster_load rest,
        reasoned,
        execute_ruled obs.cluster_load obs.active_wer rest taken ctx w idle,
      )
