-- ===== src/Factory/Mcp/Frame.antt =====
-- What `call_tool` of agentic-factory/src/mcp_client.py may change of its context.
use Prim.Native.String.{◌++◌ as text_append}
use asr_serve.Base.{
  ap, Option, some, Option-cases, ◌≡◌, ◌≢◌, refl, sym, map, ◌⊎◌, inl, inr, arith, false, String,
  List, [], ◌∷◌, str_eq, eq_iff, Bool-cases,
}
use asr_serve.Base.Dict.{Dict, get_default, insert}
use asr_serve.Base.Floats.{Floats}
use asr_serve.Base.Json.{Json, null}
use asr_serve.Base.Result.{Error, Result, ok, raise}
use asr_serve.Factory.Context.{FactoryContext, text_argument}
use asr_serve.Factory.Mcp.{
  ToolEntry, handle_set_agent_hint, handle_evaluate_model, handle_promote_model, evaluated,
  promoted,
}
use asr_serve.Factory.Mcp.Tools.{Wiring, Formats, tools, list_tools, handle, dispatch, call_tool}

Result-cases : {A : Type 0} (r : Result A) → ((e : Error) × (r ≡ raise e)) ⊎ ((a : A) × (r ≡ ok a))
Result-cases (raise e) = inl (e, refl)
Result-cases (ok a) = inr (a, refl)

-- No tool of the list has the name.
abbrev pub Unlisted : {Float : Type 0} → List (String × String × Json Float) → String → Type 0
Unlisted [] name = Unit
Unlisted ((tool, description, schema) ∷ rest) name = (tool ≢ name) × Unlisted rest name

module _ (fl : Floats) {World : Type 0} (formats : Formats fl.Float)
    (wiring : Wiring fl.Float World) where
  open fl use {Float}

  -- The hint that the arguments give is set.
  abbrev pub IsHinted : Dict (Json Float) → FactoryContext Float → FactoryContext Float → Type 0
  IsHinted arguments ctx ctx' =
      (key : String) × (text_argument "key" arguments ≡ ok key)
      × (key ≢ "")
      × (ctx' ≡ record ctx {
        agent_hints = insert key (get_default "value" null arguments) ctx.agent_hints;
      })

  -- The callback is there, is called with the model that the arguments name, and leaves this state.
  abbrev pub CalledBack :
      {A : Type 0}
      → Option (String → FactoryContext Float × World → Result A × (FactoryContext Float × World))
      → Dict (Json Float)
      → FactoryContext Float × World
      → FactoryContext Float × World
      → Type 0
  CalledBack {A} callback arguments s s' =
      (f : String → FactoryContext Float × World → Result A × (FactoryContext Float × World))
      × (model_id : String) × (callback ≡ some f)
      × (text_argument "model_id" arguments ≡ ok model_id)
      × (model_id ≢ "")
      × (s' ≡ (f model_id s).1)

  abbrev pub IsFramed :
      String
      → Dict (Json Float)
      → FactoryContext Float × World
      → FactoryContext Float × World
      → Type 0
  IsFramed name arguments s s' =
      (s' ≡ s)
      ⊎ (((name ≡ "set_agent_hint") × IsHinted arguments s.0 s'.0 × (s'.1 ≡ s.1))
          ⊎ (((name ≡ "evaluate_model") × CalledBack wiring.evaluate_fn arguments s s')
              ⊎ ((name ≡ "promote_model") × CalledBack wiring.promote_fn arguments s s')))

  evaluated-state :
      (model_id : String) (r : Result (Dict Float) × (FactoryContext Float × World))
      → (evaluated formats.fixed model_id r).1 ≡ r.1
  evaluated-state model_id (ok m, s) = refl
  evaluated-state model_id (raise e, s) = refl

  promoted-state :
      (model_id : String) (r : Result (Unit {0}) × (FactoryContext Float × World))
      → (promoted model_id r).1 ≡ r.1
  promoted-state model_id (ok m, s) = refl
  promoted-state model_id (raise e, s) = refl

  pub handle_evaluate_model-CalledBack :
      (arguments : Dict (Json Float)) (s : FactoryContext Float × World)
      → let s' = (handle_evaluate_model formats.fixed wiring.evaluate_fn arguments s).1 in
        (s' ≡ s) ⊎ CalledBack wiring.evaluate_fn arguments s s'
  unfolding handle_evaluate_model
  handle_evaluate_model-CalledBack arguments s =
      elim (Result-cases (text_argument "model_id" arguments)) [
        | inl (e, raised) ↦ inl (rw (handle_evaluate_model, raised) refl)
        | inr (model_id, read) ↦ elim (Bool-cases (str_eq model_id "")) [
          | inl b ↦ inl (rw (handle_evaluate_model, read, b) refl)
          | inr b ↦ elim (Option-cases wiring.evaluate_fn) [
            | inl e ↦ inl (rw (handle_evaluate_model, read, b, e) refl)
            | inr (f, e) ↦ inr (
              f,
              model_id,
              e,
              read,
              ground (arith, b, eq_iff model_id ""),
              rw (handle_evaluate_model, read, b, e) (evaluated-state model_id (f model_id s)),
            )
          ]
        ]
      ]

  handle_promote_model-CalledBack :
      (arguments : Dict (Json Float)) (s : FactoryContext Float × World)
      → let s' = (handle_promote_model {Float = Float} wiring.promote_fn arguments s).1 in
        (s' ≡ s) ⊎ CalledBack wiring.promote_fn arguments s s'
  unfolding handle_promote_model
  handle_promote_model-CalledBack arguments s =
      elim (Result-cases (text_argument "model_id" arguments)) [
        | inl (e, raised) ↦ inl (rw (handle_promote_model, raised) refl)
        | inr (model_id, read) ↦ elim (Bool-cases (str_eq model_id "")) [
          | inl b ↦ inl (rw (handle_promote_model, read, b) refl)
          | inr b ↦ elim (Option-cases wiring.promote_fn) [
            | inl e ↦ inl (rw (handle_promote_model, read, b, e) refl)
            | inr (f, e) ↦ inr (
              f,
              model_id,
              e,
              read,
              ground (arith, b, eq_iff model_id ""),
              rw (handle_promote_model, read, b, e) (promoted-state model_id (f model_id s)),
            )
          ]
        ]
      ]

  handle_set_agent_hint_lem :
      (arguments : Dict (Json Float)) (ctx : FactoryContext Float) (r : Result String)
      → text_argument "key" arguments ≡ r
      → let (result, ctx') = handle_set_agent_hint formats.shown ctx arguments in
        (ctx' ≡ ctx) ⊎ IsHinted arguments ctx ctx'
  unfolding handle_set_agent_hint
  handle_set_agent_hint_lem arguments ctx (raise error) e = inl (rw (handle_set_agent_hint, e) refl)
  handle_set_agent_hint_lem arguments ctx (ok key) e = elim (Bool-cases (str_eq key "")) [
    | inl b ↦ inl (rw (handle_set_agent_hint, e, b) refl)
    | inr b ↦ inr (key, e, ground (arith, b, eq_iff key ""), rw (handle_set_agent_hint, e, b) refl)
  ]

  dispatch-Unlisted :
      (ts : List (ToolEntry Float)) (name : String) (arguments : Dict (Json Float))
      (ctx : FactoryContext Float) (w : World)
      → Unlisted (map (λ (t : ToolEntry Float). (t.name, t.description, t.input_schema)) ts) name
      → dispatch fl formats wiring ts name arguments (ctx, w)
        ≡ (ok (text_append "Unknown tool: " name), (ctx, w))
  unfolding dispatch
  dispatch-Unlisted [] name arguments ctx w h = refl
  dispatch-Unlisted (t ∷ ts) name arguments ctx w (h, hs) =
      let differs : str_eq t.name name ≡ false = ground (arith, eq_iff t.name name, h) in
      rw differs (dispatch-Unlisted ts name arguments ctx w hs)

  -- Each handler of the list keeps the frame.
  abbrev AreFramed :
      List (ToolEntry Float) → String → Dict (Json Float) → FactoryContext Float → World → Type 0
  AreFramed [] name arguments ctx w = Unit
  AreFramed (t ∷ ts) name arguments ctx w =
      (t.name ≡ name
        → IsFramed name arguments (ctx, w)
            (handle fl formats wiring t.handler arguments (ctx, w)).1)
      × AreFramed ts name arguments ctx w

  dispatch-IsFramed :
      (ts : List (ToolEntry Float)) (name : String) (arguments : Dict (Json Float))
      (ctx : FactoryContext Float) (w : World)
      → AreFramed ts name arguments ctx w
      → IsFramed name arguments (ctx, w) (dispatch fl formats wiring ts name arguments (ctx, w)).1
  unfolding dispatch
  dispatch-IsFramed [] name arguments ctx w h = inl refl
  dispatch-IsFramed (t ∷ ts) name arguments ctx w (h, hs) = elim (Bool-cases (str_eq t.name name)) [
    | inl e ↦ rw e (h ((eq_iff t.name name).0 e))
    | inr e ↦ rw e (dispatch-IsFramed ts name arguments ctx w hs)
  ]

  IsFramed-set_agent_hint :
      (name : String) (arguments : Dict (Json Float)) (ctx : FactoryContext Float) (w : World)
      → "set_agent_hint" ≡ name
      → IsFramed name arguments (ctx, w) ((handle_set_agent_hint formats.shown ctx arguments).1, w)
  IsFramed-set_agent_hint name arguments ctx w e =
      elim (handle_set_agent_hint_lem arguments ctx _ refl) [
        | inl same ↦ inl (ap (λ c. (c, w)) same)
        | inr hinted ↦ inr (inl (sym e, hinted, refl))
      ]

  IsFramed-evaluate_model :
      (name : String) (arguments : Dict (Json Float)) (s : FactoryContext Float × World)
      → "evaluate_model" ≡ name
      → IsFramed name arguments s
          (handle_evaluate_model formats.fixed wiring.evaluate_fn arguments s).1
  IsFramed-evaluate_model name arguments s e = elim (handle_evaluate_model-CalledBack arguments s) [
    | inl same ↦ inl same
    | inr called ↦ inr (inr (inl (sym e, called)))
  ]

  IsFramed-promote_model :
      (name : String) (arguments : Dict (Json Float)) (s : FactoryContext Float × World)
      → "promote_model" ≡ name
      → IsFramed name arguments s
          (handle_promote_model {Float = Float} wiring.promote_fn arguments s).1
  IsFramed-promote_model name arguments s e = elim (handle_promote_model-CalledBack arguments s) [
    | inl same ↦ inl same
    | inr called ↦ inr (inr (inr (sym e, called)))
  ]

  -- A call of a tool that `list_tools` does not list is answered as unknown and changes nothing. Any
  -- call leaves the context and all else as it was, or it is one of `set_agent_hint` with a key that is not
  -- empty, and only the hint of that key is new, or one of `evaluate_model` or `promote_model` with an id
  -- that is not empty, and leaves what its callback, called once with that id, makes of the state.
  pub call_tool_lem :
      (name : String) (arguments : Dict (Json Float)) (ctx : FactoryContext Float) (w : World)
      → (Unlisted (list_tools {Float = Float}) name
          → call_tool fl formats wiring name arguments (ctx, w)
            ≡ (ok (text_append "Unknown tool: " name), (ctx, w)))
        × IsFramed name arguments (ctx, w) (call_tool fl formats wiring name arguments (ctx, w)).1
  unfolding call_tool list_tools dispatch
  call_tool_lem name arguments ctx w = (
    dispatch-Unlisted tools name arguments ctx w,
    dispatch-IsFramed tools name arguments ctx w (
      λ e. inl refl,
      (
        IsFramed-evaluate_model name arguments (ctx, w),
        (
          λ e. inl refl,
          (
            IsFramed-set_agent_hint name arguments ctx w,
            (IsFramed-promote_model name arguments (ctx, w), (λ e. inl refl, tt)),
          ),
        ),
      ),
    ),
  )
