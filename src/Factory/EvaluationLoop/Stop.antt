-- ===== src/Factory/EvaluationLoop/Stop.antt =====
-- The end of `run` of agentic-factory/src/evaluator.py.
use asr_serve.Base.{
  ℕ, ◌≡◌, refl, ap, ◌∙◌, All, Option-cases, Bool-cases, Bool, true, false, List, [], ◌∷◌, ◌++◌,
  Option, some, map, if◌then◌else◌, inl, inr,
}
use asr_serve.Base.Floats.{Floats}
use asr_serve.Base.Loops.{◌>>=◌}
use asr_serve.Base.Order.{sort_by}
use asr_serve.Base.Text.{Text}
use asr_serve.Factory.Evaluator.{ModelMetrics, Call}
use asr_serve.Factory.EvaluationLoop.{
  EvaluationLoop, Turn, start_loop, stop_loop, promote, active_candidate, recorded, replaced,
  conclude, key_lt, eval_cycle, run_turns, run_loop,
}
use asr_serve.Factory.EvaluationLoop.Cycle.{List-cases, eval_cycle_cases, run_cycles}

module _ (fl : Floats) where
  open fl use {Float}

  conclude-running :
      (now : Float) (best : ModelMetrics Float) (loop : EvaluationLoop Float)
      → (conclude fl now best loop).running ≡ loop.running
  unfolding conclude promote
  conclude-running now best loop = elim (Option-cases (active_candidate loop.candidates)) [
    | inl e ↦ rw (conclude, e) refl
    | inr (active, e) ↦ elim (Bool-cases (replaced fl (recorded fl now best loop) active best)) [
      | inl b ↦ rw (conclude, e, b) refl
      | inr b ↦ rw (conclude, e, b) refl
    ]
  ]

  module _ (lower : Text → Text) (connected : Bool) where
    cycle-running :
        (now : Float) (call : ℕ → ℕ → Call Float) (loop : EvaluationLoop Float)
        → (loop' : EvaluationLoop Float) × (eval_cycle fl lower connected now call loop
            ≡ some loop')
          × (loop'.running ≡ loop.running)
    cycle-running now call loop =
        let (results, ran, same, cycle) = eval_cycle_cases fl lower connected now call loop in
        elim (List-cases (sort_by (key_lt fl) results)) [
          | inl e ↦ (loop, cycle ∙ rw e refl, refl)
          | inr (best, others, e) ↦
              (conclude fl now best loop, cycle ∙ rw e refl, conclude-running now best loop)
        ]

    -- what the cycle of a turn meets
    abbrev pub event : Turn Float → Float × (ℕ → ℕ → Call Float)
    event t = (t.now, t.call)

    run_turns-stopped :
        (after : List (Turn Float)) (loop : EvaluationLoop Float)
        → run_turns fl lower connected after (stop_loop loop) ≡ some (stop_loop loop)
    unfolding run_turns
    run_turns-stopped [] loop = refl
    run_turns-stopped (u ∷ after) loop = refl

    run_turns-turn :
        (t : Turn Float) (turns : List (Turn Float)) (loop next : EvaluationLoop Float)
        → loop.running ≡ true
        → eval_cycle fl lower connected t.now t.call loop ≡ some next
        → run_turns fl lower connected (t ∷ turns) loop
          ≡ run_turns fl lower connected turns (if t.stopped then stop_loop next else next)
    unfolding run_turns
    run_turns-turn t turns loop next runs ran =
        let rest : EvaluationLoop Float → Option (EvaluationLoop Float) =
          λ l. run_turns fl lower connected turns (if t.stopped then stop_loop l else l) in
        ap (λ b. if b then eval_cycle fl lower connected t.now t.call loop >>= rest else some loop)
          runs
        ∙ ap (λ o. o >>= rest) ran

    run_cycles-cons :
        (now : Float) (call : ℕ → ℕ → Call Float) (events : List (Float × (ℕ → ℕ → Call Float)))
        (loop next : EvaluationLoop Float)
        → eval_cycle fl lower connected now call loop ≡ some next
        → run_cycles fl lower connected ((now, call) ∷ events) loop
          ≡ run_cycles fl lower connected events next
    run_cycles-cons now call events loop next ran = rw (run_cycles, ran) refl

    run_turns-stop :
        (before : List (Turn Float)) (t : Turn Float) (after : List (Turn Float))
        (loop : EvaluationLoop Float)
        → loop.running ≡ true
        → All (λ u. u.stopped ≡ false) before
        → t.stopped ≡ true
        → (loop' : EvaluationLoop Float) × (run_cycles fl lower connected
              (map event (before ++ t ∷ []))
              loop
            ≡ some loop')
          × (run_turns fl lower connected (before ++ t ∷ after) loop ≡ some (stop_loop loop'))
    run_turns-stop [] t after loop runs h stops =
        let (next, ran, still) = cycle-running t.now t.call loop in
        (
          next,
          run_cycles-cons t.now t.call [] loop next ran,
          run_turns-turn t after loop next runs ran
              ∙ ap (λ b. run_turns fl lower connected after (if b then stop_loop next else next))
                  stops
              ∙ run_turns-stopped after next,
        )
    run_turns-stop (u ∷ before) t after loop runs (goes_on, h) stops =
        let (next, ran, still) = cycle-running u.now u.call loop in
        let (loop', ran', ended) = run_turns-stop before t after next (still ∙ runs) h stops in
        (
          loop',
          run_cycles-cons u.now u.call (map event (before ++ t ∷ [])) loop next ran ∙ ran',
          run_turns-turn u (before ++ t ∷ after) loop next runs ran
              ∙ ap
                  (λ b.
                    run_turns fl lower connected (before ++ t ∷ after)
                      (if b then stop_loop next else next))
                  goes_on
              ∙ ended,
        )

    -- If `stop` is called in some turn, and in none before it, `run` returns, whatever its cycles
    -- meet: it has run the cycles up to that turn and no other, each of which returned, and it
    -- leaves what they leave, not running.
    pub run_loop-stop :
        (before : List (Turn Float)) (t : Turn Float) (after : List (Turn Float))
        (loop : EvaluationLoop Float)
        → All (λ u. u.stopped ≡ false) before
        → t.stopped ≡ true
        → (loop' : EvaluationLoop Float) × (run_cycles fl lower connected
              (map event (before ++ t ∷ []))
              (start_loop loop)
            ≡ some loop')
          × (run_loop fl lower connected (before ++ t ∷ after) loop ≡ some (stop_loop loop'))
    unfolding run_loop
    run_loop-stop before t after loop h stops =
        run_turns-stop before t after (start_loop loop) refl h stops
