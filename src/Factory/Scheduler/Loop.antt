-- ===== src/Factory/Scheduler/Loop.antt =====
-- `run_loop` of `TTLEvictionScheduler` of agentic-factory/src/agent_hints.py.
use asr_serve.Base.{
  ℕ, ◌+◌, ◌≤◌, ◌≡◌, refl, arith, Bool, String, List, [], ◌∷◌, ◌++◌, length, length-append,
  Bool-cases, inl, inr,
}
use asr_serve.Base.Dict.{Dict, insert, IsDict, insert-IsDict}
use asr_serve.Base.Floats.{Floats}
use asr_serve.Base.Result.{ok}
use asr_serve.Factory.Scheduler.{Entry, Turn, registers, ticks, register, is_expired, run_loop}
use asr_serve.Factory.Scheduler.Tick.{call_all, dead, alive, tick_lem, alive-IsDict}

module _ {Float Fn : Type 0} where
  -- how many registrations some turns make
  abbrev pub registrations : List (Turn Float Fn) → ℕ
  registrations [] = 0
  registrations (registers now handle ttl_ms evict_fn ∷ turns) = registrations turns + 1
  registrations (ticks now ∷ turns) = registrations turns

module _ (fl : Floats) {Fn World : Type 0} (call : Fn → String → World → Bool × World) where
  open fl use {Float}

  length-insert :
      (k : String) (v : Entry Float Fn) (d : Dict (Entry Float Fn))
      → length (insert k v d) ≤ length d + 1
  length-insert k v [] = omega arith
  length-insert k v ((j, u) ∷ d) = ground (arith, length-insert k v d)

  length-call_all :
      (d : Dict (Entry Float Fn)) (w : World) → length (call_all fl call d w).0 ≤ length d
  length-call_all [] w = omega arith
  length-call_all ((h, entry) ∷ d) w =
      let (returned, w') = call entry.evict_fn h w in
      elim (Bool-cases returned) [
        | inl e ↦ rw e (omega (arith, length-call_all d w'))
        | inr e ↦ rw e (omega (arith, length-call_all d w'))
      ]

  length-dead-alive :
      (now : Float) (d : Dict (Entry Float Fn))
      → length (dead fl call now d) + length (alive fl call now d) ≡ length d
  length-dead-alive now [] = omega arith
  length-dead-alive now ((h, entry) ∷ d) = elim (Bool-cases (is_expired fl now entry)) [
    | inl e ↦ rw e (omega (arith, length-dead-alive now d))
    | inr e ↦ rw e (omega (arith, length-dead-alive now d))
  ]

  abbrev Kept : List (Turn Float Fn) → Dict (Entry Float Fn) → World → Type 0
  Kept turns entries w =
      (evicted : List String) × (entries' : Dict (Entry Float Fn)) × (w' : World) × (run_loop fl
          call turns entries w
        ≡ ok (evicted, entries', w'))
      × IsDict entries'
      × (length evicted + length entries' ≤ length entries + registrations turns)

  run_loop-ticks :
      (now : Float) (turns : List (Turn Float Fn)) (entries : Dict (Entry Float Fn)) (w : World)
      → IsDict entries
      → Kept turns (alive fl call now entries) (call_all fl call (dead fl call now entries) w).1
      → Kept (ticks now ∷ turns) entries w
  unfolding run_loop
  run_loop-ticks now turns entries w h (later, entries', w', ran, dict, few) = (
    (call_all fl call (dead fl call now entries) w).0 ++ later,
    entries',
    w',
    rw (run_loop, tick_lem fl call now entries w h, ran) refl,
    dict,
    omega (
      arith,
      length-append (call_all fl call (dead fl call now entries) w).0 later,
      length-call_all (dead fl call now entries) w,
      length-dead-alive now entries,
    ),
  )

  -- From a dictionary of entries, no sequence of registrations and ticks raises; it leaves a
  -- dictionary, and evicts no more handles than were there or were registered, less those that are
  -- left.
  pub run_loop-total :
      (turns : List (Turn Float Fn)) (entries : Dict (Entry Float Fn)) (w : World)
      → IsDict entries
      → (evicted : List String) × (entries' : Dict (Entry Float Fn)) × (w' : World) × (run_loop fl
            call turns entries w
          ≡ ok (evicted, entries', w'))
        × IsDict entries'
        × (length evicted + length entries' ≤ length entries + registrations turns)
  unfolding run_loop register
  run_loop-total [] entries w h = ([], entries, w, refl, h, omega arith)
  run_loop-total (registers now handle ttl_ms evict_fn ∷ turns) entries w h =
      let (evicted, entries', w', ran, dict, few) =
        run_loop-total turns (register fl now handle ttl_ms evict_fn entries) w
          (insert-IsDict handle _ entries h) in
      (evicted, entries', w', ran, dict, omega (arith, few, length-insert handle _ entries))
  run_loop-total (ticks now ∷ turns) entries w h =
      run_loop-ticks now turns entries w h
        (run_loop-total turns (alive fl call now entries) _ (alive-IsDict fl call now entries h).0)
