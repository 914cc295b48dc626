-- ===== src/Factory/Scheduler.antt =====
-- `TTLEvictionScheduler` of agentic-factory/src/agent_hints.py. A callback `Fn` is called with the
-- handle and the state `World` of whatever it acts on; it returns (`true`) or raises (`false`). It
-- does not call the scheduler that is running it. The lock makes each method one step.
pub mod Loop
pub mod Tick
use asr_serve.Base.{ℕ, Bool, String, List, [], ◌∷◌, ◌++◌, Option, none, some, if◌then◌else◌}
use asr_serve.Base.Dict.{Dict, lookup, insert, remove}
use asr_serve.Base.Floats.{Floats}
use asr_serve.Base.Int.{ℤ}
use asr_serve.Base.Result.{Result, ok, raise, key_error, ◌>>=◌}

pub record Entry (Float Fn : Type 0) : Type 0 where
  pub deadline : Float
  pub evict_fn : Fn

pub data Turn (Float Fn : Type 0) : Type 0 where
  registers : Float → String → ℤ → Fn → Turn Float Fn
  ticks : Float → Turn Float Fn

module _ (fl : Floats) {Fn : Type 0} where
  open fl use {Float, add, div, of_int, lit, le}

  unfoldable pub register : Float → String → ℤ → Fn → Dict (Entry Float Fn) → Dict (Entry Float Fn)
  register now handle ttl_ms evict_fn entries =
      let deadline = add now (div (of_int ttl_ms) (lit 1000 0)) in
      insert handle (record { deadline = deadline; evict_fn = evict_fn }) entries

  abbrev pub is_expired : Float → Entry Float Fn → Bool
  is_expired now entry = le entry.deadline now

  -- `[h for h, (dl, _) in self._entries.items() if now >= dl]`
  pub expired : Float → Dict (Entry Float Fn) → List String
  expired now [] = []
  expired now ((h, entry) ∷ d) =
      let rest = expired now d in if is_expired now entry then h ∷ rest else rest

  module _ {World : Type 0} (call : Fn → String → World → Bool × World) where
    -- the loop over the expired handles
    pub evict_all :
        List String
        → Dict (Entry Float Fn)
        → World
        → List String
        → Result (List String × Dict (Entry Float Fn) × World)
    evict_all [] entries w evicted = ok (evicted, entries, w)
    evict_all (h ∷ handles) entries w evicted = elim (lookup h entries) [
      | none ↦ raise key_error
      | some entry ↦
          let (returned, w') = call entry.evict_fn h w in
          evict_all handles (remove h entries) w' (if returned then evicted ++ h ∷ [] else evicted)
    ]

    pub tick :
        Float → Dict (Entry Float Fn) → World → Result (List String × Dict (Entry Float Fn) × World)
    unfolding expired evict_all
    tick now entries w = evict_all (expired now entries) entries w []

    -- A turn of `run_loop` is its tick; between turns, other code registers handles.
    unfoldable pub run_loop :
        List (Turn Float Fn)
        → Dict (Entry Float Fn)
        → World
        → Result (List String × Dict (Entry Float Fn) × World)
    run_loop [] entries w = ok ([], entries, w)
    run_loop (registers now handle ttl_ms evict_fn ∷ turns) entries w =
        run_loop turns (register now handle ttl_ms evict_fn entries) w
    run_loop (ticks now ∷ turns) entries w = do
      (evicted, entries', w') ← tick now entries w
      (later, entries'', w'') ← run_loop turns entries' w'
      ok (evicted ++ later, entries'', w'')
