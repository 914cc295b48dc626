-- ===== src/Dynamo/Router/Schedule.antt =====
-- Any number of calls of `route` on one event loop, interleaved at their `await`s, while workers
-- register, leave, fail and report their load.
pub mod Moves
pub mod InFlight
pub mod Completion
use asr_serve.Base.{ℕ, Bool, true, false, List, [], ◌∷◌, Option, none, some, get_elem?, set}
use asr_serve.Base.Floats.{Floats}
use asr_serve.Dynamo.Registry.Invariant.{Change, change}
use asr_serve.Dynamo.Router.{
  AsrRequest, SmartRouter, Status, fresh, prefilling, decoding, returned, raised, route_start,
  route_prefilled, route_decoded,
}

pub record Task (Float : Type 0) : Type 0 where
  pub request : AsrRequest Float
  pub status : Status Float

pub record System (Float : Type 0) : Type 0 where
  pub router : SmartRouter Float
  pub tasks : List (Task Float)

pub data Event (Float : Type 0) : Type 0 where
  -- the loop resumes a task, which reads the clock at most twice
  resume : ℕ → Float → Float → Event Float
  registry_change : Change Float → Event Float

module _ (fl : Floats) (decimal : ℕ → Option ℕ) where
  open fl use {Float}

  -- one task runs up to its next `await`, or to its end
  unfoldable pub advance :
      ℕ
      → Float
      → Float
      → Task Float
      → Status Float
      → SmartRouter Float
      → Task Float × SmartRouter Float
  advance i now now' t fresh s =
      let (status, s') = route_start fl decimal i now t.request s in
      (record t { status = status }, s')
  advance i now now' t (prefilling worker t0) s =
      let (request, status, s') = route_prefilled fl decimal now now' worker t0 t.request s in
      (record { request = request; status = status }, s')
  advance i now now' t (decoding worker t1) s =
      let (status, s') = route_decoded fl now worker t1 t.request s in
      (record t { status = status }, s')
  advance i now now' t (returned transcript) s = (t, s)
  advance i now now' t (raised e) s = (t, s)

  unfoldable pub step : Event Float → System Float → System Float
  step (resume i now now') sys = elim (get_elem? sys.tasks i) [
    | none ↦ sys
    | some t ↦
        let (t', router) = advance i now now' t t.status sys.router in
        record { router = router; tasks = set sys.tasks i t' }
  ]
  step (registry_change c) sys = record sys {
    router = record sys.router { registry = change c sys.router.registry };
  }

  unfoldable pub run : List (Event Float) → System Float → System Float
  run [] sys = sys
  run (e ∷ events) sys = run events (step e sys)
