-- ===== src/Dynamo/Worker/Lifecycle.antt =====
-- `start` and `stop` of the workers of dynamo-orchestration/src/dynamo_worker.py.
use asr_serve.Base.{◌≡◌, refl, ap, ◌∙◌, Bool, true, false, none, some, eq_refl}
use mathlib.Core.Option.{map}
use asr_serve.Base.Dict.{lookup, lookup-insert, remove-insert_absent}
use asr_serve.Base.Floats.{Floats}
use asr_serve.Dynamo.Registry.{WorkerRegistry, register, deregister}
use asr_serve.Dynamo.Worker.{DynamoWorker, endpoint_of, start_worker, stop_worker}

module _ (fl : Floats) where
  open fl use {Float}

  -- A worker whose id is free in the registry, once started, stands there as a healthy idle endpoint
  -- of its role and runs; stopping it then restores the registry, and it does not run.
  stop_worker-start_worker :
      (nixl_available : Bool) (w : DynamoWorker) (workers : WorkerRegistry Float)
      → lookup w.config.worker_id workers ≡ none
      → let (w₁, registry₁) = start_worker fl nixl_available (w, some workers) in
        let (w₂, registry₂) = stop_worker fl (w₁, registry₁) in
        (map (lookup w.config.worker_id) registry₁ ≡ some (some (endpoint_of fl w.config)))
        × (w₁.running ≡ true)
        × (registry₂ ≡ some workers)
        × (w₂.running ≡ false)
  unfolding start_worker stop_worker register deregister
  stop_worker-start_worker nixl_available w workers free = (
    ap some (
        lookup-insert w.config.worker_id w.config.worker_id _ workers
        ∙ rw (eq_refl w.config.worker_id) refl),
    refl,
    ap some (remove-insert_absent w.config.worker_id _ workers free),
    refl,
  )
