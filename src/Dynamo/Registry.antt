-- ===== src/Dynamo/Registry.antt =====
-- `RequestPhase`, `WorkerEndpoint` and `WorkerRegistry` of dynamo-orchestration/src/router.py.
-- Every endpoint object is made for its registration, so the registry holds them by value.
pub mod Failure
pub mod Invariant
pub mod Selection
use asr_serve.Base.{Bool, true, false, ◌&&◌, String, List, ◌∷◌, [], Option, keep}
use asr_serve.Base.Dict.{Dict, insert, remove, modify, values}
use asr_serve.Base.Floats.{Floats}
use asr_serve.Base.Order.{min_by}

pub data RequestPhase : Type 0 where
  prefill decode : RequestPhase

-- `a == b`
abbrev pub phase_eq : RequestPhase → RequestPhase → Bool
phase_eq prefill prefill = true
phase_eq prefill decode = false
phase_eq decode prefill = false
phase_eq decode decode = true

pub record WorkerEndpoint (Float : Type 0) : Type 0 where
  pub worker_id : String
  pub role : RequestPhase
  pub address : String
  pub load : Float
  pub healthy : Bool

abbrev pub WorkerRegistry : Type 0 → Type 0
WorkerRegistry Float = Dict (WorkerEndpoint Float)

module _ {Float : Type 0} where
  unfoldable pub register : WorkerEndpoint Float → WorkerRegistry Float → WorkerRegistry Float
  register endpoint workers = insert endpoint.worker_id endpoint workers

  unfoldable pub deregister : String → WorkerRegistry Float → WorkerRegistry Float
  deregister worker_id workers = remove worker_id workers

  unfoldable pub update_load : String → Float → WorkerRegistry Float → WorkerRegistry Float
  update_load worker_id load workers = modify worker_id (λ w. record w { load = load }) workers

  unfoldable pub mark_unhealthy : String → WorkerRegistry Float → WorkerRegistry Float
  mark_unhealthy worker_id workers = modify worker_id (λ w. record w { healthy = false }) workers

  abbrev pub is_candidate : RequestPhase → WorkerEndpoint Float → Bool
  is_candidate role w = phase_eq w.role role && w.healthy

unfoldable pub least_loaded :
    (fl : Floats) → RequestPhase → WorkerRegistry fl.Float → Option (WorkerEndpoint fl.Float)
least_loaded fl role workers =
    min_by (λ a b. fl.lt a.load b.load) (keep (is_candidate role) (values workers))
