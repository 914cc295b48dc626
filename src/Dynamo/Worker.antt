-- ===== src/Dynamo/Worker.antt =====
-- `WorkerConfig`, `DynamoWorker`, `PrefillWorker` and `DecodeWorker` of
-- dynamo-orchestration/src/dynamo_worker.py. The registry is the cluster's, so it is passed along. A
-- request is cut at its awaits: the registration of memory, the semaphore and the transfer.
pub mod Lifecycle
pub mod Requests
use Prim.Native.String.{◌++◌ as text_append}
use asr_serve.Base.{
  ℕ, zero, suc, [], ◌∷◌, ◌+◌, ◌-◌, Bool, true, false, String, Option, none, some, map, str_eq,
  if◌then◌else◌,
}
use asr_serve.Base.Dict.{Dict, lookup, get_default}
use asr_serve.Base.Floats.{Floats}
use asr_serve.Base.Int.{ℤ, pos, negsuc}
use asr_serve.Base.Result.{
  ◌>>=◌, Result, ok, raise, Error, value_error, key_error, zero_division, not_implemented,
}
use asr_serve.Base.Value.{Value, int, int_of}
use asr_serve.Dynamo.Registry.{
  RequestPhase, prefill, decode, WorkerEndpoint, WorkerRegistry, register, deregister,
}
use asr_serve.Dynamo.Router.{AsrRequest}
use asr_serve.Dynamo.Nixl.{
  KvCacheDescriptor, NixlTransferManager, TransferStatus, init_manager, start, stop,
  register_tensor, transfer_entered, transfer_answered, waiting, transferring, transferred, failed,
}

pub record WorkerConfig : Type 0 where
  pub worker_id : String
  pub role : RequestPhase
  pub listen_address : String
  pub cuda_device : ℕ
  pub rdma_device : String
  pub model_path : String
  pub max_batch_size : ℤ
  pub kv_ttl_ms : ℤ

-- `role.value`
abbrev pub value : RequestPhase → String
value prefill = "prefill"
value decode = "decode"

-- `hex` is the start of the `uuid4` that the call draws.
unfoldable pub post_init : String → WorkerConfig → WorkerConfig
post_init hex config =
    if str_eq config.worker_id ""
    then record config { worker_id = text_append (value config.role) (text_append "-" hex) }
    else config

-- `DynamoWorker` itself has no phase of its own.
pub data Kind : Type 0 where
  base_worker prefill_worker decode_worker : Kind

pub record DynamoWorker : Type 0 where
  pub kind : Kind
  pub config : WorkerConfig
  pub nixl : NixlTransferManager
  pub running : Bool
  pub request_count : ℕ

-- the constructors of the three classes
abbrev pub config_of : Kind → WorkerConfig → WorkerConfig
config_of base_worker config = config
config_of prefill_worker config = record config { role = prefill }
config_of decode_worker config = record config { role = decode }

unfoldable pub init_worker : Kind → WorkerConfig → DynamoWorker
init_worker kind config = record {
  kind = kind;
  config = config_of kind config;
  nixl = init_manager 64;
  running = false;
  request_count = 0;
}

module _ (fl : Floats) where
  open fl use {Float, lit, lt, ratio}

  abbrev pub endpoint_of : WorkerConfig → WorkerEndpoint Float
  endpoint_of config = record {
    worker_id = config.worker_id;
    role = config.role;
    address = config.listen_address;
    load = lit 0 0;
    healthy = true;
  }

  pub start_worker :
      Bool
      → DynamoWorker × Option (WorkerRegistry Float)
      → DynamoWorker × Option (WorkerRegistry Float)
  start_worker nixl_available (w, none) =
      (record w { nixl = start nixl_available w.nixl; running = true }, none)
  start_worker nixl_available (w, some workers) = (
    record w { nixl = start nixl_available w.nixl; running = true },
    some (register (endpoint_of w.config) workers),
  )

  pub stop_worker :
      DynamoWorker × Option (WorkerRegistry Float) → DynamoWorker × Option (WorkerRegistry Float)
  stop_worker (w, none) = (record w { nixl = stop w.nixl; running = false }, none)
  stop_worker (w, some workers) = (
    record w { nixl = stop w.nixl; running = false },
    some (deregister w.config.worker_id workers),
  )

  abbrev pub at_most_one : Float → Float
  at_most_one x = if lt (lit 1 0) x then lit 1 0 else x

  -- `a / b` of two `int`s
  abbrev pub divided : ℕ → ℤ → Result Float
  divided a (pos zero) = raise zero_division
  divided a (pos (suc n)) = ok (ratio (pos a) (pos (suc n)))
  divided a (negsuc n) = ok (ratio (pos a) (negsuc n))

  -- `load`
  unfoldable pub current_load : DynamoWorker → Result Float
  current_load w = do part ← divided w.request_count w.config.max_batch_size; ok (at_most_one part)

-- where a request stands: `refused` and `crashed` raise, before and after it is counted
pub data RequestStatus : Type 0 where
  fresh : RequestStatus
  registering : KvCacheDescriptor → RequestStatus
  moving : KvCacheDescriptor → TransferStatus → RequestStatus
  prefilled : KvCacheDescriptor → RequestStatus
  decoded : String → RequestStatus
  refused : Error → RequestStatus
  crashed : Error → RequestStatus

abbrev pub counted_in : DynamoWorker → DynamoWorker
counted_in w = record w { request_count = w.request_count + 1 }

abbrev pub counted_out : DynamoWorker → DynamoWorker
counted_out w = record w { request_count = w.request_count - 1 }

module _ (fl : Floats) (decimal : ℕ → Option ℕ) where
  open fl use {Float}

  -- `_process_prefill` up to the registration of the memory; `handle` and `kv_ptr` are what
  -- `uuid4` and `id` give
  pub process_prefill : String → ℕ → AsrRequest Float → DynamoWorker → RequestStatus × DynamoWorker
  process_prefill handle kv_ptr request w =
      elim (int_of fl decimal
        (get_default "kv_ttl_ms" (int w.config.kv_ttl_ms) request.agent_hints)) [
          | raise e ↦ (crashed e, counted_in w)
          | ok kv_ttl ↦
              let (descriptor, nixl) =
                register_tensor handle w.config.cuda_device kv_ptr 4_194_304 (32 ∷ 1500 ∷ 64 ∷ [])
                  "bfloat16" kv_ttl w.nixl in
              if w.nixl.nixl_agent
              then (registering descriptor, record (counted_in w) { nixl = nixl })
              else (prefilled descriptor, counted_out (record (counted_in w) { nixl = nixl }))
        ]

  -- from the agent's answer to the registration, an exception or none
  pub prefill_registered :
      Option Error → KvCacheDescriptor → DynamoWorker → RequestStatus × DynamoWorker
  prefill_registered none descriptor w = (prefilled descriptor, counted_out w)
  prefill_registered (some e) descriptor w = (crashed e, w)

  -- `_process_decode` up to the semaphore of `transfer`
  pub process_decode : AsrRequest Float → DynamoWorker → RequestStatus × DynamoWorker
  process_decode request w = elim request.kv_handle [
    | none ↦ (refused value_error, w)
    | some handle ↦ elim (lookup handle w.nixl.descriptors) [
      | none ↦ (crashed key_error, counted_in w)
      | some descriptor ↦ (moving descriptor waiting, counted_in w)
    ]
  ]

  -- what the transfer's new state makes of the request; `e` is the agent's exception
  pub decode_moved :
      Error
      → AsrRequest Float
      → KvCacheDescriptor
      → TransferStatus × NixlTransferManager
      → DynamoWorker
      → RequestStatus × DynamoWorker
  decode_moved e request descriptor (waiting, m) w =
      (moving descriptor waiting, record w { nixl = m })
  decode_moved e request descriptor (transferring, m) w =
      (moving descriptor transferring, record w { nixl = m })
  decode_moved e request descriptor (transferred ptr, m) w = (
    decoded (text_append "[stub transcript for " (text_append request.request_id "]")),
    counted_out (record w { nixl = m }),
  )
  decode_moved e request descriptor (failed, m) w = (crashed e, record w { nixl = m })

  abbrev pub dispatched :
      RequestPhase
      → Kind
      → String
      → ℕ
      → AsrRequest Float
      → DynamoWorker
      → RequestStatus × DynamoWorker
  dispatched prefill prefill_worker handle kv_ptr request w =
      process_prefill handle kv_ptr request w
  dispatched prefill base_worker handle kv_ptr request w = (refused not_implemented, w)
  dispatched prefill decode_worker handle kv_ptr request w = (refused not_implemented, w)
  dispatched decode decode_worker handle kv_ptr request w = process_decode request w
  dispatched decode base_worker handle kv_ptr request w = (refused not_implemented, w)
  dispatched decode prefill_worker handle kv_ptr request w = (refused not_implemented, w)

  -- `handle_request`, which dispatches on the phase to the method of the class
  pub handle_request : String → ℕ → AsrRequest Float → DynamoWorker → RequestStatus × DynamoWorker
  handle_request handle kv_ptr request w = dispatched request.phase w.kind handle kv_ptr request w
