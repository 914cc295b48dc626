-- ===== src/Tests/Workers.antt =====
-- The theorems on the Dynamo workers at concrete inputs.
use asr_serve.Base.{ℕ, refl, false, String, [], ◌∷◌, Option, none, some}
use asr_serve.Base.Floats.{micro}
use asr_serve.Base.Int.{pos}
use asr_serve.Base.Result.{runtime_error}
use asr_serve.Base.Text.{ascii_digit}
use asr_serve.Dynamo.Nixl.{init_manager}
use asr_serve.Dynamo.Registry.{prefill, decode}
use asr_serve.Dynamo.Router.{AsrRequest}
use asr_serve.Dynamo.Worker.{decode_worker, WorkerConfig, DynamoWorker, fresh}
use asr_serve.Dynamo.Worker.Requests.{System, Input, run, IsCounted, run-IsCounted}

abbrev config : WorkerConfig
config = record {
  worker_id = "d1";
  role = prefill;
  listen_address = "0.0.0.0:50051";
  cuda_device = 0;
  rdma_device = "mlx5_0";
  model_path = "/models";
  max_batch_size = pos 8;
  kv_ttl_ms = pos 500;
}

abbrev worker : DynamoWorker
worker = record {
  kind = decode_worker;
  config = record config { role = decode };
  nixl = init_manager 64;
  running = false;
  request_count = 0;
}

-- The first request names a handle that is not there, the second one none.
abbrev system : System ℕ
system = record {
  worker = worker;
  requests =
      record { request = request (some "kv"); status = fresh }
      ∷ record { request = request none; status = fresh }
      ∷ [];
}
  where
    request : Option String → AsrRequest ℕ
    request handle = record {
      request_id = "r";
      audio_bytes = [];
      phase = decode;
      kv_handle = handle;
      agent_hints = [];
      enqueue_time = 0;
    }

abbrev input : Input
input = record {
  handle = "h";
  kv_ptr = 4096;
  problem = none;
  error = runtime_error;
  answer = some 7;
}

run-IsCounted_example :
    IsCounted micro ascii_digit (run micro ascii_digit ((0, input) ∷ (1, input) ∷ []) system)
run-IsCounted_example = run-IsCounted micro ascii_digit ((0, input) ∷ (1, input) ∷ []) system refl
