-- ===== src/Tests/Inference.antt =====
-- The theorems on the inference worker at concrete inputs.
use asr_serve.Base.{ℕ, ◌≡◌, refl, ap, arith, true, List, [], ◌∷◌, none, some}
use asr_serve.Base.Floats.{micro}
use asr_serve.Base.Int.{pos}
use asr_serve.Base.Json.{null, bool, int, float, text, object, end}
use asr_serve.Base.Result.{ok, raise, value_error, runtime_error, ◌>>=◌}
use asr_serve.Base.Text.{
  codes, ascii_digit, IsDecimal, parse_int, parse_signed, is_space, is_int_space, parse_digits,
}
use asr_serve.Base.Value.{int, str}
use asr_serve.Factory.Hints.{AgentHintsManager, default_profile, with_agent_hints}
use asr_serve.Inference.{hints_of}
use asr_serve.Inference.Config.{
  WorkerConfig, default_config, from_yaml, with_host, with_port, configure,
}
use asr_serve.Inference.Config.Documents.{document, from_yaml-document}
use asr_serve.Inference.Server.{
  http_error, transcript, new_worker, transcript_of, endpoint_start, endpoint_answered,
}
use asr_serve.Inference.Server.Requests.{Server, Event, arrives, answers, run, new_server}
use asr_serve.Inference.Hints.{hints_of-with_agent_hints}

ascii_digit-IsDecimal : IsDecimal ascii_digit
ascii_digit-IsDecimal = record { ascii = λ d h. ground (arith, h) }

abbrev manager : AgentHintsManager ℕ
manager = record {
  active = record (default_profile (str (codes "canary-1b")) 0) { priority = pos 9; debug = true };
  history = [];
}

hints_of-with_agent_hints_example :
    hints_of ascii_digit (with_agent_hints manager none)
    ≡ ok (("priority", int (pos 9)) ∷ ("kv_ttl_ms", int (pos 500)) ∷ [])
hints_of-with_agent_hints_example =
    hints_of-with_agent_hints ascii_digit ascii_digit-IsDecimal manager

-- A configuration like the shipped file's.
abbrev config : WorkerConfig ℕ
config = record {
  model_name_or_path = text "/models/whisper-large-v3";
  tensor_parallel_size = int (pos 4);
  pipeline_parallel_size = int (pos 1);
  gpu_memory_utilization = float 920_000;
  max_model_len = int (pos 4096);
  max_num_seqs = int (pos 256);
  quantization = text "nvfp4";
  kv_cache_dtype = text "fp8_e4m3";
  chunked_prefill_enabled = bool true;
  max_prefill_tokens = int (pos 2048);
  host = text "0.0.0.0";
  port = pos 8000;
}

from_yaml-document_example :
    (from_yaml micro ascii_digit (document config) none
      ≡ ok (record config { quantization = null }))
    × (from_yaml micro ascii_digit (object end) none ≡ ok (default_config micro))
unfolding default_config
from_yaml-document_example = from_yaml-document micro ascii_digit config none

-- The command line overrides the model, the host and the port, but a port 0.
overridden_config :
    configure micro ascii_digit (document config) (some "m") (some "localhost") (some (pos 0))
    ≡ ok (record config {
      model_name_or_path = text "m";
      quantization = null;
      host = text "localhost";
    })
unfolding configure
overridden_config =
    ap (λ r. r >>= λ c. ok (with_port (some (pos 0)) (with_host (some "localhost") c)))
      (from_yaml-document micro ascii_digit config (some "m")).0

-- Two requests wait for the engine at once, and the later is answered first; one body is empty, one
-- header is no number, and one request is still pending.
abbrev events : List (Event ℕ)
events =
    arrives (7 ∷ []) [] 1000
    ∷ arrives (8 ∷ []) [] 2000
    ∷ arrives [] [] 2500
    ∷ answers 1 (ok (("hello" ∷ []) ∷ [])) 4000
    ∷ arrives (7 ∷ []) (("X-Agent-Priority", str (codes "high")) ∷ []) 5000
    ∷ arrives (9 ∷ []) [] 6000
    ∷ answers 0 (raise runtime_error) 7000
    ∷ []

abbrev served : Server ℕ
served = run micro true (λ n. "0") (λ d. "") ascii_digit events (new_server micro)

replies_of :
    served.replies
    ≡ (ok (http_error 400 "Empty request body"), 0)
      ∷ (ok (transcript "hello"), 2_000_000)
      ∷ (raise value_error, 0)
      ∷ (raise runtime_error, 6_000_000)
      ∷ []
unfolding endpoint_start endpoint_answered transcript_of hints_of parse_int new_worker parse_signed
    is_space is_int_space parse_digits
replies_of = refl
