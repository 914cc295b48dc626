-- ===== src/Inference/Config.antt =====
-- `WorkerConfig` of inference/src/worker.py: its defaults, `from_yaml`, what the command line overrides,
-- and the arguments that `start` gives the engine. A document is what `yaml.safe_load` makes of the
-- file, with texts as keys; `decimal` gives a digit its value.
pub mod Documents
use asr_serve.Base.{
  ℕ, zero, suc, true, String, List, [], ◌∷◌, Option, none, some, str_eq, if◌then◌else◌,
}
use asr_serve.Base.Dict.{Dict, get_default}
use asr_serve.Base.Floats.{Floats}
use asr_serve.Base.Int.{ℤ, pos, negsuc}
use asr_serve.Base.Json.{
  Json, null, bool, int, float, text, object, end, as_dict, text_is, json_int,
}
use asr_serve.Base.Result.{Result, ok, ◌>>=◌}

pub record WorkerConfig (Float : Type 0) : Type 0 where
  pub model_name_or_path : Json Float
  pub tensor_parallel_size : Json Float
  pub pipeline_parallel_size : Json Float
  pub gpu_memory_utilization : Json Float
  pub max_model_len : Json Float
  pub max_num_seqs : Json Float
  pub quantization : Json Float
  pub kv_cache_dtype : Json Float
  pub chunked_prefill_enabled : Json Float
  pub max_prefill_tokens : Json Float
  pub host : Json Float
  pub port : ℤ

-- the fields' defaults
unfoldable pub default_config : (fl : Floats) → WorkerConfig fl.Float
default_config fl = record {
  model_name_or_path = text "/models/whisper-large-v3";
  tensor_parallel_size = int (pos 1);
  pipeline_parallel_size = int (pos 1);
  gpu_memory_utilization = float (fl.lit 90 2);
  max_model_len = int (pos 4096);
  max_num_seqs = int (pos 256);
  quantization = null;
  kv_cache_dtype = text "auto";
  chunked_prefill_enabled = bool true;
  max_prefill_tokens = int (pos 2048);
  host = text "0.0.0.0";
  port = pos 8000;
}

module _ {Float : Type 0} where
  -- `raw.get(name, {})`
  abbrev pub section_of : String → Dict (Json Float) → Json Float
  section_of name raw = get_default name (object end) raw

  -- `model.get("name_or_path", default)`
  abbrev pub named_model : Json Float → Json Float → Result (Json Float)
  named_model default model = do d ← as_dict model; ok (get_default "name_or_path" default d)

  -- `model_override or model.get("name_or_path", default)`
  abbrev pub model_name : Option String → Json Float → Json Float → Result (Json Float)
  model_name none default model = named_model default model
  model_name (some override) default model =
      if str_eq override "" then named_model default model else ok (text override)

  -- `quant.get("method") if quant.get("method") != "nvfp4" else None`
  abbrev pub quantization_of : Dict (Json Float) → Json Float
  quantization_of quant =
      let method = get_default "method" null quant in
      if text_is method "nvfp4" then null else method

module _ (fl : Floats) (decimal : ℕ → Option ℕ) where
  -- `from_yaml`, given what is loaded
  pub from_yaml : Json fl.Float → Option String → Result (WorkerConfig fl.Float)
  unfolding default_config
  from_yaml document model_override = do
    let default = default_config fl
    raw ← as_dict document
    model_name_or_path ←
        model_name model_override default.model_name_or_path (section_of "model" raw)
    engine ← as_dict (section_of "engine" raw)
    quant ← as_dict (section_of "quantization" raw)
    attn ← as_dict (section_of "attention" raw)
    prefill ← as_dict (section_of "prefill" raw)
    serving ← as_dict (section_of "serving" raw)
    port ← json_int fl decimal (get_default "port" (int default.port) serving)
    ok (record {
      model_name_or_path = model_name_or_path;
      tensor_parallel_size = get_default "tensor_parallel_size" default.tensor_parallel_size engine;
      pipeline_parallel_size =
          get_default "pipeline_parallel_size" default.pipeline_parallel_size engine;
      gpu_memory_utilization =
          get_default "gpu_memory_utilization" default.gpu_memory_utilization engine;
      max_model_len = get_default "max_model_len" default.max_model_len engine;
      max_num_seqs = get_default "max_num_seqs" default.max_num_seqs engine;
      quantization = quantization_of quant;
      kv_cache_dtype = get_default "kv_cache_dtype" default.kv_cache_dtype attn;
      chunked_prefill_enabled =
          get_default "chunked_prefill_enabled" default.chunked_prefill_enabled prefill;
      max_prefill_tokens = get_default "max_prefill_tokens" default.max_prefill_tokens prefill;
      host = get_default "host" default.host serving;
      port = port;
    })

module _ {Float : Type 0} where
  -- `if args.host: config.host = args.host`
  abbrev pub with_host : Option String → WorkerConfig Float → WorkerConfig Float
  with_host none config = config
  with_host (some host) config =
      if str_eq host "" then config else record config { host = text host }

  -- `if args.port: config.port = args.port`
  abbrev pub with_port : Option ℤ → WorkerConfig Float → WorkerConfig Float
  with_port none config = config
  with_port (some (pos zero)) config = config
  with_port (some (pos (suc n))) config = record config { port = pos (suc n) }
  with_port (some (negsuc n)) config = record config { port = negsuc n }

  -- the arguments of the engine that `start` makes
  unfoldable pub engine_args : WorkerConfig Float → Dict (Json Float)
  engine_args config =
      ("model", config.model_name_or_path)
      ∷ ("tensor_parallel_size", config.tensor_parallel_size)
      ∷ ("pipeline_parallel_size", config.pipeline_parallel_size)
      ∷ ("gpu_memory_utilization", config.gpu_memory_utilization)
      ∷ ("max_model_len", config.max_model_len)
      ∷ ("max_num_seqs", config.max_num_seqs)
      ∷ ("quantization", config.quantization)
      ∷ ("kv_cache_dtype", config.kv_cache_dtype)
      ∷ ("enable_chunked_prefill", config.chunked_prefill_enabled)
      ∷ ("max_num_batched_tokens", config.max_prefill_tokens)
      ∷ []

-- the configuration that the process runs with
unfoldable pub configure :
    (fl : Floats)
    → (ℕ → Option ℕ)
    → Json fl.Float
    → Option String
    → Option String
    → Option ℤ
    → Result (WorkerConfig fl.Float)
configure fl decimal document model host port = do
  config ← from_yaml fl decimal document model
  ok (with_port port (with_host host config))
