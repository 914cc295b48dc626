-- ===== src/Inference/Config/Documents.antt =====
-- The files that `from_yaml` of inference/src/worker.py reads, and the configurations they stand for.
use asr_serve.Base.{
  ℕ, ◌≡◌, refl, String, Option, none, some, str_eq, if◌then◌else◌, Bool-cases, inl, inr,
}
use asr_serve.Base.Floats.{Floats}
use asr_serve.Base.Json.{Json, null, int, text, object, end, field, text_is, json_int}
use asr_serve.Base.Result.{ok}
use asr_serve.Inference.Config.{WorkerConfig, default_config, from_yaml}

module _ {Float : Type 0} where
  abbrev one_section : String → Json Float → Json Float
  one_section key v = object (field key v end)

  -- the file that says all that a configuration holds
  abbrev pub document : WorkerConfig Float → Json Float
  document c = object (
      field "model" (one_section "name_or_path" c.model_name_or_path) (
        field "engine"
          (object (
            field "tensor_parallel_size" c.tensor_parallel_size (
              field "pipeline_parallel_size" c.pipeline_parallel_size (
                field "gpu_memory_utilization" c.gpu_memory_utilization (
                  field "max_model_len" c.max_model_len
                    (field "max_num_seqs" c.max_num_seqs end))))))
          (field "quantization" (one_section "method" c.quantization) (
            field "attention" (one_section "kv_cache_dtype" c.kv_cache_dtype) (
              field "prefill"
                (object (
                  field "chunked_prefill_enabled" c.chunked_prefill_enabled
                    (field "max_prefill_tokens" c.max_prefill_tokens end)))
                (field "serving" (object (field "host" c.host (field "port" (int c.port) end)))
                  end))))))

  abbrev without_nvfp4 : Json Float → Json Float
  without_nvfp4 method = if text_is method "nvfp4" then null else method

  abbrev overridden : Option String → Json Float → Json Float
  overridden none name = name
  overridden (some override) name = if str_eq override "" then name else text override

module _ (fl : Floats) (decimal : ℕ → Option ℕ) where
  open fl use {Float}

  from_yaml-full :
      (c : WorkerConfig Float) (model : Option String)
      → from_yaml fl decimal (document c) model
        ≡ ok (record c {
          model_name_or_path = overridden model c.model_name_or_path;
          quantization = without_nvfp4 c.quantization;
        })
  unfolding from_yaml json_int
  from_yaml-full c none = refl
  from_yaml-full c (some override) = elim (Bool-cases (str_eq override "")) [
    | inl e ↦ rw e refl
    | inr e ↦ rw e refl
  ]

  from_yaml-empty :
      (model : Option String)
      → let default = default_config fl in
        from_yaml fl decimal (object end) model
        ≡ ok (record default { model_name_or_path = overridden model default.model_name_or_path })
  unfolding from_yaml json_int default_config
  from_yaml-empty none = refl
  from_yaml-empty (some override) = elim (Bool-cases (str_eq override "")) [
    | inl e ↦ rw e refl
    | inr e ↦ rw e refl
  ]

  -- A file that says all that a configuration holds is read back as that configuration, but for two
  -- fields: a model that the caller names, if its name is not empty, takes the place of the file's, and
  -- the quantization "nvfp4" becomes none. An empty dictionary gives the defaults, with the same rule
  -- for the model.
  pub from_yaml-document :
      (c : WorkerConfig Float) (model : Option String)
      → (from_yaml fl decimal (document c) model
          ≡ ok (record c {
            model_name_or_path = overridden model c.model_name_or_path;
            quantization = without_nvfp4 c.quantization;
          }))
        × (let default = default_config fl in
            from_yaml fl decimal (object end) model
            ≡ ok (record default {
              model_name_or_path = overridden model default.model_name_or_path;
            }))
  from_yaml-document c model = (from_yaml-full c model, from_yaml-empty model)
