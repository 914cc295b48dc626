-- ===== src/Inference.antt =====
-- The hints and the latency counters of inference/src/worker.py: what `transcribe_endpoint` reads from
-- the headers of a request, and what `transcribe` counts. Header values are texts.
pub mod Config
pub mod Evaluation
pub mod Hints
pub mod Server
use asr_serve.Base.{ℕ, zero, suc, ◌+◌, String, List, [], ◌∷◌, Option, none, some}
use asr_serve.Base.Dict.{Dict, insert, lookup}
use asr_serve.Base.Floats.{Floats}
use asr_serve.Base.Int.{pos}
use asr_serve.Base.Result.{Result, ok, raise, value_error, ◌>>=◌}
use asr_serve.Base.Text.{Text, parse_int}
use asr_serve.Base.Value.{Value, null, bool, int, float, str}

module _ {Float : Type 0} where
  abbrev pub text_of : Option (Value Float) → Option Text
  text_of none = none
  text_of (some null) = none
  text_of (some (bool b)) = none
  text_of (some (int n)) = none
  text_of (some (float x)) = none
  text_of (some (str t)) = some t

  -- `request.headers.get(name)`
  abbrev pub header : String → Dict (Value Float) → Option Text
  header name headers = text_of (lookup name headers)

  module _ (decimal : ℕ → Option ℕ) where
    -- `if text is not None: hints[key] = int(text)`
    abbrev pub with_hint : String → Option Text → Dict (Value Float) → Result (Dict (Value Float))
    with_hint key none hints = ok hints
    with_hint key (some text) hints = elim (parse_int decimal text) [
      | none ↦ raise value_error
      | some n ↦ ok (insert key (int n) hints)
    ]

    -- the hints that `transcribe_endpoint` takes from the headers
    unfoldable pub hints_of : Dict (Value Float) → Result (Dict (Value Float))
    hints_of headers = do
      hints ← with_hint "priority" (header "X-Agent-Priority" headers) []
      with_hint "kv_ttl_ms" (header "X-Agent-KV-TTL-Ms" headers) hints
