-- ===== src/Inference/Server/Counters.antt =====
-- The counters of `InferenceWorker` of inference/src/worker.py under every interleaving of requests.
use asr_serve.Base.{ℕ, ◌+◌, ◌≡◌, Bool, [], String, Option, length, ◌⊎◌, inl, inr}
use asr_serve.Base.Dict.{Dict}
use asr_serve.Base.Floats.{Floats}
use asr_serve.Base.Result.{Result}
use asr_serve.Base.Value.{Value}
use asr_serve.Inference.Server.{Reply, Pending}
use asr_serve.Inference.Server.Latencies.{latency, latencies, total}
use asr_serve.Inference.Server.Requests.{Server}

module _ (fl : Floats) where
  open fl use {Float, lit}

  -- The counters are those of the transcripts that were given.
  pub record IsCounted (s : Server Float) : Type 0 where
    pub count : s.worker.request_count ≡ length (latencies s.replies)
    pub sum : s.worker.total_latency_ms ≡ total fl (lit 0 1) (latencies s.replies)

  module _ (started : Bool) (decimal_text : ℕ → String) (shown : Dict (Value Float) → String)
      (decimal : ℕ → Option ℕ) where
    -- A reply that is given at once is no transcript.
    abbrev Refuses : Result Reply ⊎ Pending Float → Type 0
    Refuses (inl reply) = latency (reply, lit 0 1) ≡ []
    Refuses (inr request) = Unit

    -- how many requests are pending or replied to
    abbrev taken : Server Float → ℕ
    taken s = length s.pending + length s.replies
