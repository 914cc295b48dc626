-- ===== src/Inference/Server.antt =====
-- `InferenceWorker` of inference/src/worker.py after `start`, and the endpoints of `build_app`. A
-- coroutine runs without a break from one `await` to the next, so a request is two functions: up to the
-- engine's answer, and from it to the end; each takes the clock readings that it makes. `started` tells
-- whether there is an engine, and `Output` is a RequestOutput by the texts of its `outputs`. `shown` is
-- `str` of the hints, `decimal_text` of a number, and `rounded` is `round(·, 2)`.
pub mod Counters
pub mod Latencies
pub mod Requests
use Prim.Native.String.{◌++◌ as text_append}
use asr_serve.Base.{
  ℕ, ◌+◌, ◌⊎◌, inl, inr, Bool, true, false, String, List, [], ◌∷◌, Option, length, if◌then◌else◌,
  ◌==◌,
}
use asr_serve.Base.Dict.{Dict}
use asr_serve.Base.Floats.{Floats}
use asr_serve.Base.Int.{pos}
use asr_serve.Base.Result.{Result, ok, raise, index_error, ◌>>=◌}
use asr_serve.Base.Value.{Value}
use asr_serve.Inference.{hints_of}

pub record InferenceWorker (Float : Type 0) : Type 0 where
  pub request_count : ℕ
  pub total_latency_ms : Float

abbrev pub Output : Type 0
Output = List String

-- `output.outputs[0].text`
abbrev pub first_text : Output → Result String
first_text [] = raise index_error
first_text (t ∷ texts) = ok t

-- the text of the last of what the engine yields, which is empty if it yields nothing
unfoldable pub transcript_of : List Output → Result String
transcript_of [] = ok ""
transcript_of (output ∷ []) = first_text output
transcript_of (output ∷ next ∷ outputs) = transcript_of (next ∷ outputs)

-- `HTTPException`, or the text of the response
pub data Reply : Type 0 where
  http_error : ℕ → String → Reply
  transcript : String → Reply

-- A request whose audio is with the engine: the locals of `transcribe`.
pub record Pending (Float : Type 0) : Type 0 where
  pub audio : List ℕ
  pub hints : Dict (Value Float)
  pub t0 : Float

module _ (fl : Floats) where
  open fl use {Float, lit, of_int, add, sub, mul, div}

  unfoldable pub new_worker : InferenceWorker Float
  new_worker = record { request_count = 0; total_latency_ms = lit 0 1 }

  -- `avg_latency_ms`
  pub avg_latency_ms : InferenceWorker Float → Float
  avg_latency_ms worker =
      if worker.request_count == 0
      then lit 0 1
      else div worker.total_latency_ms (of_int (pos worker.request_count))

  -- `elapsed_ms`
  abbrev pub elapsed_ms : Float → Float → Float
  elapsed_ms t0 now = mul (sub now t0) (lit 1000 0)

  -- what a transcription adds to the counters
  abbrev pub counted : Float → InferenceWorker Float → InferenceWorker Float
  counted elapsed worker = record {
    request_count = worker.request_count + 1;
    total_latency_ms = add worker.total_latency_ms elapsed;
  }

  -- what `/health` and `/metrics` report: the requests and the average
  pub metrics : (Float → Float) → InferenceWorker Float → ℕ × Float
  metrics rounded worker = (worker.request_count, rounded (avg_latency_ms worker))

  module _ (decimal : ℕ → Option ℕ) where
    -- the endpoint, given what reading the headers gave, up to the engine's answer
    abbrev pub begin_transcribe :
        List ℕ → Result (Dict (Value Float)) → Float → Result Reply ⊎ Pending Float
    begin_transcribe audio (raise e) now = inl (raise e)
    begin_transcribe audio (ok hints) now = inr (record { audio = audio; hints = hints; t0 = now })

    -- `transcribe_endpoint` up to the engine's answer, for a body and the headers: a reply, or what
    -- waits for the answer
    unfoldable pub endpoint_start :
        List ℕ → Dict (Value Float) → Float → Result Reply ⊎ Pending Float
    endpoint_start [] headers now = inl (ok (http_error 400 "Empty request body"))
    endpoint_start (b ∷ body) headers now =
        begin_transcribe (b ∷ body) (hints_of decimal headers) now

  module _ (started : Bool) (decimal_text : ℕ → String) (shown : Dict (Value Float) → String) where
    -- the text of a transcription, from what the engine yields
    abbrev pub generated : Pending Float → Result (List Output) → Result String
    generated request outputs =
        if started
        then outputs >>= transcript_of
        else ok (
            text_append "[stub transcript len=" (
              text_append (decimal_text (length request.audio))
                (text_append "B hints=" (text_append (shown request.hints) "]"))))

    -- the end of `transcribe` and of the endpoint
    abbrev pub finish :
        Pending Float
        → Float
        → InferenceWorker Float
        → Result String
        → Result Reply × InferenceWorker Float
    finish request now worker (raise e) = (raise e, worker)
    finish request now worker (ok text) =
        (ok (transcript text), counted (elapsed_ms request.t0 now) worker)

    -- from the engine's answer on
    unfoldable pub endpoint_answered :
        Result (List Output)
        → Float
        → Pending Float
        → InferenceWorker Float
        → Result Reply × InferenceWorker Float
    unfolding transcript_of
    endpoint_answered outputs now request worker =
        finish request now worker (generated request outputs)
