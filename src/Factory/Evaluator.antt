-- ===== src/Factory/Evaluator.antt =====
-- `TelemetryFetcher`, `ModelEvaluator` and their data, of agentic-factory/src/evaluator.py. What the
-- inference service answers, and what the clock reads, enter as a `Call` for each transcription.
pub mod Counts
use asr_serve.Base.{
  ℕ, zero, suc, ◌+◌, max, min, Bool, true, false, String, List, [], ◌∷◌, ◌++◌, Option, none, some,
  map, length, if◌then◌else◌,
}
use asr_serve.Base.Floats.{Floats}
use asr_serve.Base.Int.{pos}
use asr_serve.Base.Loops.{◌>>=◌}
use asr_serve.Base.Text.{Text, codes, str_int}
use asr_serve.Factory.Score.{wer_components, cer_components}

pub record AsrModelCandidate : Type 0 where
  pub model_id : String
  pub model_path : String
  pub version : String
  pub is_active : Bool
  pub tags : List String

pub record EvalSample (Float : Type 0) : Type 0 where
  pub sample_id : Text
  pub audio_bytes : List ℕ
  pub reference_text : Text
  pub duration_s : Float

pub record ModelMetrics (Float : Type 0) : Type 0 where
  pub model_id : String
  pub wer : Float
  pub cer : Float
  pub rtf : Float
  pub ttft_ms : Float
  pub eval_time : Float
  pub n_samples : ℕ

-- what the service makes of a request: no answer, or a body with or without a text
pub data Reply : Type 0 where
  failed : Reply
  body : Option Text → Reply

pub record Call (Float : Type 0) : Type 0 where
  pub reply : Reply
  pub t0 : Float
  pub t1 : Float

-- the `_session` of a `ModelEvaluator`: none, an open one, or a closed one, which stays
pub data Session : Type 0 where
  absent opened closed : Session

-- `start`, given whether aiohttp can be imported
unfoldable pub start_session : Bool → Session → Session
start_session true session = opened
start_session false session = session

-- `stop`
unfoldable pub stop_session : Session → Session
stop_session absent = absent
stop_session opened = closed
stop_session closed = closed

-- `self._session is not None`
abbrev pub is_connected : Session → Bool
is_connected absent = false
is_connected opened = true
is_connected closed = true

-- `bytes(n)`
abbrev pub zeros : ℕ → List ℕ
zeros zero = []
zeros (suc n) = 0 ∷ zeros n

module _ (fl : Floats) where
  open fl use {Float, lit, lt, add, sub, mul, div, of_int, ratio}

  -- the stub's samples, from number `i` on
  unfoldable pub samples_from : ℕ → ℕ → List (EvalSample Float)
  samples_from zero i = []
  samples_from (suc n) i =
      record {
        sample_id = codes "sample-" ++ str_int (pos i);
        audio_bytes = zeros 640;
        reference_text = codes "hello world";
        duration_s = lit 1 2;
      }
      ∷ samples_from n (suc i)

  unfoldable pub fetch_wer_samples : ℕ → List (EvalSample Float)
  unfolding samples_from
  fetch_wer_samples n = samples_from (min n 5) 0

  abbrev pub transcript_of : Bool → Reply → Text
  transcript_of false reply = codes "hello world"
  transcript_of true failed = []
  transcript_of true (body none) = []
  transcript_of true (body (some text)) = text

  -- `connected` is whether there is an HTTP session, as `is_connected` tells.
  pub transcribe : Bool → Call Float → Text × Float
  transcribe connected call =
      (transcript_of connected call.reply, mul (sub call.t1 call.t0) (of_int (pos 1000)))

  -- `max(x, y)`
  abbrev pub larger : Float → Float → Float
  larger x y = if lt x y then y else x

  pub record Totals : Type 0 where
    pub wer_errors : ℕ
    pub words : ℕ
    pub cer_errors : ℕ
    pub chars : ℕ
    pub rtf : Float
    pub ttft_ms : Float

  -- the running sums after a sample with this latency and these components
  abbrev pub added : EvalSample Float → Float → ℕ × ℕ → ℕ × ℕ → Totals → Totals
  added sample latency_ms (wer_e, n_w) (cer_e, n_c) t = record {
    wer_errors = t.wer_errors + wer_e;
    words = t.words + n_w;
    cer_errors = t.cer_errors + cer_e;
    chars = t.chars + n_c;
    rtf = add t.rtf (div (div latency_ms (lit 1000 0)) (larger sample.duration_s (lit 1 6)));
    ttft_ms = add t.ttft_ms latency_ms;
  }

  module _ (lower : Text → Text) (connected : Bool) where
    -- the body of the loop over the samples
    pub add_sample : EvalSample Float → Call Float → Totals → Option Totals
    add_sample sample call t = do
      let heard = transcribe connected call
      (wer_e, n_w) ← wer_components lower sample.reference_text heard.0
      (cer_e, n_c) ← cer_components lower sample.reference_text heard.0
      some (added sample heard.1 (wer_e, n_w) (cer_e, n_c) t)

    -- the loop, `call i` being the transcription of sample `i`
    pub add_samples : (ℕ → Call Float) → ℕ → List (EvalSample Float) → Totals → Option Totals
    add_samples call i [] t = some t
    add_samples call i (sample ∷ samples) t = elim (add_sample sample (call i) t) [
      | none ↦ none
      | some t' ↦ add_samples call (suc i) samples t'
    ]

    abbrev pub no_totals : Totals
    no_totals = record {
      wer_errors = 0;
      words = 0;
      cer_errors = 0;
      chars = 0;
      rtf = lit 0 0;
      ttft_ms = lit 0 0;
    }

    abbrev pub default_metrics : String → Float → ModelMetrics Float
    default_metrics model now = record {
      model_id = model;
      wer = lit 1 0;
      cer = lit 1 0;
      rtf = lit 1 0;
      ttft_ms = lit 9999 0;
      eval_time = now;
      n_samples = 0;
    }

    abbrev pub metrics_of : String → Float → ℕ → Totals → ModelMetrics Float
    metrics_of model now n t = record {
      model_id = model;
      wer = ratio (pos t.wer_errors) (pos (max t.words 1));
      cer = ratio (pos t.cer_errors) (pos (max t.chars 1));
      rtf = div t.rtf (of_int (pos n));
      ttft_ms = div t.ttft_ms (of_int (pos n));
      eval_time = now;
      n_samples = n;
    }

    -- `none` is an exception.
    pub evaluate_model :
        Float
        → (ℕ → Call Float)
        → AsrModelCandidate
        → List (EvalSample Float)
        → Option (ModelMetrics Float)
    evaluate_model now call candidate [] = some (default_metrics candidate.model_id now)
    evaluate_model now call candidate (s ∷ samples) = do
      totals ← add_samples call 0 (s ∷ samples) no_totals
      some (metrics_of candidate.model_id now (length (s ∷ samples)) totals)
