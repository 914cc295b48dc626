-- ===== src/Inference/Evaluation.antt =====
-- Requests from `ModelEvaluator.transcribe` of agentic-factory/src/evaluator.py to the endpoint of
-- inference/src/worker.py.
use asr_serve.Base.{ℕ, ◌≡◌, refl, List, [], ◌∷◌, Option, inr}
use asr_serve.Base.Dict.{Dict}
use asr_serve.Base.Floats.{Floats}
use asr_serve.Base.Text.{Text, codes}
use asr_serve.Base.Value.{Value, str}
use asr_serve.Inference.{hints_of}
use asr_serve.Inference.Server.{endpoint_start}

-- the headers of the request for a model
abbrev pub evaluator_headers : {Float : Type 0} → Text → Dict (Value Float)
evaluator_headers model_id =
    ("Content-Type", str (codes "application/octet-stream")) ∷ ("X-Model-ID", str model_id) ∷ []

-- What the worker takes from such a request is the audio alone: the model is not in it.
endpoint_start-evaluator_headers :
    (fl : Floats) (decimal : ℕ → Option ℕ) (b : ℕ) (body : List ℕ) (model_id : Text)
    (now : fl.Float)
    → endpoint_start fl decimal (b ∷ body) (evaluator_headers model_id) now
      ≡ inr (record { audio = b ∷ body; hints = []; t0 = now })
unfolding endpoint_start hints_of
endpoint_start-evaluator_headers fl decimal b body model_id now = refl
