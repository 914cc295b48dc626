-- ===== src/Inference/Server/Requests.antt =====
-- Requests to the server of inference/src/worker.py on one event loop, interleaved at the engine's
-- answers. The replies are kept in the order in which they are given, each with the milliseconds that
-- its request took by the clock, which the program itself does not keep.
use asr_serve.Base.{
  ℕ, zero, suc, Bool, List, [], ◌∷◌, ◌++◌, String, Option, none, some, ◌⊎◌, inl, inr, get_elem?,
}
use asr_serve.Base.Dict.{Dict}
use asr_serve.Base.Floats.{Floats}
use asr_serve.Base.Result.{Result}
use asr_serve.Base.Value.{Value}
use asr_serve.Inference.Server.{
  InferenceWorker, Output, Reply, Pending, new_worker, elapsed_ms, endpoint_start,
  endpoint_answered,
}

pub record Server (Float : Type 0) : Type 0 where
  pub worker : InferenceWorker Float
  pub pending : List (Pending Float)
  pub replies : List (Result Reply × Float)

pub data Event (Float : Type 0) : Type 0 where
  -- a request with a body and headers
  arrives : List ℕ → Dict (Value Float) → Float → Event Float
  -- the engine's answer for the pending request at a place
  answers : ℕ → Result (List Output) → Float → Event Float

abbrev pub remove_at : {A : Type 0} → ℕ → List A → List A
remove_at i [] = []
remove_at zero (x ∷ xs) = xs
remove_at (suc i) (x ∷ xs) = x ∷ remove_at i xs

module _ (fl : Floats) (started : Bool) (decimal_text : ℕ → String)
    (shown : Dict (Value fl.Float) → String) (decimal : ℕ → Option ℕ) where
  open fl use {Float, lit}

  abbrev pub begun : Result Reply ⊎ Pending Float → Server Float → Server Float
  begun (inl reply) s = record s { replies = s.replies ++ (reply, lit 0 1) ∷ [] }
  begun (inr request) s = record s { pending = s.pending ++ request ∷ [] }

  abbrev pub answered :
      ℕ → Result (List Output) → Float → Option (Pending Float) → Server Float → Server Float
  answered i outputs now none s = s
  answered i outputs now (some request) s =
      let (reply, worker) =
        endpoint_answered fl started decimal_text shown outputs now request s.worker in
      record {
        worker = worker;
        pending = remove_at i s.pending;
        replies = s.replies ++ (reply, elapsed_ms fl request.t0 now) ∷ [];
      }

  abbrev pub step : Event Float → Server Float → Server Float
  step (arrives body headers now) s = begun (endpoint_start fl decimal body headers now) s
  step (answers i outputs now) s = answered i outputs now (get_elem? s.pending i) s

  abbrev pub run : List (Event Float) → Server Float → Server Float
  run [] s = s
  run (e ∷ events) s = run events (step e s)

abbrev pub new_server : (fl : Floats) → Server fl.Float
new_server fl = record { worker = new_worker fl; pending = []; replies = [] }
