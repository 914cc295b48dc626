-- ===== src/Inference/Server/Latencies.antt =====
-- The replies of Inference/Server/Requests, and the latencies of the transcripts among them.
use mathlib.Core.List.{append-nil, append_assoc}
use asr_serve.Base.{
  ℕ, zero, suc, ◌+◌, ◌≡◌, refl, sym, ap, ◌∙◌, arith, false, List, [], ◌∷◌, ◌++◌, some, length,
  get_elem?, ◌==◌,
}
use asr_serve.Base.Floats.{Floats}
use asr_serve.Base.Int.{pos}
use asr_serve.Base.Result.{Result, ok, raise}
use asr_serve.Inference.Server.{InferenceWorker, Reply, http_error, transcript, avg_latency_ms}
use asr_serve.Inference.Server.Requests.{Event, arrives, answers, remove_at}

pub length-remove_at :
    {A : Type 0} (i : ℕ) (xs : List A) (x : A)
    → get_elem? xs i ≡ some x
    → length (remove_at i xs) + 1 ≡ length xs
length-remove_at i [] x e = cc
length-remove_at zero (y ∷ xs) x e = omega arith
length-remove_at (suc i) (y ∷ xs) x e = omega (arith, length-remove_at i xs x e)

module _ {Float : Type 0} where
  -- the time of a transcript
  abbrev pub latency : Result Reply × Float → List Float
  latency (raise e, t) = []
  latency (ok (http_error code detail), t) = []
  latency (ok (transcript text), t) = t ∷ []

  -- the times of the transcripts among some replies
  abbrev pub latencies : List (Result Reply × Float) → List Float
  latencies [] = []
  latencies (reply ∷ replies) = latency reply ++ latencies replies

  pub latencies-append :
      (xs : List (Result Reply × Float)) (y : Result Reply × Float)
      → latencies (xs ++ y ∷ []) ≡ latencies xs ++ latency y
  latencies-append [] y = append-nil (latency y)
  latencies-append (x ∷ xs) y =
      ap (λ l. latency x ++ l) (latencies-append xs y)
      ∙ sym (append_assoc (latency x) (latencies xs) (latency y))

  -- how many requests came
  abbrev pub arrivals : List (Event Float) → ℕ
  arrivals [] = 0
  arrivals (arrives body headers now ∷ events) = arrivals events + 1
  arrivals (answers i outputs now ∷ events) = arrivals events

module _ (fl : Floats) where
  open fl use {Float, lit, of_int, add, div}

  -- a total with some latencies added, in order
  abbrev pub total : Float → List Float → Float
  total x [] = x
  total x (l ∷ ls) = total (add x l) ls

  pub total-append : (x : Float) (xs ys : List Float) → total x (xs ++ ys) ≡ total (total x xs) ys
  total-append x [] ys = refl
  total-append x (l ∷ xs) ys = total-append (add x l) xs ys

  -- the mean of some latencies as the machine computes it
  abbrev pub average : List Float → Float
  average [] = lit 0 1
  average (l ∷ ls) = div (total (lit 0 1) (l ∷ ls)) (of_int (pos (length (l ∷ ls))))

  pub avg_latency_ms-average :
      (worker : InferenceWorker Float) (ls : List Float)
      → worker.request_count ≡ length ls
      → worker.total_latency_ms ≡ total (lit 0 1) ls
      → avg_latency_ms fl worker ≡ average ls
  unfolding avg_latency_ms
  avg_latency_ms-average worker [] e t = rw (avg_latency_ms, e) refl
  avg_latency_ms-average worker (l ∷ ls) e t =
      let some_latency : (suc (length ls) == 0) ≡ false = ground arith in
      rw (avg_latency_ms, e, t, some_latency) refl
