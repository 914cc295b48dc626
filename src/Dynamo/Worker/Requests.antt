-- ===== src/Dynamo/Worker/Requests.antt =====
-- Requests of one worker of dynamo-orchestration/src/dynamo_worker.py on one event loop.
use mathlib.Core.Path.{subst}
use asr_serve.Base.{
  ℕ, ◌+◌, ◌≤◌, ◌≡◌, refl, sym, arith, String, List, [], ◌∷◌, Option, none, some, get_elem?, set,
  if◌then◌else◌, ltb, Option-cases, inl, inr,
}
use asr_serve.Base.Floats.{Floats}
use asr_serve.Base.Result.{Error}
use asr_serve.Base.Sums.{total, total-set, part-le-total}
use asr_serve.Dynamo.Registry.{RequestPhase, prefill, decode}
use asr_serve.Dynamo.Router.{AsrRequest}
use asr_serve.Dynamo.Nixl.{
  KvCacheDescriptor, NixlTransferManager, TransferStatus, transfer_entered, transfer_answered,
  waiting, transferring, transferred, failed,
}
use asr_serve.Dynamo.Worker.{
  Kind, base_worker, prefill_worker, decode_worker, DynamoWorker, RequestStatus, fresh, registering,
  moving, prefilled, decoded, refused, crashed, process_prefill, prefill_registered, process_decode,
  decode_moved, dispatched, handle_request,
}

pub record Request (Float : Type 0) : Type 0 where
  pub request : AsrRequest Float
  pub status : RequestStatus

pub record System (Float : Type 0) : Type 0 where
  pub worker : DynamoWorker
  pub requests : List (Request Float)

-- What a resumption brings: a fresh handle, a pointer, the agent's exception or its answer.
pub record Input : Type 0 where
  pub handle : String
  pub kv_ptr : ℕ
  pub problem : Option Error
  pub error : Error
  pub answer : Option ℕ

module _ (fl : Floats) (decimal : ℕ → Option ℕ) where
  open fl use {Float}

  -- the transfer's next move: into the semaphore, if it has a free place, or to its end
  abbrev pub transfer_moved :
      Input
      → KvCacheDescriptor
      → TransferStatus
      → NixlTransferManager
      → TransferStatus × NixlTransferManager
  transfer_moved x d waiting m =
      if ltb 0 m.semaphore then transfer_entered d none m else (waiting, m)
  transfer_moved x d transferring m = transfer_answered d x.answer m
  transfer_moved x d (transferred p) m = (transferred p, m)
  transfer_moved x d failed m = (failed, m)

  -- one request runs up to its next `await`, or to its end
  unfoldable pub advance :
      Input → RequestStatus → AsrRequest Float → DynamoWorker → RequestStatus × DynamoWorker
  advance x fresh r w = handle_request fl decimal x.handle x.kv_ptr r w
  advance x (registering d) r w = prefill_registered fl decimal x.problem d w
  advance x (moving d t) r w = decode_moved fl decimal x.error r d (transfer_moved x d t w.nixl) w
  advance x (prefilled d) r w = (prefilled d, w)
  advance x (decoded text) r w = (decoded text, w)
  advance x (refused e) r w = (refused e, w)
  advance x (crashed e) r w = (crashed e, w)

  unfoldable pub step : ℕ × Input → System Float → System Float
  step (i, x) s = elim (get_elem? s.requests i) [
    | none ↦ s
    | some t ↦
        let (status, w) = advance x t.status t.request s.worker in
        record { worker = w; requests = set s.requests i (record t { status = status }) }
  ]

  unfoldable pub run : List (ℕ × Input) → System Float → System Float
  run [] s = s
  run (e ∷ events) s = run events (step e s)

  -- 1 for a request that was counted in and not out: it runs, or it crashed
  abbrev pub counted : RequestStatus → ℕ
  counted fresh = 0
  counted (registering d) = 1
  counted (moving d t) = 1
  counted (prefilled d) = 0
  counted (decoded text) = 0
  counted (refused e) = 0
  counted (crashed e) = 1

  abbrev pub IsCounted : System Float → Type 0
  IsCounted s = s.worker.request_count ≡ total (λ t. counted t.status) s.requests

  process_prefill-counted :
      (handle : String) (kv_ptr : ℕ) (r : AsrRequest Float) (w : DynamoWorker)
      → let (status, w') = process_prefill fl decimal handle kv_ptr r w in
        w'.request_count ≡ w.request_count + counted status
  unfolding process_prefill
  process_prefill-counted handle kv_ptr r w = ground arith

  process_decode-counted :
      (r : AsrRequest Float) (w : DynamoWorker)
      → let (status, w') = process_decode fl decimal r w in
        w'.request_count ≡ w.request_count + counted status
  unfolding process_decode
  process_decode-counted r w = ground arith

  dispatched-counted :
      (phase : RequestPhase) (kind : Kind) (handle : String) (kv_ptr : ℕ) (r : AsrRequest Float)
      (w : DynamoWorker)
      → let (status, w') = dispatched fl decimal phase kind handle kv_ptr r w in
        w'.request_count ≡ w.request_count + counted status
  dispatched-counted prefill prefill_worker handle kv_ptr r w =
      process_prefill-counted handle kv_ptr r w
  dispatched-counted prefill base_worker handle kv_ptr r w = omega arith
  dispatched-counted prefill decode_worker handle kv_ptr r w = omega arith
  dispatched-counted decode decode_worker handle kv_ptr r w = process_decode-counted r w
  dispatched-counted decode base_worker handle kv_ptr r w = omega arith
  dispatched-counted decode prefill_worker handle kv_ptr r w = omega arith

  decode_moved-counted :
      (e : Error) (r : AsrRequest Float) (d : KvCacheDescriptor) (t : TransferStatus)
      (m : NixlTransferManager) (w : DynamoWorker)
      → 1 ≤ w.request_count
      → let (status, w') = decode_moved fl decimal e r d (t, m) w in
        w'.request_count + 1 ≡ w.request_count + counted status
  unfolding decode_moved
  decode_moved-counted e r d waiting m w h = refl
  decode_moved-counted e r d transferring m w h = refl
  decode_moved-counted e r d (transferred p) m w h = omega arith
  decode_moved-counted e r d failed m w h = refl

  advance-counted :
      (x : Input) (status : RequestStatus) (r : AsrRequest Float) (w : DynamoWorker)
      → counted status ≤ w.request_count
      → let (status', w') = advance x status r w in
        w'.request_count + counted status ≡ w.request_count + counted status'
  unfolding advance handle_request prefill_registered
  advance-counted x fresh r w h =
      let e = dispatched-counted r.phase w.kind x.handle x.kv_ptr r w in omega (arith, e)
  advance-counted x (registering d) r w h = ground arith
  advance-counted x (moving d t) r w h = decode_moved-counted x.error r d _ _ w h
  advance-counted x (prefilled d) r w h = refl
  advance-counted x (decoded text) r w h = refl
  advance-counted x (refused e) r w h = refl
  advance-counted x (crashed e) r w h = refl

  step-IsCounted : (e : ℕ × Input) (s : System Float) → IsCounted s → IsCounted (step e s)
  unfolding step
  step-IsCounted (i, x) s h = elim (Option-cases (get_elem? s.requests i)) [
    | inl e ↦ let same : step (i, x) s ≡ s = rw (step, e) refl in subst IsCounted (sym same) h
    | inr (t, e) ↦
        let part = part-le-total (λ u. counted u.status) s.requests i t e in
        let moved = advance-counted x t.status t.request s.worker (omega (arith, h, part)) in
        let t' : Request Float = record t { status = (advance x t.status t.request s.worker).0 } in
        let next : step (i, x) s ≡ record {
          worker = (advance x t.status t.request s.worker).1;
          requests = set s.requests i t';
        } =
          rw (step, e) refl in
        subst IsCounted (sym next)
          (omega (arith, h, moved, total-set (λ u. counted u.status) s.requests i t t' e))
  ]

  -- From a worker whose count is that of its requests that run or crashed, however its requests are
  -- interleaved and whatever the transfers answer, the count stays so: it is what runs and, since a
  -- request that raises after it was counted is never counted out, every one that crashed.
  pub run-IsCounted :
      (events : List (ℕ × Input)) (s : System Float) → IsCounted s → IsCounted (run events s)
  unfolding run
  run-IsCounted [] s h = h
  run-IsCounted (e ∷ events) s h = run-IsCounted events (step e s) (step-IsCounted e s h)
