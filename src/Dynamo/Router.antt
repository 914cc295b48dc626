-- ===== src/Dynamo/Router.antt =====
-- `AsrRequest`, `SmartRouter` and `RouterStats` of dynamo-orchestration/src/router.py. A coroutine
-- runs without a break from one `await` to the next, so `route` is three functions: up to the prefill
-- call, from its answer up to the decode call, and from its answer to the end. Each takes the clock
-- readings that it makes. The entry of `_in_flight` refers to the task that owns the request.
pub mod Percentile
pub mod Schedule
pub mod Selection
use Prim.Native.String.{◌++◌ as text_append}
use asr_serve.Base.{
  ℕ, ◌+◌, ◌-◌, length, get_elem?, Bool, true, false, ◌&&◌, String, List, [], ◌∷◌, ◌++◌, Option,
  none, some,
}
use asr_serve.Base.Dict.{Dict, get_default, insert, remove}
use asr_serve.Base.Floats.{Floats}
use asr_serve.Base.Order.{sort_by}
use asr_serve.Base.Int.{ℤ, pos, negsuc, ltb_ℤ}
use asr_serve.Base.Result.{Result, ok, raise, Error, runtime_error, value_error, index_error, ◌>>=◌}
use asr_serve.Base.Value.{Value, int, int_of}
use asr_serve.Dynamo.Registry.{
  RequestPhase, prefill, decode, WorkerEndpoint, WorkerRegistry, least_loaded,
}

pub record AsrRequest (Float : Type 0) : Type 0 where
  pub request_id : String
  pub audio_bytes : List ℕ
  pub phase : RequestPhase
  pub kv_handle : Option String
  pub agent_hints : Dict (Value Float)
  pub enqueue_time : Float

pub record RouterStats (Float : Type 0) : Type 0 where
  pub requests_completed : ℕ
  pub prefill_latencies_ms : List Float
  pub decode_latencies_ms : List Float

pub record SmartRouter (Float : Type 0) : Type 0 where
  pub registry : WorkerRegistry Float
  pub in_flight : Dict ℕ
  pub stats : RouterStats Float

-- where a call of `route` stands
pub data Status (Float : Type 0) : Type 0 where
  fresh : Status Float
  prefilling : WorkerEndpoint Float → Float → Status Float
  decoding : WorkerEndpoint Float → Float → Status Float
  returned : String → Status Float
  raised : Error → Status Float

-- `_call_prefill` and `_call_decode`
module _ {Float : Type 0} where
  unfoldable pub call_prefill : WorkerEndpoint Float → AsrRequest Float → String
  call_prefill worker request =
      text_append "kv://" (text_append worker.worker_id (text_append "/" request.request_id))

  unfoldable pub call_decode : WorkerEndpoint Float → AsrRequest Float → String
  call_decode worker request = ""

  -- the `finally` of `route`
  pub leave : AsrRequest Float → SmartRouter Float → SmartRouter Float
  leave request s = record s { in_flight = remove request.request_id s.in_flight }

module _ (fl : Floats) where
  open fl use {Float, lit, lt, sub, mul, of_int, to_int}

  abbrev pub milliseconds : Float → Float
  milliseconds seconds = mul seconds (lit 1000 0)

  pub record_prefill_latency : Float → RouterStats Float → RouterStats Float
  record_prefill_latency seconds stats = record stats {
    prefill_latencies_ms = stats.prefill_latencies_ms ++ milliseconds seconds ∷ [];
  }

  pub record_decode_latency : Float → RouterStats Float → RouterStats Float
  record_decode_latency seconds stats = record stats {
    decode_latencies_ms = stats.decode_latencies_ms ++ milliseconds seconds ∷ [];
  }

  -- from the decode worker's answer to the end
  pub route_decoded :
      Float
      → WorkerEndpoint Float
      → Float
      → AsrRequest Float
      → SmartRouter Float
      → Status Float × SmartRouter Float
  route_decoded answered worker t1 request s =
      let transcript = call_decode worker request in
      let timed : RouterStats Float = record_decode_latency (sub answered t1) s.stats in
      let stats : RouterStats Float = record timed {
        requests_completed = timed.requests_completed + 1;
      } in
      (returned transcript, leave request (record s { stats = stats }))

  module _ (decimal : ℕ → Option ℕ) where
    -- the selected worker, and whether a warning was logged
    pub select_worker :
        RequestPhase
        → AsrRequest Float
        → WorkerRegistry Float
        → Result (Option (WorkerEndpoint Float) × Bool)
    select_worker role request workers = do
      priority ← int_of fl decimal (get_default "priority" (int (pos 5)) request.agent_hints)
      let warns : WorkerEndpoint Float → Bool = λ w. ltb_ℤ (pos 5) priority && lt (lit 8 1) w.load
      ok (elim (least_loaded fl role workers) [
        | none ↦ (none, false)
        | some candidate ↦ (some candidate, warns candidate)
      ])

    -- `route` of the request of task `i`, up to the `await` of the prefill call
    pub route_start :
        ℕ → Float → AsrRequest Float → SmartRouter Float → Status Float × SmartRouter Float
    route_start i now request s =
        let entered : SmartRouter Float = record s {
          in_flight = insert request.request_id i s.in_flight;
        } in
        elim (select_worker prefill request entered.registry) [
          | raise e ↦ (raised e, leave request entered)
          | ok (none, _) ↦ (raised runtime_error, leave request entered)
          | ok (some worker, _) ↦ (prefilling worker now, entered)
        ]

    -- from the prefill worker's answer up to the `await` of the decode call
    pub route_prefilled :
        Float
        → Float
        → WorkerEndpoint Float
        → Float
        → AsrRequest Float
        → SmartRouter Float
        → AsrRequest Float × Status Float × SmartRouter Float
    route_prefilled answered now worker t0 request s =
        let kv_handle = call_prefill worker request in
        let counted : SmartRouter Float = record s {
          stats = record_prefill_latency (sub answered t0) s.stats;
        } in
        let request' : AsrRequest Float = record request {
          phase = decode;
          kv_handle = some kv_handle;
        } in
        elim (select_worker decode request' counted.registry) [
          | raise e ↦ (request', raised e, leave request' counted)
          | ok (none, _) ↦ (request', raised runtime_error, leave request' counted)
          | ok (some decoder, _) ↦ (request', decoding decoder now, counted)
        ]

  -- `max(0, k - 1)`
  abbrev pub before : ℤ → ℕ
  before (pos k) = k - 1
  before (negsuc k) = 0

  abbrev pub at_place : List Float → ℕ → Result Float
  at_place values i = elim (get_elem? values i) [ none ↦ raise index_error | some v ↦ ok v ]

  -- `_p99`; `int` raises at a float that is no number
  unfoldable pub p99 : List Float → Result Float
  p99 [] = ok (lit 0 1)
  p99 (v ∷ values) = elim (to_int (mul (of_int (pos (length (v ∷ values)))) (lit 99 2))) [
    | none ↦ raise value_error
    | some k ↦ at_place (sort_by lt (v ∷ values)) (before k)
  ]

  unfoldable pub p99_prefill_ms : RouterStats Float → Result Float
  p99_prefill_ms stats = p99 stats.prefill_latencies_ms

  unfoldable pub p99_decode_ms : RouterStats Float → Result Float
  p99_decode_ms stats = p99 stats.decode_latencies_ms
