-- ===== src/Dynamo/Router/Selection.antt =====
-- `_select_worker` and one call of `route` that runs alone, of dynamo-orchestration/src/router.py.
use asr_serve.Base.{ℕ, ◌+◌, ◌≡◌, Option, none, some, arith}
use asr_serve.Base.Dict.{lookup, get_default, remove-insert_absent}
use asr_serve.Base.Floats.{Floats}
use asr_serve.Base.Int.{ℤ, pos}
use asr_serve.Base.Result.{Result, ok, raise, runtime_error}
use asr_serve.Base.Value.{int, int_of}
use asr_serve.Dynamo.Registry.{prefill, decode, WorkerEndpoint, least_loaded}
use asr_serve.Dynamo.Router.{
  AsrRequest, SmartRouter, Status, fresh, prefilling, decoding, returned, raised, leave,
  select_worker, route_start, route_prefilled, route_decoded, call_prefill, call_decode,
  record_prefill_latency, record_decode_latency,
}

module _ (fl : Floats) (decimal : ℕ → Option ℕ) where
  open fl use {Float, lit, lt, sub}

  -- the conversion of the request's priority, 5 by default
  abbrev pub priority_of : AsrRequest Float → Result ℤ
  priority_of request = int_of fl decimal (get_default "priority" (int (pos 5)) request.agent_hints)

  -- a call of `route` that no other task interrupts, with its clock readings
  abbrev pub finish :
      Float
      → Status Float
      → AsrRequest Float
      → SmartRouter Float
      → Status Float × AsrRequest Float × SmartRouter Float
  finish a2 fresh r s = (fresh, r, s)
  finish a2 (prefilling w t) r s = (prefilling w t, r, s)
  finish a2 (decoding w t1) r s = let (status, s') = route_decoded fl a2 w t1 r s in (status, r, s')
  finish a2 (returned x) r s = (returned x, r, s)
  finish a2 (raised e) r s = (raised e, r, s)

  abbrev pub proceed :
      Float
      → Float
      → Float
      → Status Float
      → AsrRequest Float
      → SmartRouter Float
      → Status Float × AsrRequest Float × SmartRouter Float
  proceed a1 t1 a2 fresh r s = (fresh, r, s)
  proceed a1 t1 a2 (prefilling w t0) r s =
      let (r', status, s') = route_prefilled fl decimal a1 t1 w t0 r s in finish a2 status r' s'
  proceed a1 t1 a2 (decoding w t) r s = (decoding w t, r, s)
  proceed a1 t1 a2 (returned x) r s = (returned x, r, s)
  proceed a1 t1 a2 (raised e) r s = (raised e, r, s)

  abbrev pub route_alone :
      ℕ
      → Float
      → Float
      → Float
      → Float
      → AsrRequest Float
      → SmartRouter Float
      → Status Float × AsrRequest Float × SmartRouter Float
  route_alone i t0 a1 t1 a2 r s =
      let (status, s') = route_start fl decimal i t0 r s in proceed a1 t1 a2 status r s'

  -- what the request and the statistics become
  abbrev pub handed_over : WorkerEndpoint Float → AsrRequest Float → AsrRequest Float
  handed_over w r = record r { phase = decode; kv_handle = some (call_prefill w r) }

  abbrev pub with_prefill : Float → SmartRouter Float → SmartRouter Float
  with_prefill seconds s = record s { stats = record_prefill_latency fl seconds s.stats }

  abbrev pub with_decode : Float → SmartRouter Float → SmartRouter Float
  with_decode seconds s = record s {
    stats = record (record_decode_latency fl seconds s.stats) {
      requests_completed = s.stats.requests_completed + 1;
    };
  }

  abbrev pub decoded_by :
      Option (WorkerEndpoint Float)
      → Float
      → AsrRequest Float
      → SmartRouter Float
      → Status Float × AsrRequest Float × SmartRouter Float
  decoded_by none seconds r s = (raised runtime_error, r, s)
  decoded_by (some w) seconds r s = (returned (call_decode w r), r, with_decode seconds s)

  abbrev pub routed_by :
      Option (WorkerEndpoint Float)
      → Option (WorkerEndpoint Float)
      → Float
      → Float
      → AsrRequest Float
      → SmartRouter Float
      → Status Float × AsrRequest Float × SmartRouter Float
  routed_by none d x y r s = (raised runtime_error, r, s)
  routed_by (some p) d x y r s = decoded_by d y (handed_over p r) (with_prefill x s)

  abbrev pub routed :
      Result ℤ
      → Option (WorkerEndpoint Float)
      → Option (WorkerEndpoint Float)
      → Float
      → Float
      → AsrRequest Float
      → SmartRouter Float
      → Status Float × AsrRequest Float × SmartRouter Float
  routed (raise e) p d x y r s = (raised e, r, s)
  routed (ok n) p d x y r s = routed_by p d x y r s

  -- A call of `route` that runs alone, for an id that is not in flight, leaves what is in flight as it
  -- was. If the priority does not convert, it raises that error; with no healthy prefill worker it
  -- raises and changes nothing else; with no healthy decode worker it raises after the prefill step;
  -- otherwise the request goes to the least loaded worker of each role, carries the handle of the
  -- first to the second, returns its transcript, and is counted.
  pub route_alone-routed :
      (i : ℕ) (t0 a1 t1 a2 : Float) (r : AsrRequest Float) (s : SmartRouter Float)
      → lookup r.request_id s.in_flight ≡ none
      → route_alone i t0 a1 t1 a2 r s
        ≡ routed
            (priority_of r)
            (least_loaded fl prefill s.registry)
            (least_loaded fl decode s.registry)
            (sub a1 t0)
            (sub a2 t1)
            r
            s
  unfolding select_worker route_start route_prefilled route_decoded leave record_decode_latency
      record_prefill_latency
  route_alone-routed i t0 a1 t1 a2 r s h =
      ground (arith, remove-insert_absent r.request_id i s.in_flight)
