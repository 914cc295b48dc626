-- ===== src/Dynamo/Router/Schedule/Moves.antt =====
-- What one resumption of a call of `route` does to the router.
use asr_serve.Base.{
  ℕ, zero, suc, ◌+◌, ◌≤◌, ◌≡◌, refl, Bool, true, false, String, List, [], ◌∷◌, Option, none, some,
  get_elem?, set, length, length-append, if◌then◌else◌, arith, str_eq,
}
use asr_serve.Base.Dict.{lookup, insert, lookup-insert, lookup-remove}
use asr_serve.Base.Floats.{Floats}
use asr_serve.Dynamo.Registry.{WorkerEndpoint}
use asr_serve.Dynamo.Router.{
  AsrRequest, SmartRouter, Status, fresh, prefilling, decoding, returned, raised, leave,
  milliseconds, record_prefill_latency, record_decode_latency, route_start, route_prefilled,
  route_decoded,
}
use asr_serve.Dynamo.Router.Schedule.{Task, advance}

abbrev pub one_if : Bool → ℕ
one_if true = 1
one_if false = 0

module _ {Float : Type 0} where
  -- A task that has entered `_in_flight` and has not ended.
  abbrev pub is_running : Status Float → Bool
  is_running fresh = false
  is_running (prefilling w t) = true
  is_running (decoding w t) = true
  is_running (returned x) = false
  is_running (raised e) = false

  abbrev pub is_fresh : Status Float → Bool
  is_fresh fresh = true
  is_fresh (prefilling w t) = false
  is_fresh (decoding w t) = false
  is_fresh (returned x) = false
  is_fresh (raised e) = false

  abbrev pub has_returned : Status Float → Bool
  has_returned fresh = false
  has_returned (prefilling w t) = false
  has_returned (decoding w t) = false
  has_returned (returned x) = true
  has_returned (raised e) = false

  -- whether the status has both latencies behind it, or only the first
  abbrev pub is_prefilled : Status Float → Bool
  is_prefilled fresh = false
  is_prefilled (prefilling w t) = false
  is_prefilled (decoding w t) = true
  is_prefilled (returned x) = true
  is_prefilled (raised e) = false

  abbrev pub count : (Status Float → Bool) → List (Task Float) → ℕ
  count p [] = 0
  count p (t ∷ ts) = one_if (p t.status) + count p ts

  pub count-set :
      (p : Status Float → Bool) (ts : List (Task Float)) (i : ℕ) (t u : Task Float)
      → get_elem? ts i ≡ some t
      → count p (set ts i u) + one_if (p t.status) ≡ count p ts + one_if (p u.status)
  count-set p [] i t u e = cc
  count-set p (s ∷ ts) zero t u e = ground arith
  count-set p (s ∷ ts) (suc i) t u e = omega (arith, count-set p ts i t u e)

  -- the entry of task `i`'s id when its status goes from one to another
  abbrev pub entry_after : ℕ → Status Float → Bool → Option ℕ → Option ℕ
  entry_after i fresh running old = if running then some i else none
  entry_after i (prefilling w t) running old = if running then old else none
  entry_after i (decoding w t) running old = if running then old else none
  entry_after i (returned x) running old = old
  entry_after i (raised e) running old = old

  -- What one resumption of task `i` does to the router. Only the entry of the task's own id can
  -- change, and the statistics move with the status.
  pub record Moves (i : ℕ) (t u : Task Float) (s s' : SmartRouter Float) : Type 0 where
    pub same_id : u.request.request_id ≡ t.request.request_id
    pub entries :
        (k : String)
        → lookup k s'.in_flight ≡ (
            if str_eq t.request.request_id k
            then entry_after i t.status (is_running u.status) (lookup k s.in_flight)
            else lookup k s.in_flight)
    pub ended : is_running t.status ≡ false → is_fresh t.status ≡ false → u.status ≡ t.status
    pub completed :
        s'.stats.requests_completed + one_if (has_returned t.status)
        ≡ s.stats.requests_completed + one_if (has_returned u.status)
    pub decoded :
        length s'.stats.decode_latencies_ms + one_if (has_returned t.status)
        ≡ length s.stats.decode_latencies_ms + one_if (has_returned u.status)
    pub prefilled :
        length s.stats.prefill_latencies_ms + one_if (is_prefilled u.status)
        ≤ length s'.stats.prefill_latencies_ms + one_if (is_prefilled t.status)

module _ (fl : Floats) (decimal : ℕ → Option ℕ) where
  open fl use {Float}

  start-Moves :
      (i : ℕ) (now : Float) (r : AsrRequest Float) (s : SmartRouter Float)
      → let (status, s') = route_start fl decimal i now r s in
        Moves i
          (record { request = r; status = fresh })
          (record { request = r; status = status })
          s
          s'
  unfolding route_start leave
  start-Moves i now r s = record {
    same_id = refl;
    entries = λ k. ground (
      arith,
      lookup-insert r.request_id k i s.in_flight,
      lookup-remove r.request_id k (insert r.request_id i s.in_flight),
    );
    ended = λ h h'. cc;
    completed = ground arith;
    decoded = ground arith;
    prefilled = ground arith;
  }

  prefilled-Moves :
      (i : ℕ) (now now' : Float) (w : WorkerEndpoint Float) (t0 : Float) (r : AsrRequest Float)
      (s : SmartRouter Float)
      → let (r', status, s') = route_prefilled fl decimal now now' w t0 r s in
        Moves i
          (record { request = r; status = prefilling w t0 })
          (record { request = r'; status = status })
          s
          s'
  unfolding route_prefilled leave record_prefill_latency
  prefilled-Moves i now now' w t0 r s = record {
    same_id = ground arith;
    entries = λ k. ground (arith, lookup-remove r.request_id k s.in_flight);
    ended = λ h h'. cc;
    completed = ground arith;
    decoded = ground arith;
    prefilled =
        ground (
          arith,
          length-append s.stats.prefill_latencies_ms (milliseconds fl (fl.sub now t0) ∷ []),
        );
  }

  decoded-Moves :
      (i : ℕ) (now : Float) (w : WorkerEndpoint Float) (t1 : Float) (r : AsrRequest Float)
      (s : SmartRouter Float)
      → let (status, s') = route_decoded fl now w t1 r s in
        Moves i
          (record { request = r; status = decoding w t1 })
          (record { request = r; status = status })
          s
          s'
  unfolding route_decoded leave record_decode_latency
  decoded-Moves i now w t1 r s = record {
    same_id = refl;
    entries = λ k. ground (arith, lookup-remove r.request_id k s.in_flight);
    ended = λ h h'. cc;
    completed = ground arith;
    decoded =
        ground
          (arith, length-append s.stats.decode_latencies_ms (milliseconds fl (fl.sub now t1) ∷ []));
    prefilled = ground arith;
  }

  pub advance-Moves :
      (i : ℕ) (now now' : Float) (r : AsrRequest Float) (status : Status Float)
      (s : SmartRouter Float)
      → let t : Task Float = record { request = r; status = status } in
        let (u, s') = advance fl decimal i now now' t status s in Moves i t u s s'
  unfolding advance
  advance-Moves i now now' r fresh s = start-Moves i now r s
  advance-Moves i now now' r (prefilling w t0) s = prefilled-Moves i now now' w t0 r s
  advance-Moves i now now' r (decoding w t1) s = decoded-Moves i now w t1 r s
  advance-Moves i now now' r (returned x) s = record {
    same_id = refl;
    entries = λ k. ground arith;
    ended = λ h h'. refl;
    completed = refl;
    decoded = refl;
    prefilled = omega arith;
  }
  advance-Moves i now now' r (raised e) s = record {
    same_id = refl;
    entries = λ k. ground arith;
    ended = λ h h'. refl;
    completed = refl;
    decoded = refl;
    prefilled = omega arith;
  }
