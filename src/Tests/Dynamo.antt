-- ===== src/Tests/Dynamo.antt =====
-- The theorems on the Dynamo orchestration at concrete inputs.
use asr_serve.Base.{
  ℕ, zero, suc, ◌≤◌, ◌<◌, ◌≡◌, refl, arith, ◌⊎◌, true, String, List, [], ◌∷◌, none, some, get_elem?,
  ◌*◌, ◌/◌, ◌-◌,
}
use asr_serve.Base.Floats.{micro}
use asr_serve.Base.Int.{pos}
use asr_serve.Base.Order.{min_by, min_from, sort_by, insert_sorted}
use asr_serve.Base.Result.{ok}
use asr_serve.Base.Text.{ascii_digit}
use asr_serve.Base.Value.{int}
use asr_serve.Tests.Numbers.{micro-IsIeee}
use asr_serve.Dynamo.Registry.{
  RequestPhase, prefill, decode, WorkerEndpoint, WorkerRegistry, mark_unhealthy, least_loaded,
  register, update_load,
}
use asr_serve.Dynamo.Registry.Invariant.{
  IsRegistry, Change, add, load, fail, change, change_all, change_all-IsRegistry,
}
use asr_serve.Dynamo.Registry.Selection.{IsCandidate, IsBest, LoadsAreNumbers, least_loaded_lem}
use asr_serve.Dynamo.Router.{AsrRequest, SmartRouter, p99}
use asr_serve.Dynamo.Router.Selection.{priority_of, route_alone, routed, route_alone-routed}
use asr_serve.Dynamo.Router.Schedule.{Task, Event, resume, registry_change, run}
use asr_serve.Dynamo.Router.Schedule.Moves.{count, has_returned}
use asr_serve.Dynamo.Router.Schedule.InFlight.{IsConsistent, run-IsConsistent}
use asr_serve.Dynamo.Router.Schedule.Completion.{
  resumptions, HasEnded, initial, initial-IsConsistent, all_served,
}
use asr_serve.Dynamo.Router.Percentile.{HasRank, p99-rank}

abbrev worker : String → RequestPhase → ℕ → WorkerEndpoint ℕ
worker id role x = record {
  worker_id = id;
  role = role;
  address = "10.0.1.10:50051";
  load = x;
  healthy = true;
}

abbrev changes : List (Change ℕ)
changes =
    add (worker "p1" prefill 300_000)
    ∷ add (worker "p2" prefill 100_000)
    ∷ add (worker "d1" decode 0)
    ∷ load "p1" 50_000
    ∷ []

-- the registry after these changes
abbrev workers : WorkerRegistry ℕ
workers =
    ("p1", worker "p1" prefill 50_000)
    ∷ ("p2", worker "p2" prefill 100_000)
    ∷ ("d1", worker "d1" decode 0)
    ∷ []

nobody-IsRegistry : IsRegistry {Float = ℕ} []
nobody-IsRegistry = record { distinct = tt; keyed = λ k w e. cc }

workers-IsRegistry : IsRegistry workers
unfolding change_all change register update_load
workers-IsRegistry = change_all-IsRegistry changes [] nobody-IsRegistry

numbers : (role : RequestPhase) (ws : WorkerRegistry ℕ) → LoadsAreNumbers micro role ws
numbers role ws k w e = refl

least_loaded_lem_example :
    ((least_loaded micro prefill workers ≡ none)
      × ((w : WorkerEndpoint ℕ) → ¬ IsCandidate micro prefill workers w))
    ⊎ ((w : WorkerEndpoint ℕ) × (least_loaded micro prefill workers ≡ some w)
        × IsBest micro prefill workers w)
least_loaded_lem_example =
    least_loaded_lem micro prefill workers workers-IsRegistry micro-IsIeee (numbers prefill workers)

p2_selected :
    least_loaded micro prefill (change_all [] (mark_unhealthy "p1" workers))
    ≡ some (worker "p2" prefill 100_000)
unfolding least_loaded change_all mark_unhealthy min_by min_from
p2_selected = refl

abbrev request : String → AsrRequest ℕ
request id = record {
  request_id = id;
  audio_bytes = [];
  phase = prefill;
  kv_handle = none;
  agent_hints = ("priority", int (pos 7)) ∷ [];
  enqueue_time = 0;
}

abbrev router : SmartRouter ℕ
router = record {
  registry = workers;
  in_flight = [];
  stats = record { requests_completed = 0; prefill_latencies_ms = []; decode_latencies_ms = [] };
}

route_alone-routed_example :
    route_alone micro ascii_digit 0 1 4 5 9 (request "r") router
    ≡ routed micro ascii_digit
        (priority_of micro ascii_digit (request "r"))
        (least_loaded micro prefill workers)
        (least_loaded micro decode workers)
        3
        4
        (request "r")
        router
route_alone-routed_example =
    route_alone-routed micro ascii_digit 0 1 4 5 9 (request "r") router refl

-- Two requests, interleaved, while a worker fails.
abbrev requests : List (AsrRequest ℕ)
requests = request "r" ∷ request "s" ∷ []

abbrev events : List (Event ℕ)
events =
    resume 0 1 1
    ∷ resume 1 2 2
    ∷ registry_change (fail "p1")
    ∷ resume 1 3 3
    ∷ resume 0 4 4
    ∷ resume 1 5 5
    ∷ resume 0 6 6
    ∷ []

three_times : (i : ℕ) → i < 2 → 3 ≤ resumptions i events
three_times zero h = omega arith
three_times (suc zero) h = omega arith
three_times (suc (suc i)) h = absurd (omega arith)

all_served_example :
    let end = run micro ascii_digit events (initial workers requests) in
    ((i : ℕ) (t : Task ℕ) → get_elem? end.tasks i ≡ some t → HasEnded t.status)
    × (end.router.in_flight ≡ [])
    × (end.router.stats.requests_completed ≡ count has_returned end.tasks)
all_served_example = all_served micro ascii_digit workers requests events three_times

run-IsConsistent_example : IsConsistent (run micro ascii_digit events (initial workers requests))
run-IsConsistent_example =
    run-IsConsistent micro ascii_digit events (initial workers requests)
      (initial-IsConsistent workers requests)

-- Of two latencies, the 99th percentile is the smaller.
abbrev latencies : List ℕ
latencies = 9_000_000 ∷ 4_000_000 ∷ []

p99-rank_example :
    (v : ℕ) × (p99 micro latencies ≡ ok v)
    × HasRank micro micro-IsIeee latencies (99 * 2 / 100 - 1) v
p99-rank_example = p99-rank micro micro-IsIeee latencies (omega arith) (refl, (refl, tt)) refl

p99-two : p99 micro latencies ≡ ok 4_000_000
unfolding p99 sort_by insert_sorted
p99-two = refl
