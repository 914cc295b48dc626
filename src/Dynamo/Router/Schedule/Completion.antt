-- ===== src/Dynamo/Router/Schedule/Completion.antt =====
-- Schedules of Dynamo/Router/Schedule in which calls of `route` come to their end.
use mathlib.Core.Path.{subst}
use native.Mathlib.Decide.{ℕ_discrete, dec_lt}
use asr_serve.Base.{
  ℕ, zero, suc, ◌+◌, ◌-◌, ◌≤◌, ◌<◌, ◌≡◌, refl, sym, false, List, [], ◌∷◌, map, eq_refl, Option,
  none, some, get_elem?, length, if◌then◌else◌, arith, Option-cases, inl, inr, get_elem?-set-some,
  get_elem?-set_ne, ◌==◌,
}
use asr_serve.Base.Dict.{Dict, lookup}
use asr_serve.Base.Floats.{Floats}
use asr_serve.Dynamo.Registry.{WorkerRegistry}
use asr_serve.Dynamo.Router.{
  AsrRequest, SmartRouter, Status, fresh, prefilling, decoding, returned, raised, route_start,
  route_prefilled, route_decoded,
}
use asr_serve.Dynamo.Router.Schedule.{
  Task, System, Event, resume, registry_change, advance, step, run,
}
use asr_serve.Dynamo.Router.Schedule.InFlight.{IsConsistent, run-IsConsistent}
use asr_serve.Dynamo.Router.Schedule.Moves.{is_running, has_returned, is_prefilled, count}

module _ {Float : Type 0} where
  -- the resumptions that a call still needs, at most
  abbrev pub rank : Status Float → ℕ
  rank fresh = 3
  rank (prefilling w t) = 2
  rank (decoding w t) = 1
  rank (returned x) = 0
  rank (raised e) = 0

  abbrev pub rank_of : Option (Task Float) → ℕ
  rank_of none = 0
  rank_of (some t) = rank t.status

  abbrev pub rank_at : List (Task Float) → ℕ → ℕ
  rank_at tasks i = rank_of (get_elem? tasks i)

  -- how often the schedule resumes task `i`
  abbrev pub resumptions : ℕ → List (Event Float) → ℕ
  resumptions i [] = 0
  resumptions i (resume j t t' ∷ events) = (if i == j then 1 else 0) + resumptions i events
  resumptions i (registry_change c ∷ events) = resumptions i events

  rank_zero_not_running : (status : Status Float) → rank status ≡ 0 → is_running status ≡ false
  rank_zero_not_running fresh h = refl
  rank_zero_not_running (prefilling w t) h = absurd (omega arith)
  rank_zero_not_running (decoding w t) h = absurd (omega arith)
  rank_zero_not_running (returned x) h = refl
  rank_zero_not_running (raised e) h = refl

module _ (fl : Floats) (decimal : ℕ → Option ℕ) where
  open fl use {Float}

  advance-rank :
      (i : ℕ) (now now' : Float) (t : Task Float) (status : Status Float) (s : SmartRouter Float)
      → t.status ≡ status
      → rank (advance fl decimal i now now' t status s).0.status ≤ rank status - 1
  unfolding advance route_start route_prefilled route_decoded
  advance-rank i now now' t fresh s e = ground arith
  advance-rank i now now' t (prefilling w t0) s e = ground arith
  advance-rank i now now' t (decoding w t1) s e = omega arith
  advance-rank i now now' t (returned x) s e = rw e (omega arith)
  advance-rank i now now' t (raised x) s e = rw e (omega arith)

  step-rank :
      (i : ℕ) (e : Event Float) (sys : System Float)
      → rank_at (step fl decimal e sys).tasks i ≤ rank_at sys.tasks i - resumptions i (e ∷ [])
  unfolding step
  step-rank i (registry_change c) sys = omega arith
  step-rank i (resume j now now') sys = elim (Option-cases (get_elem? sys.tasks j)) [
    | inl missing ↦ rw (missing, step) (ground (arith, missing))
    | inr (t, there) ↦
        let (u, s') = advance fl decimal j now now' t t.status sys.router in
        let falls = advance-rank j now now' t t.status sys.router refl in
        rw (there, step)
          (elim (ℕ_discrete i j) [
            | yes same ↦
                rw (same, get_elem?-set-some sys.tasks j u there, there) (ground (arith, falls))
            | no other ↦ rw (get_elem?-set_ne sys.tasks j i u other) (ground arith)
          ])
  ]

  run-rank :
      (i : ℕ) (events : List (Event Float)) (sys : System Float)
      → rank_at (run fl decimal events sys).tasks i ≤ rank_at sys.tasks i - resumptions i events
  unfolding run
  run-rank i [] sys = omega arith
  run-rank i (resume j t t' ∷ events) sys = omega (
    arith,
    run-rank i events (step fl decimal (resume j t t') sys),
    step-rank i (resume j t t') sys,
  )
  run-rank i (registry_change c ∷ events) sys = omega (
    arith,
    run-rank i events (step fl decimal (registry_change c) sys),
    step-rank i (registry_change c) sys,
  )

module _ {Float : Type 0} where
  abbrev pub HasEnded : Status Float → Type 0
  HasEnded fresh = ⊥
  HasEnded (prefilling w t) = ⊥
  HasEnded (decoding w t) = ⊥
  HasEnded (returned x) = Unit
  HasEnded (raised e) = Unit

  HasEnded-of_rank : (status : Status Float) → rank status ≡ 0 → HasEnded status
  HasEnded-of_rank fresh h = absurd (omega arith)
  HasEnded-of_rank (prefilling w t) h = absurd (omega arith)
  HasEnded-of_rank (decoding w t) h = absurd (omega arith)
  HasEnded-of_rank (returned x) h = tt
  HasEnded-of_rank (raised e) h = tt

  -- `route` is called for each request, and none has begun.
  pub initial : WorkerRegistry Float → List (AsrRequest Float) → System Float
  initial workers requests = record {
    router = record {
      registry = workers;
      in_flight = [];
      stats = record {
        requests_completed = 0;
        prefill_latencies_ms = [];
        decode_latencies_ms = [];
      };
    };
    tasks = map (λ r. record { request = r; status = fresh }) requests;
  }

  fresh_tasks : List (AsrRequest Float) → List (Task Float)
  fresh_tasks = map (λ r. record { request = r; status = fresh })

  count-fresh_tasks :
      (requests : List (AsrRequest Float))
      → (count has_returned (fresh_tasks requests) ≡ 0)
        × (count is_prefilled (fresh_tasks requests) ≡ 0)
  unfolding fresh_tasks
  count-fresh_tasks [] = (refl, refl)
  count-fresh_tasks (r ∷ rs) = omega (arith, count-fresh_tasks rs)

  rank_at-fresh_tasks :
      (requests : List (AsrRequest Float)) (i : ℕ)
      → (rank_at (fresh_tasks requests) i ≤ 3)
        × (length requests ≤ i → rank_at (fresh_tasks requests) i ≡ 0)
  unfolding fresh_tasks
  rank_at-fresh_tasks [] i = (omega arith, λ h. refl)
  rank_at-fresh_tasks (r ∷ rs) zero = (omega arith, λ h. absurd (omega arith))
  rank_at-fresh_tasks (r ∷ rs) (suc i) =
      let (below, past) = rank_at-fresh_tasks rs i in (below, λ h. past (omega arith))

  pub initial-IsConsistent :
      (workers : WorkerRegistry Float) (requests : List (AsrRequest Float))
      → IsConsistent (initial workers requests)
  unfolding initial fresh_tasks
  initial-IsConsistent workers requests =
      let (none_returned, none_prefilled) = count-fresh_tasks requests in
      record {
        owned = λ k i e. cc;
        completed = sym none_returned;
        decoded = refl;
        prefilled = omega arith;
      }

  -- With no call running, nothing is in flight.
  no_entries :
      (sys : System Float)
      → IsConsistent sys
      → ((i : ℕ) → rank_at sys.tasks i ≡ 0)
      → (d : Dict ℕ) → d ≡ sys.router.in_flight
      → d ≡ []
  no_entries sys h ended [] e = refl
  no_entries sys h ended ((k, i) ∷ d) e =
      let listed : lookup k ((k, i) ∷ d) ≡ some i = rw (eq_refl k) in
      let (t, there, id, runs) = h.owned k i (subst (λ x. lookup k x ≡ some i) e listed) in
      let done : rank_of (some t) ≡ 0 = subst (λ o. rank_of o ≡ 0) there (ended i) in
      cc (rank_zero_not_running t.status done, runs)

module _ (fl : Floats) (decimal : ℕ → Option ℕ) where
  open fl use {Float}

  -- Whatever the schedule, the requests and the changes of the registry: when every call of `route`
  -- has been resumed three times, every call has returned or raised, nothing is in flight, and
  -- `requests_completed` is the number of calls that returned.
  pub all_served :
      (workers : WorkerRegistry Float) (requests : List (AsrRequest Float))
      (events : List (Event Float))
      → ((i : ℕ) → i < length requests → 3 ≤ resumptions i events)
      → let end = run fl decimal events (initial workers requests) in
        ((i : ℕ) (t : Task Float) → get_elem? end.tasks i ≡ some t → HasEnded t.status)
        × (end.router.in_flight ≡ [])
        × (end.router.stats.requests_completed ≡ count has_returned end.tasks)
  unfolding initial fresh_tasks
  all_served workers requests events enough =
      let start = initial workers requests in
      let end = run fl decimal events start in
      let valid =
        run-IsConsistent fl decimal events start (initial-IsConsistent workers requests) in
      (
        λ i t there. HasEnded-of_rank t.status (subst (λ o. rank_of o ≡ 0) there (ended i)),
        no_entries end valid ended end.router.in_flight refl,
        valid.completed,
      )
    where
      ended : (i : ℕ) → rank_at (run fl decimal events (initial workers requests)).tasks i ≡ 0
      ended i =
          let (below, past) = rank_at-fresh_tasks requests i in
          let falls = run-rank fl decimal i events (initial workers requests) in
          elim (dec_lt i (length requests)) [
            | yes inside ↦ omega (arith, enough i inside)
            | no outside ↦ let gone = past (omega arith) in omega arith
          ]
