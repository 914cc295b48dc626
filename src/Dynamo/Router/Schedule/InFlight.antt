-- ===== src/Dynamo/Router/Schedule/InFlight.antt =====
-- `_in_flight` and `_stats` of the router under the schedules of Dynamo/Router/Schedule.
use mathlib.Core.Path.{subst}
use mathlib.Core.Option.{some-injective}
use native.Mathlib.Decide.{ℕ_discrete}
use asr_serve.Base.{
  ℕ, ◌≤◌, ◌≡◌, ◌≢◌, sym, ◌∙◌, true, String, List, [], ◌∷◌, Option, some, get_elem?, set, length,
  arith, eq_iff, Option-cases, inl, inr, get_elem?-set-some, get_elem?-set_ne,
}
use asr_serve.Base.Dict.{lookup}
use asr_serve.Base.Floats.{Floats}
use asr_serve.Dynamo.Router.{SmartRouter}
use asr_serve.Dynamo.Router.Schedule.{
  Task, System, Event, resume, registry_change, advance, step, run,
}
use asr_serve.Dynamo.Router.Schedule.Moves.{
  is_running, has_returned, is_prefilled, count, count-set, Moves, advance-Moves,
}

module _ {Float : Type 0} where
  -- task `i` of the list is running the request with id `k`
  abbrev pub Runs : List (Task Float) → ℕ → String → Type 0
  Runs tasks i k =
      (t : Task Float) × (get_elem? tasks i ≡ some t)
      × (t.request.request_id ≡ k)
      × (is_running t.status ≡ true)

  -- Each entry belongs to a running call for its id, and the statistics count the calls.
  pub record IsConsistent (sys : System Float) : Type 0 where
    pub owned : (k : String) (i : ℕ) → lookup k sys.router.in_flight ≡ some i → Runs sys.tasks i k
    pub completed : sys.router.stats.requests_completed ≡ count has_returned sys.tasks
    pub decoded : length sys.router.stats.decode_latencies_ms ≡ sys.router.stats.requests_completed
    pub prefilled : count is_prefilled sys.tasks ≤ length sys.router.stats.prefill_latencies_ms

  module _ (sys : System Float) (h : IsConsistent sys) (i : ℕ) (t u : Task Float)
      (s' : SmartRouter Float) (at : get_elem? sys.tasks i ≡ some t)
      (m : Moves i t u sys.router s') where
    owner :
        (k : String)
        → lookup k sys.router.in_flight ≡ some i
        → (t.request.request_id ≡ k) × (is_running t.status ≡ true)
    owner k e =
        let (t', at', id, runs) = h.owned k i e in
        let same : t' ≡ t = some-injective _ _ (sym at' ∙ at) in
        (
          subst (λ x. x.request.request_id ≡ k) same id,
          subst (λ x. is_running x.status ≡ true) same runs,
        )

    own_entry :
        (k : String)
        → lookup k s'.in_flight ≡ some i
        → (u.request.request_id ≡ k) × (is_running u.status ≡ true)
    own_entry k e =
        ground (arith, m.entries k, e, m.same_id, owner k, eq_iff t.request.request_id k)

    other_entry :
        (k : String) (j : ℕ)
        → j ≢ i
        → lookup k s'.in_flight ≡ some j
        → lookup k sys.router.in_flight ≡ some j
    other_entry k j n e = ground (arith, m.entries k, e)

    Moves-IsConsistent : IsConsistent (record { router = s'; tasks = set sys.tasks i u })
    Moves-IsConsistent = record {
      owned = λ k j e. elim (ℕ_discrete j i) [
        | yes same ↦
            let e' : lookup k s'.in_flight ≡ some i = rw same at e in
            let (id, runs) = own_entry k e' in
            (u, rw same (get_elem?-set-some sys.tasks i u at), id, runs)
        | no other ↦
            let (v, there, id, runs) = h.owned k j (other_entry k j other e) in
            (v, get_elem?-set_ne sys.tasks i j u other ∙ there, id, runs)
      ];
      completed =
          omega (arith, h.completed, m.completed, count-set has_returned sys.tasks i t u at);
      decoded = omega (arith, h.decoded, m.decoded, m.completed);
      prefilled =
          omega (arith, h.prefilled, m.prefilled, count-set is_prefilled sys.tasks i t u at);
    }

module _ (fl : Floats) (decimal : ℕ → Option ℕ) where
  open fl use {Float}

  step-IsConsistent :
      (e : Event Float) (sys : System Float)
      → IsConsistent sys
      → IsConsistent (step fl decimal e sys)
  unfolding step
  step-IsConsistent (resume i now now') sys h = elim (Option-cases (get_elem? sys.tasks i)) [
    | inl missing ↦ rw (missing, step) h
    | inr (t, there) ↦
        let (u, s') = advance fl decimal i now now' t t.status sys.router in
        rw (there, step)
          (Moves-IsConsistent sys h i t u s' there
            (advance-Moves fl decimal i now now' t.request t.status sys.router))
  ]
  step-IsConsistent (registry_change c) sys h = record {
    owned = h.owned;
    completed = h.completed;
    decoded = h.decoded;
    prefilled = h.prefilled;
  }

  -- Whatever the schedule and the changes of the registry: each entry of `_in_flight` belongs to a
  -- call of `route` for its id that has not ended; `requests_completed` is the number of calls that
  -- returned, and of decode latencies; and there is a prefill latency for each call that got as far.
  pub run-IsConsistent :
      (events : List (Event Float)) (sys : System Float)
      → IsConsistent sys
      → IsConsistent (run fl decimal events sys)
  unfolding run
  run-IsConsistent [] sys h = h
  run-IsConsistent (e ∷ events) sys h =
      run-IsConsistent events (step fl decimal e sys) (step-IsConsistent e sys h)
