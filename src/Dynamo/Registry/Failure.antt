-- ===== src/Dynamo/Registry/Failure.antt =====
-- `mark_unhealthy` and `least_loaded` of dynamo-orchestration/src/router.py, over later changes.
use mathlib.Core.Path.{subst}
use mathlib.Core.Option.{some-injective}
use asr_serve.Base.{
  false, ◌≡◌, ◌≢◌, refl, sym, String, List, [], ◌∷◌, some, arith, eq_iff, eq_refl, ◌∙◌,
  Option-cases, inl, inr,
}
use asr_serve.Base.Dict.{lookup, modify, lookup-modify, lookup-insert, lookup-remove}
use asr_serve.Base.Floats.{Floats, IsIeee}
use asr_serve.Dynamo.Registry.{
  RequestPhase, WorkerEndpoint, WorkerRegistry, least_loaded, register, deregister, update_load,
  mark_unhealthy,
}
use asr_serve.Dynamo.Registry.Invariant.{
  IsRegistry, Change, add, drop, load, fail, change, change_all, change_all-IsRegistry,
}
use asr_serve.Dynamo.Registry.Selection.{IsCandidate, least_loaded_lem, LoadsAreNumbers}

module _ {Float : Type 0} (id : String) where
  -- If the worker is registered at all, it is marked as failed.
  abbrev pub IsDown : WorkerRegistry Float → Type 0
  IsDown workers = (w : WorkerEndpoint Float) → lookup id workers ≡ some w → w.healthy ≡ false

  -- the registration of this worker, among the changes
  abbrev pub Registers : Change Float → Type 0
  Registers (add w) = w.worker_id ≡ id
  Registers (drop i) = ⊥
  Registers (load i x) = ⊥
  Registers (fail i) = ⊥

  abbrev pub Absent : List (Change Float) → Type 0
  Absent [] = Unit
  Absent (c ∷ cs) = (¬ Registers c) × Absent cs

  modify-IsDown :
      (i : String) (f : WorkerEndpoint Float → WorkerEndpoint Float)
      (workers : WorkerRegistry Float)
      → ((w : WorkerEndpoint Float) → w.healthy ≡ false → (f w).healthy ≡ false)
      → IsDown workers
      → IsDown (modify i f workers)
  modify-IsDown i f workers keeps h w e = elim (Option-cases (lookup id workers)) [
    | inl missing ↦ ground (arith, lookup-modify i id f workers, missing, e)
    | inr (v, there) ↦ ground (arith, lookup-modify i id f workers, there, e, h v there, keeps v)
  ]

  change-IsDown :
      (c : Change Float) (workers : WorkerRegistry Float)
      → ¬ Registers c
      → IsDown workers
      → IsDown (change c workers)
  unfolding change register deregister update_load mark_unhealthy
  change-IsDown (add v) workers n h w e =
      ground (arith, lookup-insert v.worker_id id v workers, eq_iff v.worker_id id, n, e, h w)
  change-IsDown (drop i) workers n h w e = ground (arith, lookup-remove i id workers, e, h w)
  change-IsDown (load i x) workers n h w e = modify-IsDown i _ workers (λ w k. k) h w e
  change-IsDown (fail i) workers n h w e = modify-IsDown i _ workers (λ w k. refl) h w e

  change_all-IsDown :
      (cs : List (Change Float)) (workers : WorkerRegistry Float)
      → Absent cs
      → IsDown workers
      → IsDown (change_all cs workers)
  unfolding change_all
  change_all-IsDown [] workers a h = h
  change_all-IsDown (c ∷ cs) workers a h =
      change_all-IsDown cs (change c workers) a.1 (change-IsDown c workers a.0 h)

  fail-IsDown : (workers : WorkerRegistry Float) → IsDown (mark_unhealthy id workers)
  unfolding mark_unhealthy
  fail-IsDown workers w e = elim (Option-cases (lookup id workers)) [
    | inl missing ↦ ground (arith, lookup-modify id id failed workers, missing, e)
    | inr (v, there) ↦ ground (arith, lookup-modify id id failed workers, there, e, eq_refl id)
  ]
    where
      failed : WorkerEndpoint Float → WorkerEndpoint Float
      failed w = record w { healthy = false }

module _ (fl : Floats) (ieee : IsIeee fl) (role : RequestPhase) where
  open fl use {Float}

  -- Once a worker is marked as failed, no later changes of the registry that do not register it again
  -- lead to a state in which `least_loaded` selects it. (The loads are numbers.)
  failed_not_selected :
      (id : String) (workers : WorkerRegistry Float) (cs : List (Change Float))
      (w : WorkerEndpoint Float)
      → IsRegistry workers
      → Absent id cs
      → LoadsAreNumbers fl role (change_all cs (mark_unhealthy id workers))
      → least_loaded fl role (change_all cs (mark_unhealthy id workers)) ≡ some w
      → w.worker_id ≢ id
  unfolding change_all change
  failed_not_selected id workers cs w h a numbers e same =
      let now = change_all cs (mark_unhealthy id workers) in
      let valid : IsRegistry now = change_all-IsRegistry (fail id ∷ cs) workers h in
      let down : IsDown id now =
        change_all-IsDown id cs (mark_unhealthy id workers) a (fail-IsDown id workers) in
      elim (least_loaded_lem fl role now valid ieee numbers) [
        | inl (nothing, _) ↦ cc
        | inr (v, chosen, best) ↦
            let v-eq : v ≡ w = some-injective _ _ (sym chosen ∙ e) in
            let c : IsCandidate fl role now w =
              subst (IsCandidate fl role now) v-eq best.candidate in
            let there : lookup id now ≡ some w =
              subst (λ i. lookup i now ≡ some w) same c.registered in
            cc (down w there, c.healthy)
      ]
