-- ===== src/Dynamo/Registry/Invariant.antt =====
-- The operations that change a `WorkerRegistry` of dynamo-orchestration/src/router.py, as one type.
use asr_serve.Base.{◌≡◌, refl, String, List, [], ◌∷◌, some, arith, eq_iff, Option-cases, inl, inr}
use asr_serve.Base.Dict.{
  lookup, modify, IsDict, lookup-insert, lookup-remove, lookup-modify, insert-IsDict, remove-IsDict,
  modify-IsDict,
}
use asr_serve.Dynamo.Registry.{
  WorkerEndpoint, WorkerRegistry, register, deregister, update_load, mark_unhealthy,
}

-- the calls that change a registry
pub data Change (Float : Type 0) : Type 0 where
  add : WorkerEndpoint Float → Change Float
  drop : String → Change Float
  load : String → Float → Change Float
  fail : String → Change Float

module _ {Float : Type 0} where
  pub record IsRegistry (workers : WorkerRegistry Float) : Type 0 where
    pub distinct : IsDict workers
    pub keyed :
        (k : String) (w : WorkerEndpoint Float) → lookup k workers ≡ some w → w.worker_id ≡ k

  unfoldable pub change : Change Float → WorkerRegistry Float → WorkerRegistry Float
  change (add w) workers = register w workers
  change (drop id) workers = deregister id workers
  change (load id x) workers = update_load id x workers
  change (fail id) workers = mark_unhealthy id workers

  unfoldable pub change_all : List (Change Float) → WorkerRegistry Float → WorkerRegistry Float
  unfolding change
  change_all [] workers = workers
  change_all (c ∷ cs) workers = change_all cs (change c workers)

  modify-keyed :
      (id : String) (f : WorkerEndpoint Float → WorkerEndpoint Float)
      (workers : WorkerRegistry Float)
      → ((w : WorkerEndpoint Float) → (f w).worker_id ≡ w.worker_id)
      → IsRegistry workers
      → IsRegistry (modify id f workers)
  modify-keyed id f workers same h = record {
    distinct = modify-IsDict id f workers h.distinct;
    keyed = λ k v e. elim (Option-cases (lookup k workers)) [
      | inl missing ↦ ground (arith, lookup-modify id k f workers, missing, e)
      | inr (w, there) ↦
          ground (arith, lookup-modify id k f workers, there, e, same w, h.keyed k w there)
    ];
  }

  change-IsRegistry :
      (c : Change Float) (workers : WorkerRegistry Float)
      → IsRegistry workers
      → IsRegistry (change c workers)
  unfolding change register deregister update_load mark_unhealthy
  change-IsRegistry (add w) workers h = record {
    distinct = insert-IsDict w.worker_id w workers h.distinct;
    keyed = λ k v e.
        ground (arith, lookup-insert w.worker_id k w workers, e, h.keyed k v, eq_iff w.worker_id k);
  }
  change-IsRegistry (drop id) workers h = record {
    distinct = remove-IsDict id workers h.distinct;
    keyed = λ k v e. ground (arith, lookup-remove id k workers, e, h.keyed k v);
  }
  change-IsRegistry (load id x) workers h = modify-keyed id _ workers (λ w. refl) h
  change-IsRegistry (fail id) workers h = modify-keyed id _ workers (λ w. refl) h

  -- Whatever the registry is told, every worker stands once, under its own id.
  pub change_all-IsRegistry :
      (cs : List (Change Float)) (workers : WorkerRegistry Float)
      → IsRegistry workers
      → IsRegistry (change_all cs workers)
  unfolding change_all
  change_all-IsRegistry [] workers h = h
  change_all-IsRegistry (c ∷ cs) workers h =
      change_all-IsRegistry cs (change c workers) (change-IsRegistry c workers h)
