-- ===== src/Dynamo/Nixl/Transfers/Balance.antt =====
-- The semaphore and the counters of Dynamo/Nixl/Transfers.
use mathlib.Core.Path.{subst, sym}
use asr_serve.Base.{
  ℕ, ◌+◌, ◌≡◌, refl, arith, Bool, true, false, List, [], ◌∷◌, Option, get_elem?, set, Option-cases,
  inl, inr,
}
use asr_serve.Dynamo.Nixl.{
  KvCacheDescriptor, NixlTransferManager, TransferStatus, waiting, start, stop, register_tensor,
  evict,
}
use asr_serve.Dynamo.Nixl.Transfers.{
  Transfer, System, Event, enter, answer, starts, stops, registers, evicts, entered, moved, step,
  run, fresh_system,
}
use asr_serve.Base.Sums.{total, total-set}
use asr_serve.Dynamo.Nixl.Transfers.Moves.{
  holds, begun, done, moved_bytes, Fair, entered-Fair, answered-Fair,
}

-- The semaphore's free places and the transfers under way make up its size, and the counters count
-- the transfers that began, those that ended well, and the bytes of the latter.
pub record IsBalanced (max_concurrent : ℕ) (s : System) : Type 0 where
  pub places : s.manager.semaphore + total (λ t. holds t.status) s.transfers ≡ max_concurrent
  pub initiated : s.manager.stats.transfers_initiated ≡ total (λ t. begun t.status) s.transfers
  pub completed : s.manager.stats.transfers_completed ≡ total (λ t. done t.status) s.transfers
  pub bytes :
      s.manager.stats.bytes_transferred ≡ total (λ t. moved_bytes t.descriptor t.status) s.transfers

module _ (n : ℕ) where
  moved-IsBalanced :
      (move : TransferStatus
        → Transfer
        → NixlTransferManager
        → TransferStatus × NixlTransferManager)
      (i : ℕ) (s : System)
      → Fair move
      → IsBalanced n s
      → IsBalanced n (moved move i s)
  unfolding moved
  moved-IsBalanced move i s fair h = elim (Option-cases (get_elem? s.transfers i)) [
    | inl e ↦
        let same : moved move i s ≡ s = rw (moved, e) refl in subst (IsBalanced n) (sym same) h
    | inr (t, e) ↦
        let b = fair t.status t s.manager in
        let t' : Transfer = record t { status = (move t.status t s.manager).0 } in
        let next : moved move i s
            ≡ record { manager = (move t.status t s.manager).1; transfers = set s.transfers i t' } =
          rw (moved, e) refl in
        subst (IsBalanced n) (sym next) (record {
          places =
              omega
                (arith, h.places, b.places, total-set (λ u. holds u.status) s.transfers i t t' e);
          initiated = omega (
            arith,
            h.initiated,
            b.initiated,
            total-set (λ u. begun u.status) s.transfers i t t' e,
          );
          completed = omega (
            arith,
            h.completed,
            b.completed,
            total-set (λ u. done u.status) s.transfers i t t' e,
          );
          bytes = omega (
            arith,
            h.bytes,
            b.bytes,
            total-set (λ u. moved_bytes u.descriptor u.status) s.transfers i t t' e,
          );
        })
  ]

  start-IsBalanced :
      (available : Bool) (s : System)
      → IsBalanced n s
      → IsBalanced n (record s { manager = start available s.manager })
  unfolding start
  start-IsBalanced true s h = record {
    places = h.places;
    initiated = h.initiated;
    completed = h.completed;
    bytes = h.bytes;
  }
  start-IsBalanced false s h = h

  pub step-IsBalanced : (e : Event) (s : System) → IsBalanced n s → IsBalanced n (step e s)
  unfolding step register_tensor stop evict
  step-IsBalanced (enter i) s h = moved-IsBalanced entered i s entered-Fair h
  step-IsBalanced (answer i reply) s h = moved-IsBalanced _ i s (answered-Fair reply) h
  step-IsBalanced (starts available) s h = start-IsBalanced available s h
  step-IsBalanced stops s h = record {
    places = h.places;
    initiated = h.initiated;
    completed = h.completed;
    bytes = h.bytes;
  }
  step-IsBalanced (registers d) s h = record {
    places = h.places;
    initiated = h.initiated;
    completed = h.completed;
    bytes = h.bytes;
  }
  step-IsBalanced (evicts handle) s h = record {
    places = h.places;
    initiated = h.initiated;
    completed = h.completed;
    bytes = h.bytes;
  }

  -- From a system whose counts are balanced, the events on any number of transfers, in any order,
  -- and the changes of the manager between them, leave them so: the semaphore's free places and the
  -- transfers under way make up its size, so no more than that are ever under way, the counters are
  -- those of the transfers that began and that ended well, and the bytes are the latter's.
  pub run-IsBalanced :
      (events : List Event) (s : System) → IsBalanced n s → IsBalanced n (run events s)
  unfolding run
  run-IsBalanced [] s h = h
  run-IsBalanced (e ∷ events) s h = run-IsBalanced events (step e s) (step-IsBalanced e s h)

fresh_total :
    (f : Transfer → ℕ) (calls : List (KvCacheDescriptor × Option ℕ))
    → ((d : KvCacheDescriptor) (p : Option ℕ)
        → f (record { descriptor = d; dst_ptr = p; status = waiting }) ≡ 0)
    → total f (fresh_system 0 calls).transfers ≡ 0
fresh_total f [] zeros = refl
fresh_total f ((d, p) ∷ calls) zeros = omega (arith, zeros d p, fresh_total f calls zeros)

pub fresh-IsBalanced :
    (n : ℕ) (calls : List (KvCacheDescriptor × Option ℕ)) → IsBalanced n (fresh_system n calls)
fresh-IsBalanced n calls = record {
  places = omega (arith, fresh_total (λ t. holds t.status) calls (λ d p. refl));
  initiated = sym (fresh_total (λ t. begun t.status) calls (λ d p. refl));
  completed = sym (fresh_total (λ t. done t.status) calls (λ d p. refl));
  bytes = sym (fresh_total (λ t. moved_bytes t.descriptor t.status) calls (λ d p. refl));
}
