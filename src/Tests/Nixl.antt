-- ===== src/Tests/Nixl.antt =====
-- The theorems on the transfer manager at concrete inputs.
use asr_serve.Base.{◌≤◌, ◌≡◌, arith, true, String, List, [], ◌∷◌, none, some, ◌*◌, All, length}
use asr_serve.Base.Floats.{micro}
use asr_serve.Base.Int.{pos}
use asr_serve.Dynamo.Nixl.{
  KvCacheDescriptor, NixlTransferManager, init_manager, run_ttl_eviction_loop,
}
use asr_serve.Dynamo.Nixl.Eviction.{run_ttl_eviction_loop_idle}
use asr_serve.Dynamo.Nixl.Transfers.{
  System as TransferSystem, Event as TransferEvent, enter, answer, starts, fresh_system,
  run as run_transfers,
}
use asr_serve.Dynamo.Nixl.Transfers.Drain.{HasEnded as HasEndedTransfer, IsTurn, run-HasEnded}
use asr_serve.Dynamo.Nixl.Transfers.Balance.{IsBalanced, fresh-IsBalanced, run-IsBalanced}

abbrev descriptor : String → KvCacheDescriptor
descriptor handle = record {
  handle = handle;
  src_device = 0;
  src_ptr = 4096;
  tensor_bytes = 64;
  shape = 8 ∷ 8 ∷ [];
  dtype = "bfloat16";
  ttl_ms = pos 500;
}

abbrev transfers : List TransferEvent
transfers = starts true ∷ enter 0 ∷ enter 1 ∷ answer 0 (some 7) ∷ enter 1 ∷ answer 1 none ∷ []

abbrev two_transfers : TransferSystem
two_transfers = fresh_system 1 ((descriptor "x", none) ∷ (descriptor "y", none) ∷ [])

run-IsBalanced_example : IsBalanced 1 (run_transfers transfers two_transfers)
run-IsBalanced_example =
    run-IsBalanced 1 transfers two_transfers
      (fresh-IsBalanced 1 ((descriptor "x", none) ∷ (descriptor "y", none) ∷ []))

run-HasEnded_example :
    (events : List TransferEvent) × All (IsTurn (λ i. some i)) events
    × (length events ≤ 2 * 2)
    × (length (run_transfers events two_transfers).transfers ≡ 2)
    × All HasEndedTransfer (run_transfers events two_transfers).transfers
run-HasEnded_example =
    run-HasEnded (λ i. some i) 1 two_transfers (omega arith)
      (fresh-IsBalanced 1 ((descriptor "x", none) ∷ (descriptor "y", none) ∷ []))

abbrev holding : NixlTransferManager
holding = record (init_manager 64) { descriptors = ("x", descriptor "x") ∷ [] }

run_ttl_eviction_loop_idle_example :
    run_ttl_eviction_loop micro (1_000_000 ∷ 9_000_000 ∷ []) holding ≡ holding
run_ttl_eviction_loop_idle_example =
    run_ttl_eviction_loop_idle micro (1_000_000 ∷ 9_000_000 ∷ []) holding
