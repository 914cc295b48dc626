-- ===== src/Dynamo/Nixl/Transfers/Moves.antt =====
-- One move of a transfer of Dynamo/Nixl/Transfers, and the totals that it changes.
use asr_serve.Base.{ℕ, ◌+◌, ◌≤◌, ltb, ◌≡◌, refl, arith, Option, none, some, Bool-cases, inl, inr}
use asr_serve.Dynamo.Nixl.{
  KvCacheDescriptor, NixlTransferManager, TransferStatus, waiting, transferring, transferred,
  failed, transfer_entered, transfer_answered,
}
use asr_serve.Dynamo.Nixl.Transfers.{Transfer, try_enter, entered, answered}

abbrev pub holds : TransferStatus → ℕ
holds waiting = 0
holds transferring = 1
holds (transferred p) = 0
holds failed = 0

abbrev pub begun : TransferStatus → ℕ
begun waiting = 0
begun transferring = 1
begun (transferred p) = 1
begun failed = 1

abbrev pub done : TransferStatus → ℕ
done waiting = 0
done transferring = 0
done (transferred p) = 1
done failed = 0

abbrev pub moved_bytes : KvCacheDescriptor → TransferStatus → ℕ
moved_bytes d waiting = 0
moved_bytes d transferring = 0
moved_bytes d (transferred p) = d.tensor_bytes
moved_bytes d failed = 0

-- A move keeps each balance of the transfer that makes it.
pub record Balances (d : KvCacheDescriptor) (status : TransferStatus) (m : NixlTransferManager)
    (status' : TransferStatus) (m' : NixlTransferManager) : Type 0 where
  pub places : m'.semaphore + holds status' ≡ m.semaphore + holds status
  pub initiated :
      m'.stats.transfers_initiated + begun status ≡ m.stats.transfers_initiated + begun status'
  pub completed :
      m'.stats.transfers_completed + done status ≡ m.stats.transfers_completed + done status'
  pub bytes :
      m'.stats.bytes_transferred + moved_bytes d status
      ≡ m.stats.bytes_transferred + moved_bytes d status'

abbrev pub Fair :
    (TransferStatus → Transfer → NixlTransferManager → TransferStatus × NixlTransferManager)
    → Type 0
Fair move =
    (status : TransferStatus) (t : Transfer) (m : NixlTransferManager)
    → Balances t.descriptor status m (move status t m).0 (move status t m).1

idle-Balances :
    (d : KvCacheDescriptor) (status : TransferStatus) (m : NixlTransferManager)
    → Balances d status m status m
idle-Balances d status m = record {
  places = refl;
  initiated = refl;
  completed = refl;
  bytes = refl;
}

transfer_entered-Balances :
    (t : Transfer) (m : NixlTransferManager)
    → 1 ≤ m.semaphore
    → Balances t.descriptor waiting m
        (transfer_entered t.descriptor t.dst_ptr m).0
        (transfer_entered t.descriptor t.dst_ptr m).1
unfolding transfer_entered
transfer_entered-Balances t m h = elim (Bool-cases m.nixl_agent) [
  | inl e ↦ rw e (record {
    places = omega arith;
    initiated = omega arith;
    completed = omega arith;
    bytes = omega arith;
  })
  | inr e ↦ rw e (record {
    places = omega arith;
    initiated = omega arith;
    completed = omega arith;
    bytes = omega arith;
  })
]

pub entered-Fair : Fair entered
unfolding entered try_enter
entered-Fair waiting t m = elim (Bool-cases (ltb 0 m.semaphore)) [
  | inl e ↦ rw (entered, try_enter, e) (transfer_entered-Balances t m (ground (arith, e)))
  | inr e ↦ rw (entered, try_enter, e) (idle-Balances t.descriptor waiting m)
]
entered-Fair transferring t m = idle-Balances t.descriptor transferring m
entered-Fair (transferred q) t m = idle-Balances t.descriptor (transferred q) m
entered-Fair failed t m = idle-Balances t.descriptor failed m

pub answered-Fair : (reply : Option ℕ) → Fair (λ status. answered status reply)
unfolding answered transfer_answered
answered-Fair none transferring t m = record {
  places = omega arith;
  initiated = refl;
  completed = refl;
  bytes = refl;
}
answered-Fair (some r) transferring t m = record {
  places = omega arith;
  initiated = refl;
  completed = omega arith;
  bytes = omega arith;
}
answered-Fair reply waiting t m = idle-Balances t.descriptor waiting m
answered-Fair reply (transferred q) t m = idle-Balances t.descriptor (transferred q) m
answered-Fair reply failed t m = idle-Balances t.descriptor failed m
