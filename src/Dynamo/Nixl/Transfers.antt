-- ===== src/Dynamo/Nixl/Transfers.antt =====
-- Calls of `transfer` of dynamo-orchestration/src/nixl_rdma.py on one event loop, interleaved at the
-- semaphore and at the answers of the agent, with other calls of the manager between them.
pub mod Moves
pub mod Balance
pub mod Drain
use mathlib.Core.Path.{subst, sym}
use asr_serve.Base.{
  map, ℕ, zero, suc, ◌+◌, ◌≤◌, ltb, ◌≡◌, refl, arith, Bool, true, false, List, [], ◌∷◌, Option,
  none, some, if◌then◌else◌, get_elem?, set, String, Bool-cases, Option-cases, inl, inr,
}
use asr_serve.Dynamo.Nixl.{
  KvCacheDescriptor, NixlTransferManager, TransferStatus, waiting, transferring, transferred,
  failed, init_manager, start, stop, register_tensor, transfer_entered, transfer_answered, evict,
}

pub record Transfer : Type 0 where
  pub descriptor : KvCacheDescriptor
  pub dst_ptr : Option ℕ
  pub status : TransferStatus

pub record System : Type 0 where
  pub manager : NixlTransferManager
  pub transfers : List Transfer

pub data Event : Type 0 where
  -- the semaphore lets a waiting transfer in, if it has a free place
  enter : ℕ → Event
  answer : ℕ → Option ℕ → Event
  starts : Bool → Event
  stops : Event
  registers : KvCacheDescriptor → Event
  evicts : String → Event

-- a waiting transfer, which takes a free place if there is one
pub try_enter : Transfer → NixlTransferManager → TransferStatus × NixlTransferManager
try_enter t m =
    if ltb 0 m.semaphore then transfer_entered t.descriptor t.dst_ptr m else (waiting, m)

pub entered : TransferStatus → Transfer → NixlTransferManager → TransferStatus × NixlTransferManager
entered waiting t m = try_enter t m
entered transferring t m = (transferring, m)
entered (transferred p) t m = (transferred p, m)
entered failed t m = (failed, m)

pub answered :
    TransferStatus
    → Option ℕ
    → Transfer
    → NixlTransferManager
    → TransferStatus × NixlTransferManager
answered waiting reply t m = (waiting, m)
answered transferring reply t m = transfer_answered t.descriptor reply m
answered (transferred p) reply t m = (transferred p, m)
answered failed reply t m = (failed, m)

-- transfer `i` moves as `move` says
pub moved :
    (TransferStatus → Transfer → NixlTransferManager → TransferStatus × NixlTransferManager)
    → ℕ
    → System
    → System
moved move i s = elim (get_elem? s.transfers i) [
  | none ↦ s
  | some t ↦
      let (status, m) = move t.status t s.manager in
      record { manager = m; transfers = set s.transfers i (record t { status = status }) }
]

unfoldable pub step : Event → System → System
step (enter i) s = moved entered i s
step (answer i reply) s = moved (λ status. answered status reply) i s
step (starts available) s = record s { manager = start available s.manager }
step stops s = record s { manager = stop s.manager }
step (registers d) s = record s {
  manager =
      (register_tensor d.handle d.src_device d.src_ptr d.tensor_bytes d.shape d.dtype d.ttl_ms
        s.manager).1;
}
step (evicts handle) s = record s { manager = evict handle s.manager }

unfoldable pub run : List Event → System → System
run [] s = s
run (e ∷ events) s = run events (step e s)

-- the system before any transfer began
abbrev pub fresh_system : ℕ → List (KvCacheDescriptor × Option ℕ) → System
fresh_system n calls = record {
  manager = init_manager n;
  transfers = map (λ (d, p). record { descriptor = d; dst_ptr = p; status = waiting }) calls;
}
