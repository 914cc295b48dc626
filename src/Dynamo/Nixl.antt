-- ===== src/Dynamo/Nixl.antt =====
-- `NixlTransferManager` and the TTL loop of dynamo-orchestration/src/nixl_rdma.py. The NIXL agent is
-- there or not (`nixl_agent`); what a transfer of it answers enters with the event. A `transfer`
-- suspends at the semaphore and at the agent's answer, so it is two functions. Devices, pointers and
-- sizes are natural numbers.
pub mod Eviction
pub mod Transfers
use asr_serve.Base.{
  ℕ, zero, suc, ◌+◌, ◌-◌, Bool, true, false, ◌&&◌, String, List, [], ◌∷◌, Option, none, some,
  if◌then◌else◌,
}
use asr_serve.Base.Dict.{Dict, lookup, insert, remove}
use asr_serve.Base.Floats.{Floats}
use asr_serve.Base.Int.{ℤ}
use asr_serve.Dynamo.Router.{milliseconds}

pub record KvCacheDescriptor : Type 0 where
  pub handle : String
  pub src_device : ℕ
  pub src_ptr : ℕ
  pub tensor_bytes : ℕ
  pub shape : List ℕ
  pub dtype : String
  pub ttl_ms : ℤ

pub record TransferStats : Type 0 where
  pub transfers_initiated : ℕ
  pub transfers_completed : ℕ
  pub bytes_transferred : ℕ
  pub errors : ℕ

pub record NixlTransferManager : Type 0 where
  -- the free places of the semaphore
  pub semaphore : ℕ
  pub descriptors : Dict KvCacheDescriptor
  pub nixl_agent : Bool
  pub stats : TransferStats

-- where a call of `transfer` stands
pub data TransferStatus : Type 0 where
  waiting : TransferStatus
  transferring : TransferStatus
  transferred : ℕ → TransferStatus
  failed : TransferStatus

abbrev pub init_manager : ℕ → NixlTransferManager
init_manager max_concurrent = record {
  semaphore = max_concurrent;
  descriptors = [];
  nixl_agent = false;
  stats = record {
    transfers_initiated = 0;
    transfers_completed = 0;
    bytes_transferred = 0;
    errors = 0;
  };
}

-- `nixl_available` is whether the package was found.
pub start : Bool → NixlTransferManager → NixlTransferManager
start nixl_available m = if nixl_available then record m { nixl_agent = true } else m

pub stop : NixlTransferManager → NixlTransferManager
stop m = record m { nixl_agent = false }

-- `handle` is the `uuid4` that the call draws. The descriptor is stored before the agent registers
-- the memory; an exception of the agent reaches the caller instead of the descriptor.
pub register_tensor :
    String
    → ℕ
    → ℕ
    → ℕ
    → List ℕ
    → String
    → ℤ
    → NixlTransferManager
    → KvCacheDescriptor × NixlTransferManager
register_tensor handle device ptr bytes_size shape dtype ttl_ms m =
    let descriptor : KvCacheDescriptor = record {
      handle = handle;
      src_device = device;
      src_ptr = ptr;
      tensor_bytes = bytes_size;
      shape = shape;
      dtype = dtype;
      ttl_ms = ttl_ms;
    } in
    (descriptor, record m { descriptors = insert handle descriptor m.descriptors })

-- `dst_ptr or default`
abbrev pub or_default : Option ℕ → ℕ → ℕ
or_default none default = default
or_default (some zero) default = default
or_default (some (suc n)) default = suc n

-- the end of the `async with` block, after an exception or a result
abbrev pub released : NixlTransferManager → NixlTransferManager
released m = record m { semaphore = m.semaphore + 1 }

abbrev pub completed : KvCacheDescriptor → NixlTransferManager → NixlTransferManager
completed descriptor m = record m {
  stats = record m.stats {
    transfers_completed = m.stats.transfers_completed + 1;
    bytes_transferred = m.stats.bytes_transferred + descriptor.tensor_bytes;
  };
}

-- `transfer` past the semaphore, which has a free place, up to the agent's answer
pub transfer_entered :
    KvCacheDescriptor → Option ℕ → NixlTransferManager → TransferStatus × NixlTransferManager
transfer_entered descriptor dst_ptr m =
    let entered : NixlTransferManager = record m {
      semaphore = m.semaphore - 1;
      stats = record m.stats { transfers_initiated = m.stats.transfers_initiated + 1 };
    } in
    if entered.nixl_agent
    then (transferring, entered)
    else (transferred (or_default dst_ptr 3_735_928_559), released (completed descriptor entered))

-- from the agent's answer, `none` being an exception
pub transfer_answered :
    KvCacheDescriptor → Option ℕ → NixlTransferManager → TransferStatus × NixlTransferManager
transfer_answered descriptor none m = (failed, released m)
transfer_answered descriptor (some result_ptr) m =
    (transferred result_ptr, released (completed descriptor m))

-- `evict`: the agent's exceptions are caught and logged.
pub evict : String → NixlTransferManager → NixlTransferManager
evict handle m = record m { descriptors = remove handle m.descriptors }

module _ (fl : Floats) where
  open fl use {Float, lt, sub, of_int}

  -- whether the loop evicts this entry
  abbrev pub has_expired : Float → Dict Float → String → KvCacheDescriptor → Bool
  has_expired now registered_times handle desc = elim (lookup handle registered_times) [
    | none ↦ false
    | some t ↦ lt (of_int desc.ttl_ms) (milliseconds fl (sub now t))
  ]

  pub to_evict : Float → Dict Float → Dict KvCacheDescriptor → List String
  to_evict now registered_times [] = []
  to_evict now registered_times ((handle, desc) ∷ d) =
      let rest = to_evict now registered_times d in
      if has_expired now registered_times handle desc then handle ∷ rest else rest

  pub evict_each : List String → Dict Float × NixlTransferManager → Dict Float × NixlTransferManager
  evict_each [] (registered_times, m) = (registered_times, m)
  evict_each (handle ∷ handles) (registered_times, m) =
      evict_each handles (remove handle registered_times, evict handle m)

  -- one turn of `run_ttl_eviction_loop`
  pub ttl_turn : Float → Dict Float × NixlTransferManager → Dict Float × NixlTransferManager
  ttl_turn now (registered_times, m) =
      evict_each (to_evict now registered_times m.descriptors) (registered_times, m)

  pub ttl_turns : List Float → Dict Float × NixlTransferManager → Dict Float × NixlTransferManager
  ttl_turns [] s = s
  ttl_turns (now ∷ nows) s = ttl_turns nows (ttl_turn now s)

  -- its turns, from the empty `registered_times` on
  pub run_ttl_eviction_loop : List Float → NixlTransferManager → NixlTransferManager
  run_ttl_eviction_loop nows m = (ttl_turns nows ([], m)).1
