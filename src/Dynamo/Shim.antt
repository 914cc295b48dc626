-- ===== src/Dynamo/Shim.antt =====
-- dynamo-orchestration/src/main.rs: the shim that batches audio frames. Its two tasks and the channel
-- between them are one state, and a task is cut at its awaits, into the steps of `Step`. A time is a number.
pub mod Batches
pub mod Flow
pub mod Life
pub mod Order
pub mod Waiting
use Prim.Native.Nat.{◌%◌}
use asr_serve.Base.{
  ℕ, zero, suc, ◌+◌, ◌≤◌, ◌<◌, ◌≡◌, Bool, true, false, String, List, [], ◌∷◌, ◌++◌, Option, none,
  some, leb, if◌then◌else◌, length, take,
}
use asr_serve.Base.Int.{pos}
use asr_serve.Base.Text.{Text, codes, str_int}

pub record AudioFrame : Type 0 where
  pub request_id : Text
  pub src : String
  pub payload : List ℕ
  pub received_at : ℕ

-- the size of the buffer of a datagram, and the frames that the channel holds at most
abbrev pub buffer_size : ℕ
buffer_size = 65_535

abbrev pub capacity : ℕ
capacity = 4096

abbrev pub inc : ℕ → ℕ
inc n = (n + 1) % 18_446_744_073_709_551_616

-- `sending` is the frame that the ingest task is waiting to put into the channel, `tx_alive` tells whether
-- that task still holds its end, and `running` whether the dispatcher has not returned. `batches` are
-- the batches that were dispatched, in order.
pub record Shim : Type 0 where
  pub now : ℕ
  pub frame_counter : ℕ
  pub frames_received : ℕ
  pub sending : Option AudioFrame
  pub tx_alive : Bool
  pub channel : List AudioFrame
  pub batch : List AudioFrame
  pub deadline : ℕ
  pub running : Bool
  pub batches : List (List AudioFrame)
  pub batches_sent : ℕ

abbrev pub request_id_of : ℕ → Text
request_id_of counter = codes "req-" ++ str_int (pos counter)

unfoldable pub init : ℕ → ℕ → Shim
init now batch_timeout = record {
  now = now;
  frame_counter = 0;
  frames_received = 0;
  sending = none;
  tx_alive = true;
  channel = [];
  batch = [];
  deadline = now + batch_timeout;
  running = true;
  batches = [];
  batches_sent = 0;
}

-- `ingest_task` from a datagram to the await of `send`
unfoldable pub ingest : String → List ℕ → Shim → Shim
ingest src datagram s = record s {
  frame_counter = inc s.frame_counter;
  frames_received = inc s.frames_received;
  sending = some (record {
    request_id = request_id_of (inc s.frame_counter);
    src = src;
    payload = take buffer_size datagram;
    received_at = s.now;
  });
}

-- The waiting frame enters the channel, or is dropped since the receiver is gone.
abbrev pub sent : AudioFrame → Shim → Shim
sent f s = record s { sending = none; channel = s.channel ++ f ∷ [] }

abbrev pub dropped : Shim → Shim
dropped s = record s { sending = none }

unfoldable pub dispatch_batch : Shim → Shim
dispatch_batch s = record s {
  batches = s.batches ++ s.batch ∷ [];
  batches_sent = inc s.batches_sent;
  batch = [];
}

-- `if !batch.is_empty() { dispatch_batch(…) }`
abbrev pub flush_of : List AudioFrame → Shim → Shim
flush_of [] s = s
flush_of (f ∷ fs) s = dispatch_batch s

abbrev pub flush : Shim → Shim
flush s = flush_of s.batch s

module _ (max_batch batch_timeout : ℕ) where
  abbrev pub reset : Shim → Shim
  reset s = record s { deadline = s.now + batch_timeout }

  -- the arms of `select!` in `dispatcher_task`: a frame, the end of the channel, and the deadline
  unfoldable pub on_frame : AudioFrame → Shim → Shim
  on_frame f s =
      let pushed = record s { batch = s.batch ++ f ∷ [] } in
      if leb max_batch (length pushed.batch) then reset (dispatch_batch pushed) else pushed

  pub on_closed : Shim → Shim
  on_closed s = record (flush s) { running = false }

  unfoldable pub on_deadline : Shim → Shim
  on_deadline s = reset (flush s)

  -- one step of a task or of the clock. `drop_tx` is the end of the sender, which the loop of
  -- `ingest_task` does not reach; a sender is not dropped while it waits.
  pub data Step (s : Shim) : Shim → Type 0 where
    clock : (t : ℕ) → s.now ≤ t → Step s (record s { now = t })
    recv_from :
        (src : String) (datagram : List ℕ)
        → s.sending ≡ none
        → s.tx_alive ≡ true
        → Step s (ingest src datagram s)
    recv_error : Step s s
    send :
        (f : AudioFrame)
        → s.sending ≡ some f
        → s.running ≡ true
        → length s.channel < capacity
        → Step s (sent f s)
    send_error : (f : AudioFrame) → s.sending ≡ some f → s.running ≡ false → Step s (dropped s)
    drop_tx : s.sending ≡ none → Step s (record s { tx_alive = false })
    frame :
        (f : AudioFrame) (rest : List AudioFrame)
        → s.running ≡ true
        → s.channel ≡ f ∷ rest
        → Step s (on_frame f (record s { channel = rest }))
    closed : s.running ≡ true → s.channel ≡ [] → s.tx_alive ≡ false → Step s (on_closed s)
    deadline : s.running ≡ true → s.deadline ≤ s.now → Step s (on_deadline s)

  pub data Steps (s : Shim) : Shim → Type 0 where
    here : Steps s s
    later : {t u : Shim} → Steps s t → Step t u → Steps s u
