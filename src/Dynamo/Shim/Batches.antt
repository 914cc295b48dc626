-- ===== src/Dynamo/Shim/Batches.antt =====
-- The batches that the shim of dynamo-orchestration/src/main.rs dispatches, and when.
use Prim.Native.Nat.{◌%◌}
use asr_serve.Base.{
  ℕ, suc, ◌+◌, ◌≤◌, ◌<◌, ◌≡◌, inl, inr, refl, ap, max, List, [], ◌∷◌, ◌++◌, leb, All, Bool-cases,
  length, length-append, arith,
}
use asr_serve.Dynamo.Shim.{
  AudioFrame, Shim, init, ingest, capacity, dispatch_batch, flush, flush_of, on_frame, on_closed,
  on_deadline, Step, Steps, here, later, clock, recv_from, recv_error, send, send_error, drop_tx,
  frame, closed, deadline,
}

module _ (max_batch batch_timeout : ℕ) where
  abbrev pub IsBatch : List AudioFrame → Type 0
  IsBatch b = (1 ≤ length b) × (length b ≤ max 1 max_batch)

  -- No batch is empty or too long, the channel is within its capacity, the counter is the number of
  -- batches, and the deadline is never further away than the timeout.
  pub record IsBatching (s : Shim) : Type 0 where
    pub dispatched : All IsBatch s.batches
    pub room : length s.batch < max 1 max_batch
    pub in_channel : length s.channel ≤ capacity
    pub sent : s.batches_sent ≡ length s.batches % 18_446_744_073_709_551_616
    pub soon : s.deadline ≤ s.now + batch_timeout

  All-snoc :
      (bs : List (List AudioFrame)) (b : List AudioFrame)
      → All IsBatch bs
      → IsBatch b
      → All IsBatch (bs ++ b ∷ [])
  All-snoc [] b h p = (p, tt)
  All-snoc (c ∷ bs) b h p = (h.0, All-snoc bs b h.1 p)

  -- the batch is dispatched, if it is one
  dispatch-IsBatching :
      (s : Shim)
      → IsBatch s.batch
      → All IsBatch s.batches
      → length s.channel ≤ capacity
      → s.batches_sent ≡ length s.batches % 18_446_744_073_709_551_616
      → s.deadline ≤ s.now + batch_timeout
      → IsBatching (dispatch_batch s)
  unfolding dispatch_batch
  dispatch-IsBatching s b all few e soon = record {
    dispatched = All-snoc s.batches s.batch all b;
    room = omega arith;
    in_channel = few;
    sent = omega (arith, length-append s.batches (s.batch ∷ []));
    soon = soon;
  }

  flush-IsBatching : (s : Shim) → IsBatching s → IsBatching (flush s)
  flush-IsBatching s h = by_batch s.batch refl
    where
      by_batch : (b : List AudioFrame) → s.batch ≡ b → IsBatching (flush_of b s)
      by_batch [] e = h
      by_batch (f ∷ fs) e =
          let size : length s.batch ≡ suc (length fs) = ap length e in
          let room = h.room in
          dispatch-IsBatching s (omega arith) h.dispatched h.in_channel h.sent h.soon

  reset-IsBatching :
      (s : Shim) → IsBatching s → IsBatching (record s { deadline = s.now + batch_timeout })
  reset-IsBatching s h = record {
    dispatched = h.dispatched;
    room = h.room;
    in_channel = h.in_channel;
    sent = h.sent;
    soon = omega arith;
  }

  on_frame-IsBatching :
      (f : AudioFrame) (rest : List AudioFrame) (s : Shim)
      → s.channel ≡ f ∷ rest
      → IsBatching s
      → IsBatching (on_frame max_batch batch_timeout f (record s { channel = rest }))
  unfolding on_frame
  on_frame-IsBatching f rest s e h =
      let size : length (s.batch ++ f ∷ []) ≡ length s.batch + 1 = length-append s.batch (f ∷ []) in
      let shorter : length s.channel ≡ suc (length rest) = ap length e in
      let room = h.room in
      let few = h.in_channel in
      let pushed : Shim = record s { channel = rest; batch = s.batch ++ f ∷ [] } in
      elim (Bool-cases (leb max_batch (length (s.batch ++ f ∷ [])))) [
        | inl full ↦ rw full (
            reset-IsBatching (dispatch_batch pushed)
              (dispatch-IsBatching pushed (omega arith) h.dispatched (omega arith) h.sent h.soon))
        | inr free ↦ rw free (record {
          dispatched = h.dispatched;
          room = ground arith;
          in_channel = omega arith;
          sent = h.sent;
          soon = h.soon;
        })
      ]

  pub Step-IsBatching :
      {s t : Shim} → Step max_batch batch_timeout s t → IsBatching s → IsBatching t
  unfolding ingest on_deadline on_closed
  Step-IsBatching {s} (clock t le) h = record {
    dispatched = h.dispatched;
    room = h.room;
    in_channel = h.in_channel;
    sent = h.sent;
    soon = let d = h.soon in omega arith;
  }
  Step-IsBatching (recv_from src datagram e alive) h = record {
    dispatched = h.dispatched;
    room = h.room;
    in_channel = h.in_channel;
    sent = h.sent;
    soon = h.soon;
  }
  Step-IsBatching recv_error h = h
  Step-IsBatching {s} (send f e running few) h = record {
    dispatched = h.dispatched;
    room = h.room;
    in_channel = omega (arith, length-append s.channel (f ∷ []));
    sent = h.sent;
    soon = h.soon;
  }
  Step-IsBatching (send_error f e stopped) h = record {
    dispatched = h.dispatched;
    room = h.room;
    in_channel = h.in_channel;
    sent = h.sent;
    soon = h.soon;
  }
  Step-IsBatching (drop_tx e) h = record {
    dispatched = h.dispatched;
    room = h.room;
    in_channel = h.in_channel;
    sent = h.sent;
    soon = h.soon;
  }
  Step-IsBatching {s} (frame f rest running e) h = on_frame-IsBatching f rest s e h
  Step-IsBatching {s} (closed running empty dead) h =
      let k = flush-IsBatching s h in
      record {
        dispatched = k.dispatched;
        room = k.room;
        in_channel = k.in_channel;
        sent = k.sent;
        soon = k.soon;
      }
  Step-IsBatching {s} (deadline running le) h = reset-IsBatching (flush s) (flush-IsBatching s h)

  -- In every run of the shim from its start, each dispatched batch has at least one frame and at most
  -- `max_batch`, or one if that is 0; a partial batch is shorter than that; the channel holds at most 4096
  -- frames; `batches_sent` is the number of batches, up to 64 bits; and the deadline is at most
  -- `batch_timeout` ahead.
  pub Steps-IsBatching :
      (now : ℕ) {s : Shim} → Steps max_batch batch_timeout (init now batch_timeout) s → IsBatching s
  unfolding init
  Steps-IsBatching now here = record {
    dispatched = tt;
    room = omega arith;
    in_channel = omega arith;
    sent = refl;
    soon = omega arith;
  }
  Steps-IsBatching now (later run step) = Step-IsBatching step (Steps-IsBatching now run)
