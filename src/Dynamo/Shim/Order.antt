-- ===== src/Dynamo/Shim/Order.antt =====
-- That the shim of dynamo-orchestration/src/main.rs loses no frame and keeps their order.
use Prim.Native.Nat.{◌%◌}
use mathlib.Core.List.{map-append}
use asr_serve.Base.{
  ℕ, zero, suc, ◌≡◌, refl, sym, ap, ◌∙◌, String, List, [], ◌∷◌, ◌++◌, map, none, inl, length,
  length-append, arith,
}
use asr_serve.Base.Text.{Text}
use asr_serve.Dynamo.Shim.{
  AudioFrame, Shim, init, inc, request_id_of, ingest, on_closed, on_deadline, Step, Steps, here,
  later, clock, recv_from, recv_error, send, send_error, drop_tx, frame, closed, deadline,
}
use asr_serve.Dynamo.Shim.Flow.{
  flow, to_list, flow-sent, flow-ingest, flow-on_frame, flow-on_closed, flow-on_deadline,
}
use asr_serve.Dynamo.Shim.Life.{flush-Same, on_frame-Same, IsAlive, no_send_error, Step-IsAlive}

-- "req-1", "req-2" and so on, with the counter's 64 bits
abbrev pub ids : ℕ → List Text
ids zero = []
ids (suc n) = ids n ++ request_id_of (suc n % 18_446_744_073_709_551_616) ∷ []

-- The frames in the shim and dispatched, in this order, are those that were received.
pub record InOrder (s : Shim) : Type 0 where
  pub in_order : map (λ f. f.request_id) (flow s) ≡ ids (length (flow s))
  pub counter : s.frame_counter ≡ length (flow s) % 18_446_744_073_709_551_616
  pub received : s.frames_received ≡ s.frame_counter

-- a step that only moves frames
moved :
    {s t : Shim}
    → flow t ≡ flow s
    → t.frame_counter ≡ s.frame_counter
    → t.frames_received ≡ s.frames_received
    → InOrder s
    → InOrder t
moved {s} {t} e c r h = record {
  in_order = ap (map (λ f. f.request_id)) e ∙ h.in_order ∙ ap (λ fs. ids (length fs)) (sym e);
  counter =
      c ∙ h.counter ∙ ap (λ (fs : List AudioFrame). length fs % 18_446_744_073_709_551_616) (sym e);
  received = r ∙ h.received ∙ sym c;
}

ingest-InOrder :
    (src : String) (datagram : List ℕ) (s : Shim)
    → s.sending ≡ none
    → InOrder s
    → InOrder (ingest src datagram s)
unfolding ingest
ingest-InOrder src datagram s e h =
    let t = ingest src datagram s in
    let new = to_list t.sending in
    let grow : flow t ≡ flow s ++ new = flow-ingest src datagram s e in
    let len : length (flow t) ≡ suc (length (flow s)) =
      ap (λ (fs : List AudioFrame). length fs) grow ∙ length-append (flow s) new ∙ omega arith in
    let count : inc s.frame_counter ≡ suc (length (flow s)) % 18_446_744_073_709_551_616 =
      omega (arith, h.counter) in
    record {
      in_order =
          ap (map (λ f. f.request_id)) grow
          ∙ map-append (λ f. f.request_id) (flow s) new
          ∙ ap (λ xs. xs ++ request_id_of (inc s.frame_counter) ∷ []) h.in_order
          ∙ ap (λ (k : ℕ). ids (length (flow s)) ++ request_id_of k ∷ []) count
          ∙ ap ids (sym len);
      counter = omega (arith, count, len);
      received = omega (arith, h.received);
    }

module _ (max_batch batch_timeout : ℕ) where
  Step-InOrder :
      {s t : Shim}
      → Step max_batch batch_timeout s t
      → IsAlive max_batch batch_timeout s
      → InOrder s
      → InOrder t
  unfolding on_closed on_deadline
  Step-InOrder (clock t le) live h = moved refl refl refl h
  Step-InOrder {s} (recv_from src datagram e alive) live h = ingest-InOrder src datagram s e h
  Step-InOrder recv_error live h = h
  Step-InOrder {s} (send f e running few) live h = moved (flow-sent f s e) refl refl h
  Step-InOrder {s} (send_error f e stopped) live h =
      let running = no_send_error max_batch batch_timeout f s live e in cc
  Step-InOrder (drop_tx e) live h = moved refl refl refl h
  Step-InOrder {s} (frame f rest running e) live h =
      let u : Shim = record s { channel = rest } in
      let k = on_frame-Same max_batch batch_timeout f u in
      moved (flow-on_frame max_batch batch_timeout f rest s e) k.counter k.received h
  Step-InOrder {s} (closed running empty dead) live h =
      let k = flush-Same s in
      moved (flow-on_closed max_batch batch_timeout s) k.counter k.received h
  Step-InOrder {s} (deadline running le) live h =
      let k = flush-Same s in
      moved (flow-on_deadline max_batch batch_timeout s) k.counter k.received h

  -- In every run of the shim from its start, each frame received is in a dispatched batch, in the batch,
  -- in the channel or waiting to enter it, exactly once and in the order of arrival, with "req-1",
  -- "req-2" and so on as its id; both counters have counted it, up to 64 bits; and as long as a frame
  -- waits, the dispatcher has not returned, so that no `send` fails.
  pub Steps-InOrder :
      (now : ℕ) {s : Shim}
      → Steps max_batch batch_timeout (init now batch_timeout) s
      → InOrder s × IsAlive max_batch batch_timeout s
  unfolding init
  Steps-InOrder now here = (
    record { in_order = refl; counter = refl; received = refl },
    record { sender = inl refl; receiver = inl refl },
  )
  Steps-InOrder now (later run step) =
      let (order, live) = Steps-InOrder now run in
      (Step-InOrder step live order, Step-IsAlive max_batch batch_timeout step live)
