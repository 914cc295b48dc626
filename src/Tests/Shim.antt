-- ===== src/Tests/Shim.antt =====
-- The theorems on the Dynamo shim at a concrete run.
use asr_serve.Base.{refl, arith, ◌⊎◌, true, [], ◌∷◌, none}
use asr_serve.Dynamo.Shim.{
  AudioFrame, Shim, init, ingest, on_frame, on_deadline, dispatch_batch, request_id_of, Steps, here,
  later, clock, recv_from, send, frame, deadline,
}
use asr_serve.Dynamo.Shim.Life.{IsAlive}
use asr_serve.Dynamo.Shim.Order.{InOrder, Steps-InOrder}
use asr_serve.Dynamo.Shim.Batches.{IsBatching, Steps-IsBatching}
use asr_serve.Dynamo.Shim.Waiting.{WentOut, IsWaiting, pending_batch}

abbrev first : AudioFrame
first = record {
  request_id = request_id_of 1;
  src = "10.0.0.1:4000";
  payload = 7 ∷ [];
  received_at = 3;
}

-- A frame arrives at the time 3, enters the channel and is taken into the batch, with batches of 8
-- frames and a timeout of 5.
abbrev arrived : Shim
arrived = record {
  now = 3;
  frame_counter = 1;
  frames_received = 1;
  sending = none;
  tx_alive = true;
  channel = [];
  batch = first ∷ [];
  deadline = 5;
  running = true;
  batches = [];
  batches_sent = 0;
}

run_to_arrived : Steps 8 5 (init 0 5) arrived
unfolding init ingest on_frame
run_to_arrived =
    later
      (later
        (later (later here (clock 3 (omega arith))) (recv_from "10.0.0.1:4000" (7 ∷ []) refl refl))
        (send first refl refl (omega arith)))
      (frame first [] refl refl)

-- The deadline comes at the time 5.
abbrev after : Shim
after = record arrived {
  now = 5;
  batch = [];
  deadline = 10;
  batches = (first ∷ []) ∷ [];
  batches_sent = 1;
}

run_to_after : Steps 8 5 arrived after
unfolding on_deadline dispatch_batch
run_to_after = later (later here (clock 5 (omega arith))) (deadline refl (omega arith))

Steps-InOrder_example : InOrder arrived × IsAlive 8 5 arrived
Steps-InOrder_example = Steps-InOrder 8 5 0 run_to_arrived

Steps-IsBatching_example : IsBatching 8 5 arrived
Steps-IsBatching_example = Steps-IsBatching 8 5 0 run_to_arrived

pending_batch_example :
    (WentOut (first ∷ []) [] ((first ∷ []) ∷ []) ⊎ IsWaiting (first ∷ []) 8 [] after)
    × WentOut (first ∷ []) [] (on_deadline 8 5 after).batches
pending_batch_example = pending_batch 8 5 0 first [] run_to_arrived refl refl run_to_after
