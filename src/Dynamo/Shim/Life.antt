-- ===== src/Dynamo/Shim/Life.antt =====
-- Which end of the channel of dynamo-orchestration/src/main.rs is still held.
use asr_serve.Base.{
  ℕ, ◌≡◌, refl, ◌∙◌, ◌⊎◌, inl, inr, List, [], ◌∷◌, ◌++◌, none, some, true, false, leb, Bool-cases,
  length,
}
use asr_serve.Dynamo.Shim.{
  AudioFrame, Shim, ingest, dispatch_batch, flush, flush_of, on_frame, on_closed, on_deadline, Step,
  clock, recv_from, recv_error, send, send_error, drop_tx, frame, closed, deadline,
}

-- what the arms of the dispatcher leave as it is
pub record Same (s t : Shim) : Type 0 where
  pub now : t.now ≡ s.now
  pub counter : t.frame_counter ≡ s.frame_counter
  pub received : t.frames_received ≡ s.frames_received
  pub sending : t.sending ≡ s.sending
  pub alive : t.tx_alive ≡ s.tx_alive
  pub channel : t.channel ≡ s.channel

dispatch_batch-Same : (s : Shim) → Same s (dispatch_batch s)
unfolding dispatch_batch
dispatch_batch-Same s = record {
  now = refl;
  counter = refl;
  received = refl;
  sending = refl;
  alive = refl;
  channel = refl;
}

flush_of-Same : (b : List AudioFrame) (s : Shim) → Same s (flush_of b s)
flush_of-Same [] s = record {
  now = refl;
  counter = refl;
  received = refl;
  sending = refl;
  alive = refl;
  channel = refl;
}
flush_of-Same (f ∷ fs) s = dispatch_batch-Same s

pub flush-Same : (s : Shim) → Same s (flush s)
flush-Same s = flush_of-Same s.batch s

pub flush-running : (s : Shim) → (flush s).running ≡ s.running
unfolding dispatch_batch
flush-running s = by_batch s.batch
  where
    by_batch : (b : List AudioFrame) → (flush_of b s).running ≡ s.running
    by_batch [] = refl
    by_batch (f ∷ fs) = refl

pub flush-batch : (s : Shim) → (flush s).batch ≡ []
unfolding dispatch_batch
flush-batch s = by_batch s.batch refl
  where
    by_batch : (b : List AudioFrame) → s.batch ≡ b → (flush_of b s).batch ≡ []
    by_batch [] e = e
    by_batch (f ∷ fs) e = refl

module _ (max_batch batch_timeout : ℕ) where
  pub on_frame-Same : (f : AudioFrame) (s : Shim) → Same s (on_frame max_batch batch_timeout f s)
  unfolding on_frame dispatch_batch
  on_frame-Same f s = elim (Bool-cases (leb max_batch (length (s.batch ++ f ∷ [])))) [
    | inl e ↦ rw e (record {
      now = refl;
      counter = refl;
      received = refl;
      sending = refl;
      alive = refl;
      channel = refl;
    })
    | inr e ↦ rw e (record {
      now = refl;
      counter = refl;
      received = refl;
      sending = refl;
      alive = refl;
      channel = refl;
    })
  ]

  on_frame-running :
      (f : AudioFrame) (s : Shim) → (on_frame max_batch batch_timeout f s).running ≡ s.running
  unfolding on_frame dispatch_batch
  on_frame-running f s = elim (Bool-cases (leb max_batch (length (s.batch ++ f ∷ [])))) [
    | inl e ↦ rw e refl
    | inr e ↦ rw e refl
  ]

  -- A frame waits only while its task holds its end; and the dispatcher returns only when that end is
  -- gone, with nothing left in the channel or the batch.
  pub record IsAlive (s : Shim) : Type 0 where
    pub sender : (s.sending ≡ none) ⊎ (s.tx_alive ≡ true)
    pub receiver : (s.running ≡ true) ⊎ ((s.tx_alive ≡ false) × (s.channel ≡ []) × (s.batch ≡ []))

  -- The receiver is there as long as a frame waits, so that no `send` fails.
  pub no_send_error :
      (f : AudioFrame) (s : Shim) → IsAlive s → s.sending ≡ some f → s.running ≡ true
  no_send_error f s h e = elim h.sender [
    | inl gone ↦ cc
    | inr alive ↦ elim h.receiver [ inl r ↦ r | inr (dead, _, _) ↦ cc ]
  ]

  pub Step-IsAlive : {s t : Shim} → Step max_batch batch_timeout s t → IsAlive s → IsAlive t
  unfolding ingest on_deadline on_closed
  Step-IsAlive (clock t le) h = record { sender = h.sender; receiver = h.receiver }
  Step-IsAlive (recv_from src datagram e alive) h = record {
    sender = inr alive;
    receiver = h.receiver;
  }
  Step-IsAlive recv_error h = h
  Step-IsAlive (send f e running few) h = record { sender = inl refl; receiver = inl running }
  Step-IsAlive (send_error f e stopped) h = record { sender = inl refl; receiver = h.receiver }
  Step-IsAlive {s} (drop_tx e) h = record {
    sender = inl e;
    receiver = elim h.receiver [
      | inl r ↦ inl r
      | inr (_, empty, none_left) ↦ inr (refl, empty, none_left)
    ];
  }
  Step-IsAlive {s} (frame f rest running e) h =
      let u : Shim = record s { channel = rest } in
      let k = on_frame-Same f u in
      record {
        sender = elim h.sender [ inl g ↦ inl (k.sending ∙ g) | inr a ↦ inr (k.alive ∙ a) ];
        receiver = inl (on_frame-running f u ∙ running);
      }
  Step-IsAlive {s} (closed running empty dead) h =
      let k = flush-Same s in
      record {
        sender = elim h.sender [ inl g ↦ inl (k.sending ∙ g) | inr a ↦ inr (k.alive ∙ a) ];
        receiver = inr (k.alive ∙ dead, k.channel ∙ empty, flush-batch s);
      }
  Step-IsAlive {s} (deadline running le) h =
      let k = flush-Same s in
      record {
        sender = elim h.sender [ inl g ↦ inl (k.sending ∙ g) | inr a ↦ inr (k.alive ∙ a) ];
        receiver = inl (flush-running s ∙ running);
      }
