-- ===== src/Dynamo/Shim/Waiting.antt =====
-- How long a frame stays in the batch of dynamo-orchestration/src/main.rs.
use mathlib.Core.List.{append-nil, append_assoc}
use mathlib.Core.Path.{subst}
use asr_serve.Base.{
  ℕ, ◌+◌, ◌≤◌, ◌≡◌, ◌⊎◌, inl, inr, refl, sym, ap, ◌∙◌, List, [], ◌∷◌, ◌++◌, true, leb, Bool-cases,
  length,
}
use asr_serve.Dynamo.Shim.{
  AudioFrame, Shim, init, ingest, dispatch_batch, flush, flush_of, on_frame, on_closed, on_deadline,
  Step, Steps, here, later, clock, recv_from, recv_error, send, send_error, drop_tx, frame, closed,
  deadline,
}
use asr_serve.Dynamo.Shim.Batches.{Steps-IsBatching}

-- The frames went out together, in one batch, perhaps with later ones.
pub record WentOut (frames : List AudioFrame) (before after : List (List AudioFrame)) : Type 0 where
  pub more : List AudioFrame
  pub later_batches : List (List AudioFrame)
  pub together : after ≡ before ++ (frames ++ more) ∷ later_batches

-- the frames are still first in the batch
pub record IsWaiting (frames : List AudioFrame) (due : ℕ) (before : List (List AudioFrame))
    (s : Shim) : Type 0 where
  pub behind : List AudioFrame
  pub first : s.batch ≡ frames ++ behind
  pub dispatched : s.batches ≡ before
  pub due_by : s.deadline ≤ due
  pub running : s.running ≡ true

WentOut-grow :
    {frames : List AudioFrame} {before after : List (List AudioFrame)}
    (extra : List (List AudioFrame))
    → WentOut frames before after
    → WentOut frames before (after ++ extra)
WentOut-grow {frames} {before} extra w = record {
  more = w.more;
  later_batches = w.later_batches ++ extra;
  together =
      ap (λ bs. bs ++ extra) w.together
      ∙ append_assoc before ((frames ++ w.more) ∷ w.later_batches) extra;
}

WentOut-flush :
    {frames : List AudioFrame} {before : List (List AudioFrame)} (s : Shim)
    → WentOut frames before s.batches
    → WentOut frames before (flush s).batches
unfolding dispatch_batch
WentOut-flush {frames} {before} s w = by_batch s.batch
  where
    by_batch : (b : List AudioFrame) → WentOut frames before (flush_of b s).batches
    by_batch [] = w
    by_batch (f ∷ fs) = WentOut-grow (s.batch ∷ []) w

-- a batch that begins with the frames goes out
sent_out :
    {frames : List AudioFrame} {before : List (List AudioFrame)} (behind : List AudioFrame)
    (s : Shim)
    → s.batch ≡ frames ++ behind
    → s.batches ≡ before
    → WentOut frames before (dispatch_batch s).batches
unfolding dispatch_batch
sent_out {before} behind s e g = record {
  more = behind;
  later_batches = [];
  together = ap (λ bs. bs ++ s.batch ∷ []) g ∙ ap (λ b. before ++ b ∷ []) e;
}

flush_out :
    {f : AudioFrame} {fs : List AudioFrame} {before : List (List AudioFrame)}
    (behind : List AudioFrame) (s : Shim)
    → s.batch ≡ f ∷ fs ++ behind
    → s.batches ≡ before
    → WentOut (f ∷ fs) before (flush s).batches
flush_out {f} {fs} {before} behind s e g = by_batch s.batch e
  where
    by_batch :
        (b : List AudioFrame)
        → b ≡ f ∷ fs ++ behind
        → WentOut (f ∷ fs) before (flush_of b s).batches
    by_batch [] h = cc
    by_batch (x ∷ xs) h = sent_out behind s e g

module _ (max_batch batch_timeout : ℕ) (due : ℕ) (f : AudioFrame) (fs : List AudioFrame)
    (before : List (List AudioFrame)) where
  -- either of the two
  abbrev Progress : Shim → Type 0
  Progress s = WentOut (f ∷ fs) before s.batches ⊎ IsWaiting (f ∷ fs) due before s

  kept :
      {s t : Shim}
      → t.batch ≡ s.batch
      → t.batches ≡ s.batches
      → t.deadline ≡ s.deadline
      → t.running ≡ s.running
      → Progress s
      → Progress t
  kept b bs d r (inl w) = inl (subst (WentOut (f ∷ fs) before) (sym bs) w)
  kept b bs d r (inr w) = inr (record {
    behind = w.behind;
    first = b ∙ w.first;
    dispatched = bs ∙ w.dispatched;
    due_by = subst (λ x. x ≤ due) (sym d) w.due_by;
    running = r ∙ w.running;
  })

  on_frame-Progress :
      (g : AudioFrame) (rest : List AudioFrame) (s : Shim)
      → Progress s
      → Progress (on_frame max_batch batch_timeout g (record s { channel = rest }))
  unfolding on_frame
  on_frame-Progress g rest s (inl w) =
      elim (Bool-cases (leb max_batch (length (s.batch ++ g ∷ [])))) [
        | inl full ↦
            rw full (inl (unfold dispatch_batch in WentOut-grow ((s.batch ++ g ∷ []) ∷ []) w))
        | inr free ↦ rw free (inl w)
      ]
  on_frame-Progress g rest s (inr w) =
      let behind : List AudioFrame = w.behind ++ g ∷ [] in
      let grown : s.batch ++ g ∷ [] ≡ f ∷ fs ++ behind =
        ap (λ b. b ++ g ∷ []) w.first ∙ append_assoc (f ∷ fs) w.behind (g ∷ []) in
      elim (Bool-cases (leb max_batch (length (s.batch ++ g ∷ [])))) [
        | inl full ↦ rw full (
            inl (
              sent_out behind (record s { channel = rest; batch = s.batch ++ g ∷ [] }) grown
                w.dispatched))
        | inr free ↦ rw free (
            inr (record {
              behind = behind;
              first = grown;
              dispatched = w.dispatched;
              due_by = w.due_by;
              running = w.running;
            }))
      ]

  flush-WentOut : (s : Shim) → Progress s → WentOut (f ∷ fs) before (flush s).batches
  flush-WentOut s (inl w) = WentOut-flush s w
  flush-WentOut s (inr w) = flush_out w.behind s w.first w.dispatched

  Step-Progress : {s t : Shim} → Step max_batch batch_timeout s t → Progress s → Progress t
  unfolding ingest on_deadline on_closed
  Step-Progress (clock t le) p = kept refl refl refl refl p
  Step-Progress (recv_from src datagram e alive) p = kept refl refl refl refl p
  Step-Progress recv_error p = p
  Step-Progress (send g e running few) p = kept refl refl refl refl p
  Step-Progress (send_error g e stopped) p = kept refl refl refl refl p
  Step-Progress (drop_tx e) p = kept refl refl refl refl p
  Step-Progress {s} (frame g rest running e) p = on_frame-Progress g rest s p
  Step-Progress {s} (closed running empty dead) p = inl (flush-WentOut s p)
  Step-Progress {s} (deadline running le) p = inl (flush-WentOut s p)

  Steps-Progress : {s t : Shim} → Steps max_batch batch_timeout s t → Progress s → Progress t
  Steps-Progress here p = p
  Steps-Progress (later run step) p = Step-Progress step (Steps-Progress run p)

-- Let the shim stand, in a run from its start, with frames in the batch and the dispatcher running. After
-- any further steps either those frames have gone out together, as the start of one batch and after
-- the batches before it, or they are still the start of the batch, the dispatcher runs and its deadline is
-- at most `batch_timeout` after the time when they stood there; and that deadline's arm, once it
-- is taken, sends them out.
pub pending_batch :
    (max_batch batch_timeout now : ℕ) {s t : Shim} (f : AudioFrame) (fs : List AudioFrame)
    → Steps max_batch batch_timeout (init now batch_timeout) s
    → s.batch ≡ f ∷ fs
    → s.running ≡ true
    → Steps max_batch batch_timeout s t
    → (WentOut (f ∷ fs) s.batches t.batches
        ⊎ IsWaiting (f ∷ fs) (s.now + batch_timeout) s.batches t)
      × WentOut (f ∷ fs) s.batches (on_deadline max_batch batch_timeout t).batches
unfolding on_deadline
pending_batch max_batch batch_timeout now {s} {t} f fs start e running run =
    let first : IsWaiting (f ∷ fs) (s.now + batch_timeout) s.batches s = record {
      behind = [];
      first = e ∙ sym (append-nil (f ∷ fs));
      dispatched = refl;
      due_by = (Steps-IsBatching max_batch batch_timeout now start).soon;
      running = running;
    } in
    let p =
      Steps-Progress max_batch batch_timeout (s.now + batch_timeout) f fs s.batches run
        (inr first) in
    (p, flush-WentOut max_batch batch_timeout (s.now + batch_timeout) f fs s.batches t p)
