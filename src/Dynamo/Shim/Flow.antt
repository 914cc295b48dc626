-- ===== src/Dynamo/Shim/Flow.antt =====
-- The frames that the shim of dynamo-orchestration/src/main.rs holds or has dispatched, in order.
use mathlib.Core.List.{append-nil, append_assoc}
use asr_serve.Base.{
  ℕ, ◌≡◌, refl, sym, ap, ◌∙◌, String, List, [], ◌∷◌, ◌++◌, Option, none, some, leb, Bool-cases, inl,
  inr, length,
}
use asr_serve.Dynamo.Shim.{
  AudioFrame, Shim, ingest, sent, dispatch_batch, flush, flush_of, on_frame, on_closed, on_deadline,
}

abbrev pub concat : {A : Type 0} → List (List A) → List A
concat [] = []
concat (xs ∷ xss) = xs ++ concat xss

abbrev pub to_list : {A : Type 0} → Option A → List A
to_list none = []
to_list (some x) = x ∷ []

-- dispatched, in the batch, in the channel, and waiting to enter it
abbrev pub flow : Shim → List AudioFrame
flow s = concat s.batches ++ (s.batch ++ (s.channel ++ to_list s.sending))

concat-snoc :
    {A : Type 0} (xss : List (List A)) (xs : List A) → concat (xss ++ xs ∷ []) ≡ concat xss ++ xs
concat-snoc [] xs = append-nil xs
concat-snoc (ys ∷ xss) xs =
    ap (λ zs. ys ++ zs) (concat-snoc xss xs) ∙ sym (append_assoc ys (concat xss) xs)

pub flow-dispatch_batch : (s : Shim) → flow (dispatch_batch s) ≡ flow s
unfolding dispatch_batch
flow-dispatch_batch s =
    ap (λ xs. xs ++ (s.channel ++ to_list s.sending)) (concat-snoc s.batches s.batch)
    ∙ append_assoc (concat s.batches) s.batch (s.channel ++ to_list s.sending)

pub flow-flush : (s : Shim) → flow (flush s) ≡ flow s
flow-flush s = by_batch s.batch
  where
    by_batch : (b : List AudioFrame) → flow (flush_of b s) ≡ flow s
    by_batch [] = refl
    by_batch (f ∷ fs) = flow-dispatch_batch s

pub flow-sent : (f : AudioFrame) (s : Shim) → s.sending ≡ some f → flow (sent f s) ≡ flow s
flow-sent f s e =
    ap (λ xs. concat s.batches ++ (s.batch ++ xs))
      (append_assoc s.channel (f ∷ []) [] ∙ ap (λ o. s.channel ++ to_list o) (sym e))

pub flow-ingest :
    (src : String) (datagram : List ℕ) (s : Shim)
    → s.sending ≡ none
    → flow (ingest src datagram s) ≡ flow s ++ to_list (ingest src datagram s).sending
unfolding ingest
flow-ingest src datagram s e =
    let new = to_list (ingest src datagram s).sending in
    let start : flow s ≡ concat s.batches ++ (s.batch ++ s.channel) =
      ap (λ o. concat s.batches ++ (s.batch ++ (s.channel ++ to_list o))) e
      ∙ rw (append-nil s.channel) in
    rw start (
      ap (λ xs. concat s.batches ++ xs) (sym (append_assoc s.batch s.channel new))
      ∙ sym (append_assoc (concat s.batches) (s.batch ++ s.channel) new))

module _ (max_batch batch_timeout : ℕ) where
  pub flow-on_frame :
      (f : AudioFrame) (rest : List AudioFrame) (s : Shim)
      → s.channel ≡ f ∷ rest
      → flow (on_frame max_batch batch_timeout f (record s { channel = rest })) ≡ flow s
  unfolding on_frame
  flow-on_frame f rest s e =
      let pushed : Shim = record s { channel = rest; batch = s.batch ++ f ∷ [] } in
      let moved : flow pushed ≡ flow s =
        ap (λ xs. concat s.batches ++ xs)
          (append_assoc s.batch (f ∷ []) (rest ++ to_list s.sending)
            ∙ ap (λ c. s.batch ++ (c ++ to_list s.sending)) (sym e)) in
      elim (Bool-cases (leb max_batch (length pushed.batch))) [
        | inl full ↦ rw full (flow-dispatch_batch pushed ∙ moved)
        | inr p ↦ rw p moved
      ]

  pub flow-on_closed : (s : Shim) → flow (on_closed max_batch batch_timeout s) ≡ flow s
  unfolding on_closed
  flow-on_closed s = flow-flush s

  pub flow-on_deadline : (s : Shim) → flow (on_deadline max_batch batch_timeout s) ≡ flow s
  unfolding on_deadline
  flow-on_deadline s = flow-flush s
