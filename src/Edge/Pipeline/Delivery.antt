-- ===== src/Edge/Pipeline/Delivery.antt =====
-- Where the buffers of `pipeline_run` of vad-edge/src/dpdk_pipeline.c go.
use mathlib.Core.List.{append-nil, append_assoc}
use asr_serve.Base.{
  ℕ, suc, ◌+◌, ◌-◌, ◌≤◌, ◌<◌, ◌≡◌, refl, sym, ap, ◌∙◌, Bool, true, false, not, ◌&&◌, List, [], ◌∷◌,
  ◌++◌, map, ltb, leb, length, drop, keep, All, length-drop, length-append, Bool-cases, inl, inr,
  arith,
}
use asr_serve.Base.Int.{ℤ, pos}
use asr_serve.Edge.Word.{u64}
use asr_serve.Edge.Samples.{decode}
use asr_serve.Edge.Pipeline.Detector.{IsDetector, bit, classify-speaks}
use asr_serve.Edge.Pipeline.{
  VadModule, Mbuf, Arrival, PipelineCtx, forward_speech_frame, receive, settle, receive_all,
}

module _ {speaks : List ℤ → Bool} {detector : VadModule} (laws : IsDetector speaks detector) where
  open laws use {Ready}

  -- a buffer that counts as speech: long enough, and the detector says so of what follows 54 bytes
  abbrev pub is_speech : Arrival → Bool
  is_speech a = leb 694 (length a.mbuf.packet) && speaks (decode (drop 54 a.mbuf.packet))

  abbrev pub is_sent : Arrival → Bool
  is_sent a = is_speech a && a.tx_accepts

  abbrev pub buffers : (Arrival → Bool) → List Arrival → List Mbuf
  buffers p burst = map (λ a. a.mbuf) (keep p burst)

  -- what a burst makes of the pipeline's state
  pub record Delivered (burst : List Arrival) (before after : PipelineCtx detector) : Type 0 where
    pub ready : Ready after.wasm_instance
    pub received : after.frames_received ≡ before.frames_received + length burst
    pub speech : after.frames_speech ≡ before.frames_speech + length (keep is_speech burst)
    pub forwarded : after.frames_forwarded ≡ before.frames_forwarded + length (keep is_speech burst)
    pub sent : after.sent ≡ before.sent ++ buffers is_sent burst
    pub freed : after.freed ≡ before.freed ++ buffers (λ a. not (is_sent a)) burst

  -- No counter overflows 64 bits in `n` steps.
  pub record Fits (n : ℕ) (ctx : PipelineCtx detector) : Type 0 where
    pub received : ctx.frames_received + n < 18_446_744_073_709_551_616
    pub speech : ctx.frames_speech + n < 18_446_744_073_709_551_616
    pub forwarded : ctx.frames_forwarded + n < 18_446_744_073_709_551_616

  settled :
      (b : Bool) (vm : detector.Instance) (a : Arrival) (ctx : PipelineCtx detector)
      → Ready vm
      → is_speech a ≡ b
      → Fits 1 ctx
      → Delivered (a ∷ []) ctx (
          settle detector
            (pos (bit b), vm)
            a
            (record ctx { frames_received = u64 (ctx.frames_received + 1) }))
  unfolding forward_speech_frame
  settled false vm a ctx r e h =
      let fits = h.received in
      record {
        ready = r;
        received = omega arith;
        speech = rw e (omega arith);
        forwarded = rw e (omega arith);
        sent = rw e (sym (append-nil ctx.sent));
        freed = rw e refl;
      }
  settled true vm a ctx r e h =
      let f₁ = h.received in
      let f₂ = h.speech in
      let f₃ = h.forwarded in
      elim (Bool-cases a.tx_accepts) [
        | inl t ↦ record {
          ready = rw t r;
          received = rw t (omega arith);
          speech = rw (e, t) (omega arith);
          forwarded = rw (e, t) (omega arith);
          sent = rw (e, t) refl;
          freed = rw (e, t) (sym (append-nil ctx.freed));
        }
        | inr t ↦ record {
          ready = rw t r;
          received = rw t (omega arith);
          speech = rw (e, t) (omega arith);
          forwarded = rw (e, t) (omega arith);
          sent = rw (e, t) (sym (append-nil ctx.sent));
          freed = rw (e, t) refl;
        }
      ]

  pub receive-Delivered :
      (a : Arrival) (ctx : PipelineCtx detector)
      → Ready ctx.wasm_instance
      → length a.mbuf.packet ≤ 65_591
      → Fits 1 ctx
      → Delivered (a ∷ []) ctx (receive detector a ctx)
  unfolding receive
  receive-Delivered a ctx r small h = elim (Bool-cases (ltb (length a.mbuf.packet) 694)) [
    | inl e ↦
        let long : leb 694 (length a.mbuf.packet) ≡ false = ground arith in
        rw e (settled false ctx.wasm_instance a ctx r (rw long refl) h)
    | inr e ↦
        let long : leb 694 (length a.mbuf.packet) ≡ true = ground arith in
        let enough : 694 ≤ length a.mbuf.packet = ground arith in
        let payload = drop 54 a.mbuf.packet in
        let size : length payload ≡ length a.mbuf.packet - 54 = length-drop 54 a.mbuf.packet in
        let (vm, r', says) =
          classify-speaks laws payload ctx.wasm_instance r (omega arith) (omega arith) in
        rw (e, ← size, says) (settled (speaks (decode payload)) vm a ctx r' (rw long refl) h)
  ]

  buffers-append :
      (p : Arrival → Bool) (xs ys : List Arrival)
      → buffers p (xs ++ ys) ≡ buffers p xs ++ buffers p ys
  buffers-append p [] ys = refl
  buffers-append p (x ∷ xs) ys = elim (Bool-cases (p x)) [
    | inl e ↦ rw e (ap (λ rest. x.mbuf ∷ rest) (buffers-append p xs ys))
    | inr e ↦ rw e (buffers-append p xs ys)
  ]

  length-keep-append :
      (p : Arrival → Bool) (xs ys : List Arrival)
      → length (keep p (xs ++ ys)) ≡ length (keep p xs) + length (keep p ys)
  length-keep-append p [] ys = omega arith
  length-keep-append p (x ∷ xs) ys = ground (arith, length-keep-append p xs ys)

  Delivered-append :
      {xs ys : List Arrival} {s t u : PipelineCtx detector}
      → Delivered xs s t
      → Delivered ys t u
      → Delivered (xs ++ ys) s u
  Delivered-append {xs} {ys} {s} {t} {u} one two = record {
    ready = two.ready;
    received = omega (arith, one.received, two.received, length-append xs ys);
    speech = omega (arith, one.speech, two.speech, length-keep-append is_speech xs ys);
    forwarded = omega (arith, one.forwarded, two.forwarded, length-keep-append is_speech xs ys);
    sent = joined is_sent s.sent two.sent one.sent;
    freed = joined (λ a. not (is_sent a)) s.freed two.freed one.freed;
  }
    where
      joined :
          (p : Arrival → Bool) (before : List Mbuf) {mid after : List Mbuf}
          → after ≡ mid ++ buffers p ys
          → mid ≡ before ++ buffers p xs
          → after ≡ before ++ buffers p (xs ++ ys)
      joined p before h g =
          h
          ∙ ap (λ m. m ++ buffers p ys) g
          ∙ append_assoc before (buffers p xs) (buffers p ys)
          ∙ ap (λ m. before ++ m) (sym (buffers-append p xs ys))

  Fits-after :
      {n : ℕ} {a : Arrival} {s t : PipelineCtx detector}
      → Fits (suc n) s
      → Delivered (a ∷ []) s t
      → Fits n t
  Fits-after {n} {a} h d =
      let one : length (keep is_speech (a ∷ [])) ≤ 1 = ground arith in
      record {
        received = omega (arith, h.received, d.received);
        speech = omega (arith, h.speech, d.speech);
        forwarded = omega (arith, h.forwarded, d.forwarded);
      }

  unfoldable pub IsFrames : List Arrival → Type 0
  IsFrames burst = All (λ a. length a.mbuf.packet ≤ 65_591) burst

  pub receive_all-Delivered :
      (burst : List Arrival) (ctx : PipelineCtx detector)
      → Ready ctx.wasm_instance
      → IsFrames burst
      → Fits (length burst) ctx
      → Delivered burst ctx (receive_all detector burst ctx)
  unfolding IsFrames
  receive_all-Delivered [] ctx r small h = record {
    ready = r;
    received = omega arith;
    speech = omega arith;
    forwarded = omega arith;
    sent = sym (append-nil ctx.sent);
    freed = sym (append-nil ctx.freed);
  }
  receive_all-Delivered (a ∷ burst) ctx r small h =
      let first = receive-Delivered a ctx r small.0 (record {
        received = omega (arith, h.received);
        speech = omega (arith, h.speech);
        forwarded = omega (arith, h.forwarded);
      }) in
      Delivered-append first (
        receive_all-Delivered burst (receive detector a ctx) first.ready small.1
          (Fits-after h first))
