-- ===== src/Edge/Pipeline/Run.antt =====
-- `pipeline_run` of vad-edge/src/dpdk_pipeline.c over any number of rounds.
use asr_serve.Base.{
  ◌≡◌, refl, ◌∙◌, sym, Bool, List, [], ◌∷◌, ◌++◌, length, if◌then◌else◌, Bool-cases, inl, inr,
}
use asr_serve.Base.Int.{ℤ}
use asr_serve.Edge.Pipeline.{
  VadModule, Arrival, Turn, PipelineCtx, receive, receive_all, pipeline_run,
}
use asr_serve.Edge.Pipeline.Detector.{IsDetector}
use asr_serve.Edge.Pipeline.Delivery.{IsFrames, Fits, Delivered, receive_all-Delivered}

-- the buffers received until `g_running` is cleared
abbrev pub seen : List Turn → List Arrival
seen [] = []
seen (t ∷ turns) = let rest = seen turns in if t.g_running then t.burst ++ rest else []

module _ {speaks : List ℤ → Bool} {detector : VadModule} (laws : IsDetector speaks detector) where
  open laws use {Ready}

  receive_all-append :
      (xs ys : List Arrival) (ctx : PipelineCtx detector)
      → receive_all detector (xs ++ ys) ctx ≡ receive_all detector ys (receive_all detector xs ctx)
  receive_all-append [] ys ctx = refl
  receive_all-append (x ∷ xs) ys ctx = receive_all-append xs ys (receive detector x ctx)

  pipeline_run-receive_all :
      (turns : List Turn) (ctx : PipelineCtx detector)
      → pipeline_run detector turns ctx ≡ receive_all detector (seen turns) ctx
  unfolding pipeline_run
  pipeline_run-receive_all [] ctx = refl
  pipeline_run-receive_all (t ∷ turns) ctx = elim (Bool-cases t.g_running) [
    | inl e ↦ rw e (
        pipeline_run-receive_all turns (receive_all detector t.burst ctx)
        ∙ sym (receive_all-append t.burst (seen turns) ctx))
    | inr e ↦ rw e
  ]

  -- With a detector that keeps its laws and is ready, and frames of at most 65591 bytes, while no counter
  -- overflows, the loop ends when `g_running` is cleared, and until then has sent or freed each buffer that it
  -- received exactly once, in order: it sends those that are long enough, that the detector takes for
  -- speech and that the card accepts, and frees the others. `frames_received` counts the buffers;
  -- `frames_speech` and `frames_forwarded` both count those taken for speech, sent or not.
  pub pipeline_run-Delivered :
      (turns : List Turn) (ctx : PipelineCtx detector)
      → Ready ctx.wasm_instance
      → IsFrames laws (seen turns)
      → Fits laws (length (seen turns)) ctx
      → Delivered laws (seen turns) ctx (pipeline_run detector turns ctx)
  pipeline_run-Delivered turns ctx r small h =
      rw (pipeline_run-receive_all turns ctx)
        (receive_all-Delivered laws (seen turns) ctx r small h)
