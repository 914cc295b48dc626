-- ===== src/Edge/Path.antt =====
-- The way of one frame through vad-edge: from the filter of xdp_vad.c by dpdk_pipeline.c to the detector
-- of vad_module.wat, and on to the card.
use asr_serve.Base.{
  ℕ, ◌%◌, ◌≤◌, ◌≡◌, refl, ap, sym, ◌∙◌, Bool, true, false, not, ◌&&◌, List, [], ◌∷◌, ◌++◌, some,
  none, Option, leb, length, drop, map, if◌then◌else◌, arith,
}
use asr_serve.Base.Int.{ℤ}
use asr_serve.Edge.Samples.{decode}
use asr_serve.Edge.Xdp.{
  Exit, ignored, malformed, silence, speech, Action, xdp_pass, xdp_redirect, VadStats, inc, leave,
  xdp_vad_prog,
}
use asr_serve.Edge.Xdp.Frames.{byte_of, audio_offset, Decides}
use asr_serve.Edge.Xdp.Counters.{xdp_vad_prog-Decides}
use asr_serve.Edge.Wasm.Decision.{speaks}
use asr_serve.Edge.Wasm.Module.{wasm_module, HasThresholds, wasm_module-IsDetector}
use asr_serve.Edge.Pipeline.{Arrival, PipelineCtx, receive}
use asr_serve.Edge.Pipeline.Delivery.{Fits, is_speech, receive-Delivered}

abbrev returned : Option (Action × Option VadStats) → Action
returned none = xdp_pass
returned (some (action, after)) = action

module _ (redirect_map : ℕ → Action → Action) where
  of_way :
      (queue : ℕ) (packet : List ℕ) (way : Exit) (s : VadStats)
      → (leave redirect_map queue way s).0 ≡ xdp_redirect
      → Decides packet way
      → Decides packet speech
  unfolding leave
  of_way queue packet ignored s e d = cc
  of_way queue packet malformed s e d = cc
  of_way queue packet silence s e d = cc
  of_way queue packet speech s e d = d

  redirected-Decides :
      (queue : ℕ) (packet : List ℕ) (stats : VadStats) {after : Option VadStats}
      → xdp_vad_prog redirect_map queue packet (some stats) ≡ some (xdp_redirect, after)
      → Decides packet speech
  redirected-Decides queue packet stats e =
      let (way, ran, decides) = xdp_vad_prog-Decides redirect_map queue packet stats in
      of_way queue packet way (record stats { pkts_total = inc stats.pkts_total })
        (sym (ap returned ran) ∙ ap returned e) decides

taken :
    (b : Bool) (a : Arrival)
    → map (λ x. x.mbuf) (if b then a ∷ [] else []) ≡ (if b then a.mbuf ∷ [] else [])
taken true a = refl
taken false a = refl

left_over :
    (b : Bool) (a : Arrival)
    → map (λ x. x.mbuf) (if not b then a ∷ [] else []) ≡ (if b then [] else a.mbuf ∷ [])
left_over true a = refl
left_over false a = refl

module _ (e z : ℤ) where
  -- what the detector says of the audio of a frame, wherever its headers end
  abbrev pub heard : List ℕ → Bool
  heard packet = speaks e z (decode (drop (audio_offset packet) packet))

  hears_audio :
      (a : Arrival)
      → Decides a.mbuf.packet speech
      → byte_of a.mbuf.packet 14 % 16 ≡ 5
      → is_speech (wasm_module-IsDetector e z) a ≡ heard a.mbuf.packet
  hears_audio a d header =
      let whole = (d.of_speech.0 refl).0.complete in
      let at : audio_offset a.mbuf.packet ≡ 54 = omega arith in
      let long : leb 694 (length a.mbuf.packet) ≡ true = ground arith in rw (at, long)

  -- A frame that the filter redirects, whose IPv4 header has no options and which has at most 65591 bytes,
  -- is never dropped as too short: while no counter overflows, the pipeline sends it if the detector
  -- of the file vad_module.wat, with any thresholds and a memory of two pages or more, hears speech in the
  -- frame's audio and the card takes it, and else frees it.
  pub receive-redirected :
      (redirect_map : ℕ → Action → Action) (queue : ℕ) (stats : VadStats) (after : Option VadStats)
      (a : Arrival) (ctx : PipelineCtx wasm_module)
      → xdp_vad_prog redirect_map queue a.mbuf.packet (some stats) ≡ some (xdp_redirect, after)
      → byte_of a.mbuf.packet 14 % 16 ≡ 5
      → length a.mbuf.packet ≤ 65_591
      → HasThresholds e z ctx.wasm_instance
      → Fits (wasm_module-IsDetector e z) 1 ctx
      → let passes = heard a.mbuf.packet && a.tx_accepts in
        ((receive wasm_module a ctx).sent ≡ ctx.sent ++ (if passes then a.mbuf ∷ [] else []))
        × ((receive wasm_module a ctx).freed ≡ ctx.freed ++ (if passes then [] else a.mbuf ∷ []))
  receive-redirected redirect_map queue stats after a ctx redirected header small ready fits =
      let hears =
        hears_audio a (redirected-Decides redirect_map queue a.mbuf.packet stats redirected)
          header in
      let d = receive-Delivered (wasm_module-IsDetector e z) a ctx ready small fits in
      (
        d.sent ∙ ap (λ m. ctx.sent ++ m) (rw hears (taken (heard a.mbuf.packet && a.tx_accepts) a)),
        d.freed
            ∙ ap (λ m. ctx.freed ++ m)
                (rw hears (left_over (heard a.mbuf.packet && a.tx_accepts) a)),
      )
