-- ===== src/Tests/Edge.antt =====
-- The theorems on the voice detection at the edge at concrete inputs.
use asr_serve.Base.{
  ℕ, zero, suc, ◌≡◌, refl, arith, true, false, ◌&&◌, List, [], ◌∷◌, ◌++◌, some, if◌then◌else◌,
}
use asr_serve.Base.Int.{pos}
use asr_serve.Edge.Samples.{decode}
use asr_serve.Edge.Xdp.{
  Exit, Action, xdp_redirect, inc, leave, xdp_vad_prog, energy_from, energy_above_threshold,
  on_ethernet,
}
use asr_serve.Edge.Xdp.Frames.{Decides}
use asr_serve.Edge.Xdp.Counters.{Frame, no_stats, xdp_vad_prog-Decides}
use asr_serve.Edge.Wasm.{Instance, vad_classify}
use asr_serve.Edge.Wasm.Decision.{speaks, vad_classify-speaks}
use asr_serve.Edge.Wasm.Module.{instantiate, wasm_module, HasThresholds, wasm_module-IsDetector}
use asr_serve.Edge.Pipeline.{Arrival, Turn, PipelineCtx, receive, pipeline_run}
use asr_serve.Edge.Pipeline.Delivery.{Delivered, IsFrames}
use asr_serve.Edge.Pipeline.Run.{seen, pipeline_run-Delivered}
use asr_serve.Edge.Path.{heard, receive-redirected}

abbrev repeat : {A : Type 0} → ℕ → List A → List A
repeat zero xs = []
repeat (suc n) xs = xs ++ repeat n xs

-- a frame to port 5000 with 320 samples of 1000
abbrev loud : List ℕ
loud =
    repeat 12 (0 ∷ [])
    ++ (8 ∷ 0 ∷ [])
    ++ (69 ∷ repeat 8 (0 ∷ []))
    ++ (17 ∷ repeat 12 (0 ∷ []))
    ++ (19 ∷ 136 ∷ repeat 16 (0 ∷ []))
    ++ repeat 320 (232 ∷ 3 ∷ [])

abbrev redirect_map : ℕ → Action → Action
redirect_map queue flags = xdp_redirect

loud_is_redirected :
    xdp_vad_prog redirect_map 0 loud (some no_stats)
    ≡ some (
      xdp_redirect,
      some (record { pkts_total = 1; pkts_speech = 1; pkts_silence = 0; pkts_malformed = 0 }),
    )
unfolding xdp_vad_prog energy_from energy_above_threshold on_ethernet leave
loud_is_redirected = refl

xdp_vad_prog-Decides_example :
    (way : Exit) × (xdp_vad_prog redirect_map 0 loud (some no_stats) ≡ (
      let (action, after) = leave redirect_map 0 way (record no_stats { pkts_total = inc 0 }) in
      some (action, some after)))
    × Decides loud way
xdp_vad_prog-Decides_example = xdp_vad_prog-Decides redirect_map 0 loud no_stats

-- a frame of speech and one that is too short
abbrev frames : List Frame
frames =
    record { packet = loud; rx_queue_index = 0 }
    ∷ record { packet = 1 ∷ 2 ∷ []; rx_queue_index = 3 }
    ∷ []

-- The map has an entry for queue 0 only.
abbrev one_queue : ℕ → Action → Action
one_queue zero flags = xdp_redirect
one_queue (suc queue) flags = flags

-- every byte of the memory is 3
abbrev vm : Instance
unfolding instantiate
vm = instantiate (λ a. 3)

vad_classify-speaks_example :
    vad_classify 65_536 2 vm
    ≡ some (if speaks (pos 512) (pos 20) (decode (3 ∷ 3 ∷ 3 ∷ 3 ∷ [])) then 1 else 0)
unfolding instantiate
vad_classify-speaks_example =
    vad_classify-speaks vm 65_536 2 (3 ∷ 3 ∷ 3 ∷ 3 ∷ []) (refl, (refl, (refl, (refl, tt)))) refl
      (omega arith) (omega arith) (omega arith)

abbrev ctx : PipelineCtx wasm_module
ctx = record {
  wasm_instance = vm;
  frames_received = 0;
  frames_speech = 0;
  frames_forwarded = 0;
  sent = [];
  freed = [];
}

abbrev arrival : Arrival
arrival = record { mbuf = record { ident = 1; packet = loud }; tx_accepts = true }

-- The last burst comes after `g_running` is cleared.
abbrev turns : List Turn
turns =
    record {
      g_running = true;
      burst = arrival ∷ record { mbuf = record { ident = 2; packet = [] }; tx_accepts = true } ∷ [];
    }
    ∷ record { g_running = false; burst = arrival ∷ [] }
    ∷ []

ready : HasThresholds (pos 512) (pos 20) vm
unfolding instantiate
ready = record { pages = omega arith; energy = refl; zcr = refl }

turns-IsFrames : IsFrames (wasm_module-IsDetector (pos 512) (pos 20)) (seen turns)
unfolding IsFrames
turns-IsFrames = (omega arith, (omega arith, tt))

pipeline_run-Delivered_example :
    Delivered
      (wasm_module-IsDetector (pos 512) (pos 20))
      (seen turns)
      ctx
      (pipeline_run wasm_module turns ctx)
pipeline_run-Delivered_example =
    pipeline_run-Delivered (wasm_module-IsDetector (pos 512) (pos 20)) turns ctx ready
      turns-IsFrames
      (record { received = omega arith; speech = omega arith; forwarded = omega arith })

receive-redirected_example :
    let passes = heard (pos 512) (pos 20) loud && true in
    ((receive wasm_module arrival ctx).sent ≡ (if passes then arrival.mbuf ∷ [] else []))
    × ((receive wasm_module arrival ctx).freed ≡ (if passes then [] else arrival.mbuf ∷ []))
receive-redirected_example =
    receive-redirected (pos 512) (pos 20) redirect_map 0 no_stats _ arrival ctx loud_is_redirected
      refl (omega arith) ready
      (record { received = omega arith; speech = omega arith; forwarded = omega arith })
