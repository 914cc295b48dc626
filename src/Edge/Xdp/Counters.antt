-- ===== src/Edge/Xdp/Counters.antt =====
-- The counters of vad-edge/src/xdp_vad.c over any number of frames on one CPU.
use asr_serve.Base.{ℕ, suc, ◌+◌, ◌≤◌, ◌<◌, ◌≡◌, refl, List, [], ◌∷◌, Option, some, length, arith}
use asr_serve.Base.Loops.{◌>>=◌}
use asr_serve.Base.Sums.{total}
use asr_serve.Edge.Xdp.{
  VadStats, Exit, ignored, malformed, silence, speech, Action, xdp_pass, inc, leave, xdp_vad_prog,
}
use asr_serve.Edge.Xdp.Frames.{Decides, on_ethernet-Outcome}

pub record Frame : Type 0 where
  pub packet : List ℕ
  pub rx_queue_index : ℕ

abbrev pub no_stats : VadStats
no_stats = record { pkts_total = 0; pkts_speech = 0; pkts_silence = 0; pkts_malformed = 0 }

-- Which counter a frame raises beside the total, by the way in which it leaves.
abbrev pub is_speech : Exit → ℕ
is_speech ignored = 0
is_speech malformed = 0
is_speech silence = 0
is_speech speech = 1

abbrev pub is_silence : Exit → ℕ
is_silence ignored = 0
is_silence malformed = 0
is_silence silence = 1
is_silence speech = 0

abbrev pub is_malformed : Exit → ℕ
is_malformed ignored = 0
is_malformed malformed = 1
is_malformed silence = 0
is_malformed speech = 0

module _ (redirect_map : ℕ → Action → Action) where
  -- The program on a frame, while its counters are there: no read is out of the frame. A frame that
  -- carries a whole chunk of audio to one of the ports leaves as speech if the magnitudes of its samples
  -- sum to more than 2048, else as silence; every other frame leaves otherwise.
  pub xdp_vad_prog-Decides :
      (queue : ℕ) (packet : List ℕ) (stats : VadStats)
      → (way : Exit) × (xdp_vad_prog redirect_map queue packet (some stats) ≡ (
          let (action, after) =
            leave redirect_map queue way (record stats { pkts_total = inc stats.pkts_total }) in
          some (action, some after)))
        × Decides packet way
  unfolding xdp_vad_prog
  xdp_vad_prog-Decides queue packet stats =
      let (way, ran, decides) = on_ethernet-Outcome packet in (way, rw ran, decides)

  -- the frames one after the other, with what each returns
  abbrev pub run_frames : List Frame → VadStats → Option (List Action × VadStats)
  run_frames [] stats = some ([], stats)
  run_frames (f ∷ fs) stats = do
    (action, after) ← xdp_vad_prog redirect_map f.rx_queue_index f.packet (some stats)
    stats' ← after
    (actions, last) ← run_frames fs stats'
    some (action ∷ actions, last)

  -- A speech frame goes where the map says for its queue, every other one to the kernel.
  abbrev pub destination : ℕ → Exit → Action
  destination queue ignored = xdp_pass
  destination queue malformed = xdp_pass
  destination queue silence = xdp_pass
  destination queue speech = redirect_map queue xdp_pass

  -- Each frame leaves in the way that its bytes decide, and has the action of that way.
  abbrev pub AllDecided : List Frame → List Exit → List Action → Type 0
  AllDecided [] [] [] = Unit
  AllDecided [] [] (a ∷ actions) = ⊥
  AllDecided [] (w ∷ ways) actions = ⊥
  AllDecided (f ∷ fs) [] actions = ⊥
  AllDecided (f ∷ fs) (w ∷ ways) [] = ⊥
  AllDecided (f ∷ fs) (w ∷ ways) (a ∷ actions) =
      Decides f.packet w × (a ≡ destination f.rx_queue_index w) × AllDecided fs ways actions

  -- what `n` frames that leave in the given ways make of the counters, when none wraps around
  pub record IsCounted (n : ℕ) (ways : List Exit) (before after : VadStats) : Type 0 where
    pub all_frames : after.pkts_total ≡ before.pkts_total + n
    pub speech_frames : after.pkts_speech ≡ before.pkts_speech + total is_speech ways
    pub silence_frames : after.pkts_silence ≡ before.pkts_silence + total is_silence ways
    pub malformed_frames : after.pkts_malformed ≡ before.pkts_malformed + total is_malformed ways
    pub parts : after.pkts_speech + after.pkts_silence + after.pkts_malformed ≤ after.pkts_total

  IsCounted-cons :
      {n : ℕ} {s t u : VadStats} {w : Exit} {ways : List Exit}
      → IsCounted 1 (w ∷ []) s t
      → IsCounted n ways t u
      → IsCounted (suc n) (w ∷ ways) s u
  IsCounted-cons one rest =
      let all = one.all_frames in
      let all' = rest.all_frames in
      let loud = one.speech_frames in
      let loud' = rest.speech_frames in
      let still = one.silence_frames in
      let still' = rest.silence_frames in
      let bad = one.malformed_frames in
      let bad' = rest.malformed_frames in
      record {
        all_frames = omega arith;
        speech_frames = omega arith;
        silence_frames = omega arith;
        malformed_frames = omega arith;
        parts = rest.parts;
      }

  -- the counters and the action after a frame that leaves in some way
  abbrev left : Exit → ℕ → VadStats → Action × VadStats
  left way queue s = leave redirect_map queue way (record s { pkts_total = inc s.pkts_total })

  left-destination :
      (way : Exit) (queue : ℕ) (s : VadStats) → (left way queue s).0 ≡ destination queue way
  unfolding leave
  left-destination ignored queue s = refl
  left-destination malformed queue s = refl
  left-destination silence queue s = refl
  left-destination speech queue s = refl

  left-IsCounted :
      (way : Exit) (queue : ℕ) (s : VadStats)
      → s.pkts_total < 18_446_744_073_709_551_615
      → s.pkts_speech + s.pkts_silence + s.pkts_malformed ≤ s.pkts_total
      → IsCounted 1 (way ∷ []) s (left way queue s).1
  unfolding leave
  left-IsCounted ignored queue s small h = record {
    all_frames = omega arith;
    speech_frames = omega arith;
    silence_frames = omega arith;
    malformed_frames = omega arith;
    parts = omega arith;
  }
  left-IsCounted malformed queue s small h = record {
    all_frames = omega arith;
    speech_frames = omega arith;
    silence_frames = omega arith;
    malformed_frames = omega arith;
    parts = omega arith;
  }
  left-IsCounted silence queue s small h = record {
    all_frames = omega arith;
    speech_frames = omega arith;
    silence_frames = omega arith;
    malformed_frames = omega arith;
    parts = omega arith;
  }
  left-IsCounted speech queue s small h = record {
    all_frames = omega arith;
    speech_frames = omega arith;
    silence_frames = omega arith;
    malformed_frames = omega arith;
    parts = omega arith;
  }

  pub run_frames-IsCounted :
      (frames : List Frame) (s : VadStats)
      → s.pkts_total + length frames < 18_446_744_073_709_551_616
      → s.pkts_speech + s.pkts_silence + s.pkts_malformed ≤ s.pkts_total
      → (ways : List Exit) × (actions : List Action) × (after : VadStats) × (run_frames frames s
          ≡ some (actions, after))
        × AllDecided frames ways actions
        × IsCounted (length frames) ways s after
  run_frames-IsCounted [] s small h = (
    [],
    [],
    s,
    refl,
    tt,
    record {
      all_frames = omega arith;
      speech_frames = omega arith;
      silence_frames = omega arith;
      malformed_frames = omega arith;
      parts = h;
    },
  )
  run_frames-IsCounted (f ∷ fs) s small h =
      let (way, ran, decides) = xdp_vad_prog-Decides f.rx_queue_index f.packet s in
      let c = left-IsCounted way f.rx_queue_index s (omega arith) h in
      let (ways, actions, last, rest, decided, c') =
        run_frames-IsCounted fs (left way f.rx_queue_index s).1
          (let t = c.all_frames in omega arith) c.parts in
      (
        way ∷ ways,
        (left way f.rx_queue_index s).0 ∷ actions,
        last,
        rw (ran, rest),
        (decides, left-destination way f.rx_queue_index s, decided),
        IsCounted-cons c c',
      )
