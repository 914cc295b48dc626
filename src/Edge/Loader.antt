-- ===== src/Edge/Loader.antt =====
-- vad-edge/src/vad_loader.c: the sum of the counters of all CPUs, and the modes in which the filter is
-- attached.
pub mod Session
use asr_serve.Base.{
  ℕ, ◌+◌, ◌≤◌, ◌<◌, ◌≡◌, refl, Bool, List, [], ◌∷◌, Option, none, some, map, length, if◌then◌else◌,
  arith,
}
use asr_serve.Base.Sums.{total}
use asr_serve.Edge.Word.{u64}
use asr_serve.Edge.Xdp.{VadStats, Action}
use asr_serve.Edge.Xdp.Counters.{Frame, no_stats, run_frames, run_frames-IsCounted}

pub data Mode : Type 0 where
  drv_mode skb_mode : Mode

-- `bpf_xdp_attach` succeeds in a mode or not; `none` is the exit with EXIT_FAILURE.
abbrev pub attach : (Mode → Bool) → Option Mode
attach bpf_xdp_attach =
    if bpf_xdp_attach drv_mode
    then some drv_mode
    else if bpf_xdp_attach skb_mode
    then some skb_mode
    else none

abbrev pub add : VadStats → VadStats → VadStats
add aggregate value = record {
  pkts_total = u64 (aggregate.pkts_total + value.pkts_total);
  pkts_speech = u64 (aggregate.pkts_speech + value.pkts_speech);
  pkts_silence = u64 (aggregate.pkts_silence + value.pkts_silence);
  pkts_malformed = u64 (aggregate.pkts_malformed + value.pkts_malformed);
}

abbrev pub add_all : VadStats → List VadStats → VadStats
add_all aggregate [] = aggregate
add_all aggregate (value ∷ values) = add_all (add aggregate value) values

-- the figures of the line that is printed, from the values that the lookup gives, if it succeeds
pub print_stats : Option (List VadStats) → Option VadStats
print_stats none = none
print_stats (some values) = some (add_all no_stats values)

module _ (redirect_map : ℕ → Action → Action) where
  -- the counters of a CPU that has handled the frames
  abbrev pub stats_of : List Frame → VadStats
  stats_of frames = elim (run_frames redirect_map frames no_stats) [
    | none ↦ no_stats
    | some (_, s) ↦ s
  ]

  record IsPart (n : ℕ) (s : VadStats) : Type 0 where
    all_frames : s.pkts_total ≡ n
    parts : s.pkts_speech + s.pkts_silence + s.pkts_malformed ≤ s.pkts_total

  stats_of-IsPart :
      (frames : List Frame)
      → length frames < 18_446_744_073_709_551_616
      → IsPart (length frames) (stats_of frames)
  stats_of-IsPart frames small =
      let (ways, actions, after, ran, _, c) =
        run_frames-IsCounted redirect_map frames no_stats (omega arith) (omega arith) in
      let all = c.all_frames in
      rw (stats_of, ran) (record { all_frames = omega arith; parts = c.parts })

  add_all-IsPart :
      (cpus : List (List Frame)) (k : ℕ) (s : VadStats)
      → IsPart k s
      → k + total length cpus < 18_446_744_073_709_551_616
      → IsPart (k + total length cpus) (add_all s (map stats_of cpus))
  add_all-IsPart [] k s h small = record {
    all_frames = let a = h.all_frames in omega arith;
    parts = h.parts;
  }
  add_all-IsPart (frames ∷ cpus) k s h small =
      let p = stats_of-IsPart frames (omega arith) in
      let a = h.all_frames in
      let b = h.parts in
      let c = p.all_frames in
      let d = p.parts in
      let rest =
        add_all-IsPart cpus (k + length frames) (add s (stats_of frames))
          (record { all_frames = omega arith; parts = omega arith }) (omega arith) in
      let e = rest.all_frames in record { all_frames = omega arith; parts = rest.parts }

  -- `print_stats` over the counters of CPUs that started from
  -- 0, with fewer than 2 ^ 64 frames in all, prints the number of all frames as the total, and speech,
  -- silence and malformed frames that sum to no more.
  pub print_stats-run_frames :
      (cpus : List (List Frame))
      → total length cpus < 18_446_744_073_709_551_616
      → (s : VadStats) × (print_stats (some (map stats_of cpus)) ≡ some s)
        × (s.pkts_total ≡ total length cpus)
        × (s.pkts_speech + s.pkts_silence + s.pkts_malformed ≤ s.pkts_total)
  unfolding print_stats
  print_stats-run_frames cpus small =
      let p =
        add_all-IsPart cpus 0 no_stats (record { all_frames = refl; parts = omega arith })
          (omega arith) in
      let a = p.all_frames in (add_all no_stats (map stats_of cpus), refl, omega arith, p.parts)
