-- ===== src/Edge/Wasm.antt =====
-- vad-edge/wasm/vad_module.wat: the voice detector. An i32 or i64 is its bit pattern, a number below
-- 2 ^ 32 or 2 ^ 64; the thresholds and samples, which are compared with their signs, are integers.
-- `none` is a trap.
pub mod Decision
pub mod Module
use asr_serve.Base.{
  ℕ, zero, suc, ◌+◌, ◌*◌, ◌/◌, ◌%◌, Bool, true, false, ◌||◌, Option, none, some, ltb, if◌then◌else◌,
}
use asr_serve.Base.Int.{ℤ, pos, ltb_ℤ}
use asr_serve.Base.Loops.{◌>>=◌}
use asr_serve.Edge.Word.{u32, u64, signed32, word32, magnitude, signs_differ}
use asr_serve.Edge.Samples.{Memory, sample_at}

-- the exported memory, in bytes, and the two globals
pub record Instance : Type 0 where
  pub size : ℕ
  pub bytes : ℕ → ℕ
  pub energy_threshold : ℤ
  pub zcr_threshold : ℤ

-- A load outside of the memory traps.
abbrev pub load : Instance → Memory
load vm a = if ltb a vm.size then some (vm.bytes a) else none

pub record Sums : Type 0 where
  pub energy : ℕ
  pub zcr : ℕ
  pub prev : ℤ

abbrev pub add_sample : ℤ → Sums → Sums
add_sample sample s = record {
  energy = u64 (s.energy + magnitude sample);
  zcr = if signs_differ sample s.prev then u32 (s.zcr + 1) else s.zcr;
  prev = sample;
}

-- The loop at index `i`, with `left` rounds to go.
pub accumulate : Memory → ℕ → ℕ → ℕ → Sums → Option Sums
accumulate read ptr zero i s = some s
accumulate read ptr (suc left) i s = do
  sample ← sample_at read (u32 (ptr + u32 (i * 2)))
  accumulate read ptr left (i + 1) (add_sample sample s)

abbrev pub decide : Instance → ℕ → Sums → ℕ
decide vm n_samples s =
    let avg_e = u32 (s.energy / n_samples) in
    let zcr100 = u32 (s.zcr * 100) / n_samples in
    if ltb_ℤ vm.energy_threshold (signed32 avg_e) || ltb_ℤ vm.zcr_threshold (signed32 zcr100)
    then 1
    else 0

pub vad_classify : ℕ → ℕ → Instance → Option ℕ
vad_classify ptr n_samples vm =
    if ltb_ℤ (pos 0) (signed32 n_samples)
    then (do
      s ← accumulate (load vm) ptr n_samples 0 (record { energy = 0; zcr = 0; prev = pos 0 })
      some (decide vm n_samples s))
    else some 0

abbrev pub set_energy_threshold : ℤ → Instance → Instance
set_energy_threshold t vm = record vm { energy_threshold = t }

abbrev pub set_zcr_threshold : ℤ → Instance → Instance
set_zcr_threshold t vm = record vm { zcr_threshold = t }
