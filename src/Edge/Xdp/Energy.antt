-- ===== src/Edge/Xdp/Energy.antt =====
-- The energy that the loop of vad-edge/src/xdp_vad.c adds up.
use asr_serve.Base.{
  ℕ, zero, suc, ◌+◌, ◌*◌, ◌≤◌, ◌<◌, ◌≡◌, ap, ◌∙◌, List, [], ◌∷◌, some, length, arith, ltb, false,
}
use asr_serve.Base.Sums.{total}
use asr_serve.Edge.Word.{magnitude, magnitude-signed16, signed16, u32}
use asr_serve.Edge.Samples.{Memory, sample_at, decode, Holds, sample_at-Holds}
use asr_serve.Edge.Xdp.{energy_from}

module _ (read : Memory) (data_end audio_start : ℕ) where
  -- While every sample is there, the 32-bit sum is the sum of the magnitudes.
  pub energy_from-total :
      (left i a energy : ℕ) (bytes : List ℕ)
      → a ≡ audio_start + 2 * i
      → Holds read a bytes
      → length bytes ≡ 2 * left
      → a + 2 * left ≤ data_end
      → energy + 32_768 * left < 4_294_967_296
      → energy_from read data_end audio_start left i energy
        ≡ some (energy + total magnitude (decode bytes))
  unfolding energy_from
  energy_from-total zero i a energy [] at h e fits small = ap some (omega arith)
  energy_from-total zero i a energy (b ∷ bytes) at h e fits small = absurd (omega arith)
  energy_from-total (suc left) i a energy [] at h e fits small = absurd (omega arith)
  energy_from-total (suc left) i a energy (b ∷ []) at h e fits small = absurd (omega arith)
  energy_from-total (suc left) i a energy (low ∷ high ∷ bytes) at h e fits small =
      let x = magnitude (signed16 (high * 256 + low)) in
      let bounded : x ≤ 32_768 = magnitude-signed16 (high * 256 + low) in
      let rest =
        energy_from-total left (i + 1) (suc (suc a)) (energy + x) bytes (omega arith) h.1.1
          (omega arith) (omega arith) (omega arith) in
      let inside : ltb data_end (audio_start + 2 * (i + 1)) ≡ false = ground arith in
      let here : sample_at read (audio_start + 2 * i) ≡ some (signed16 (high * 256 + low)) =
        rw (← at) (sample_at-Holds read a low high bytes h) in
      let small' : u32 (energy + x) ≡ energy + x = omega arith in
      rw (inside, here, small') (rest ∙ ap some (omega arith))
