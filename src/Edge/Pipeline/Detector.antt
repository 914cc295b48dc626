-- ===== src/Edge/Pipeline/Detector.antt =====
-- What `wasm_vad_classify` of vad-edge/src/dpdk_pipeline.c asks of the module that it loads, and answers.
use asr_serve.Base.{
  ℕ, suc, ◌+◌, ◌*◌, ◌/◌, ◌≤◌, ◌<◌, ◌≡◌, refl, sym, ap, ◌∙◌, Bool, true, false, List, [], ◌∷◌, some,
  ltb, ◌==◌, if◌then◌else◌, length, take, length-take, arith,
}
use asr_serve.Base.Int.{ℤ, pos}
use asr_serve.Edge.Word.{u32, signed16}
use asr_serve.Edge.Samples.{decode}
use asr_serve.Edge.Pipeline.{VadModule, wasm_vad_classify}

-- A module that, while it is ready, answers `speaks` for the samples that are written before the call.
pub record IsDetector (speaks : List ℤ → Bool) (detector : VadModule) : Type 1 where
  pub Ready : detector.Instance → Type 0
  pub room :
      {vm : detector.Instance}
      → Ready vm
      → (size : ℕ) × (detector.memory_size vm ≡ some size) × (131_072 ≤ size)
  pub call_answers :
      {vm : detector.Instance} (n : ℕ) (bytes : List ℕ)
      → Ready vm
      → length bytes ≡ 2 * n
      → 0 < n
      → n ≤ 32_768
      → (after : detector.Instance) × Ready after
        × (detector.call 65_536 n (detector.write 65_536 bytes vm)
            ≡ (some (if speaks (decode bytes) then 1 else 0), after))

decode-take : (bytes : List ℕ) → decode (take (length bytes / 2 * 2) bytes) ≡ decode bytes
decode-take [] = refl
decode-take (b ∷ []) = refl
decode-take (low ∷ high ∷ bytes) =
    let halves : suc (suc (length bytes)) / 2 * 2 ≡ suc (suc (length bytes / 2 * 2)) =
      omega arith in
    rw halves (ap (λ xs. signed16 (high * 256 + low) ∷ xs) (decode-take bytes))

abbrev pub bit : Bool → ℕ
bit b = if b then 1 else 0

verdict : (b : Bool) → bit b ≡ (if bit b == 0 then 0 else 1)
verdict true = refl
verdict false = refl

module _ {speaks : List ℤ → Bool} {detector : VadModule} (laws : IsDetector speaks detector) where
  open laws use {Ready, room, call_answers}

  pub classify-speaks :
      (payload : List ℕ) (vm : detector.Instance)
      → Ready vm
      → 2 ≤ length payload
      → length payload ≤ 65_537
      → (after : detector.Instance) × Ready after
        × (wasm_vad_classify detector payload (length payload / 2) vm
            ≡ (pos (bit (speaks (decode payload))), after))
  unfolding wasm_vad_classify
  classify-speaks payload vm ready big small =
      let n = length payload / 2 in
      let (size, sized, roomy) = room ready in
      let (after, ready', called) =
        call_answers n (take (n * 2) payload) ready
          (length-take (n * 2) payload (omega arith) ∙ omega arith) (omega arith) (omega arith) in
      let fits : ltb size (65_536 + n * 2) ≡ false = ground arith in
      let narrow : u32 n ≡ n = omega arith in
      (
        after,
        ready',
        rw (wasm_vad_classify, sized, fits, narrow, called, decode-take payload)
            (ap (λ (k : ℕ). (pos k, after)) (sym (verdict (speaks (decode payload))))),
      )
