-- ===== src/Edge/Wasm/Decision.antt =====
-- What `vad_classify` of vad-edge/wasm/vad_module.wat decides, without machine words.
use asr_serve.Base.{
  ℕ, zero, suc, ◌+◌, ◌*◌, ◌/◌, ◌≤◌, ◌<◌, ◌≡◌, refl, ap, ◌∙◌, Bool, true, false, ◌||◌, List, [], ◌∷◌,
  some, length, if◌then◌else◌, arith,
}
use asr_serve.Base.Int.{ℤ, pos, ltb_ℤ}
use asr_serve.Base.Sums.{total}
use asr_serve.Edge.Word.{
  u32, signed16, signed32, magnitude, magnitude-signed16, is_negative, unequal, signs_differ_lem,
}
use asr_serve.Edge.Samples.{Memory, sample_at, decode, Holds, sample_at-Holds, length-decode}
use asr_serve.Edge.Wasm.{Instance, load, Sums, add_sample, accumulate, vad_classify}

-- how often neighbours have different signs, after `prev`
abbrev pub crossings : ℤ → List ℤ → ℕ
crossings prev [] = 0
crossings prev (x ∷ xs) =
    (if unequal (is_negative x) (is_negative prev) then 1 else 0) + crossings x xs

-- the detector on a list of samples: the mean magnitude, or the crossings in a hundred samples,
-- each rounded down, is above its threshold
abbrev pub speaks : ℤ → ℤ → List ℤ → Bool
speaks energy_threshold zcr_threshold xs =
    ltb_ℤ energy_threshold (pos (total magnitude xs / length xs))
    || ltb_ℤ zcr_threshold (pos (crossings (pos 0) xs * 100 / length xs))

crossings_bound : (prev : ℤ) (xs : List ℤ) → crossings prev xs ≤ length xs
crossings_bound prev [] = omega arith
crossings_bound prev (x ∷ xs) = ground (arith, crossings_bound x xs)

-- the last sample
abbrev last_of : ℤ → List ℤ → ℤ
last_of prev [] = prev
last_of prev (x ∷ xs) = last_of x xs

abbrev sums : ℕ → ℕ → ℤ → Sums
sums e z p = record { energy = e; zcr = z; prev = p }

sums_eq : {e e' z z' : ℕ} {p p' : ℤ} → e ≡ e' → z ≡ z' → p ≡ p' → sums e z p ≡ sums e' z' p'
sums_eq he hz hp = λ i. record { energy = he i; zcr = hz i; prev = hp i }

counted :
    (b : Bool) (z : ℕ)
    → z + 1 < 4_294_967_296
    → (if b then u32 (z + 1) else z) ≡ z + (if b then 1 else 0)
counted true z h = omega arith
counted false z h = omega arith

module _ (read : Memory) (ptr : ℕ) where
  accumulate-total :
      (left i a : ℕ) (bytes : List ℕ) (s : Sums)
      → a ≡ ptr + i * 2
      → Holds read a bytes
      → length bytes ≡ 2 * left
      → a + 2 * left ≤ 4_294_967_296
      → s.energy + 32_768 * left < 18_446_744_073_709_551_616
      → s.zcr + left < 4_294_967_296
      → magnitude s.prev ≤ 32_768
      → accumulate read ptr left i s
        ≡ some (record {
          energy = s.energy + total magnitude (decode bytes);
          zcr = s.zcr + crossings s.prev (decode bytes);
          prev = last_of s.prev (decode bytes);
        })
  unfolding accumulate
  accumulate-total zero i a [] s at h e fits small few prev =
      ap some (sums_eq (omega arith) (omega arith) refl)
  accumulate-total zero i a (b ∷ bytes) s at h e fits small few prev = absurd (omega arith)
  accumulate-total (suc left) i a [] s at h e fits small few prev = absurd (omega arith)
  accumulate-total (suc left) i a (b ∷ []) s at h e fits small few prev = absurd (omega arith)
  accumulate-total (suc left) i a (low ∷ high ∷ bytes) s at h e fits small few prev =
      let x = signed16 (high * 256 + low) in
      let bounded : magnitude x ≤ 32_768 = magnitude-signed16 (high * 256 + low) in
      let here : sample_at read (u32 (ptr + u32 (i * 2))) ≡ some x =
        ap (sample_at read) (omega arith) ∙ sample_at-Holds read a low high bytes h in
      let next = add_sample x s in
      let flips = unequal (is_negative x) (is_negative s.prev) in
      let energy : next.energy ≡ s.energy + magnitude x = omega arith in
      let zcr : next.zcr ≡ s.zcr + (if flips then 1 else 0) =
        rw (signs_differ_lem x s.prev bounded prev) (counted flips s.zcr (omega arith)) in
      let one : (if flips then 1 else 0) ≤ 1 = ground arith in
      let rest =
        accumulate-total left (i + 1) (suc (suc a)) bytes next (omega arith) h.1.1 (omega arith)
          (omega arith) (omega arith) (omega arith) bounded in
      rw here (rest ∙ ap some (sums_eq (omega arith) (omega arith) refl))

decoded_bound : (bytes : List ℕ) → total magnitude (decode bytes) ≤ 32_768 * length (decode bytes)
decoded_bound [] = omega arith
decoded_bound (b ∷ []) = omega arith
decoded_bound (low ∷ high ∷ bytes) =
    omega (arith, decoded_bound bytes, magnitude-signed16 (high * 256 + low))

mean_bound : (t n k : ℕ) → 0 < n → t ≤ k * n → t / n ≤ k
mean_bound t n k h b = grind arith

small_signed : (w : ℕ) → w < 2_147_483_648 → signed32 (u32 w) ≡ pos w
small_signed w h = ground arith

small_signed' : (w : ℕ) → w < 2_147_483_648 → signed32 w ≡ pos w
small_signed' w h = ground arith

-- On `n` samples that memory holds at `ptr`, from one to 42949672 of them and below the end of the
-- address space, the detector does not trap, no sum of it wraps around, and it answers 1 if the mean
-- magnitude or the sign changes in a hundred samples, starting from 0, are above their thresholds, and
-- else 0.
pub vad_classify-speaks :
    (vm : Instance) (ptr n : ℕ) (bytes : List ℕ)
    → Holds (load vm) ptr bytes
    → length bytes ≡ 2 * n
    → 0 < n
    → n ≤ 42_949_672
    → ptr + 2 * n ≤ 4_294_967_296
    → vad_classify ptr n vm
      ≡ some (if speaks vm.energy_threshold vm.zcr_threshold (decode bytes) then 1 else 0)
unfolding vad_classify
vad_classify-speaks vm ptr n bytes h e some_samples few fits =
    let xs = decode bytes in
    let count : length xs ≡ n = omega (arith, length-decode bytes) in
    let runs : ltb_ℤ (pos 0) (signed32 n) ≡ true = ground arith in
    let all : accumulate (load vm) ptr n 0 (sums 0 0 (pos 0))
        ≡ some (sums (total magnitude xs) (crossings (pos 0) xs) (last_of (pos 0) xs)) =
      accumulate-total (load vm) ptr n 0 ptr bytes (sums 0 0 (pos 0)) (omega arith) h e
        (omega arith) (omega arith) (omega arith) (omega arith)
      ∙ ap some (sums_eq (omega arith) (omega arith) refl) in
    let mean =
      mean_bound (total magnitude xs) n 32_768 some_samples
        (omega (arith, count, decoded_bound bytes)) in
    let rate =
      mean_bound (crossings (pos 0) xs * 100) n 100 some_samples
        (omega (arith, count, crossings_bound (pos 0) xs)) in
    let product : u32 (crossings (pos 0) xs * 100) ≡ crossings (pos 0) xs * 100 =
      omega (arith, count, crossings_bound (pos 0) xs) in
    rw (
      runs,
      all,
      product,
      count,
      small_signed (total magnitude xs / n) (omega (arith, mean)),
      small_signed' (crossings (pos 0) xs * 100 / n) (omega (arith, rate)),
    )
