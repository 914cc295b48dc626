-- ===== src/Edge/Wasm/Module.antt =====
-- vad-edge/wasm/vad_module.wat as the module that vad-edge/src/dpdk_pipeline.c loads. Its memory has two
-- pages of 65536 bytes, and the start values of the globals are those of the file.
use asr_serve.Base.{
  ℕ, ◌+◌, ◌-◌, ◌*◌, ◌≤◌, ◌<◌, ◌≡◌, refl, ◌∙◌, ◌&&◌, List, some, ltb, leb, if◌then◌else◌, length,
  get_or, get_elem?-eq-get_or, arith,
}
use asr_serve.Base.Int.{ℤ, pos}
use asr_serve.Edge.Samples.{decode, Holds, Holds-reads}
use asr_serve.Edge.Wasm.{Instance, load, vad_classify, set_energy_threshold, set_zcr_threshold}
use asr_serve.Edge.Wasm.Decision.{speaks, vad_classify-speaks}
use asr_serve.Edge.Pipeline.{VadModule}
use asr_serve.Edge.Pipeline.Detector.{IsDetector}

unfoldable pub instantiate : (ℕ → ℕ) → Instance
instantiate bytes = record {
  size = 131_072;
  bytes = bytes;
  energy_threshold = pos 512;
  zcr_threshold = pos 20;
}

-- a copy of bytes to an address
pub copy : ℕ → List ℕ → Instance → Instance
copy offset bytes vm = record vm {
  bytes = λ a.
      if leb offset a && ltb a (offset + length bytes)
      then get_or bytes (a - offset) 0
      else vm.bytes a;
}

abbrev pub wasm_module : VadModule
wasm_module = record {
  Instance = Instance;
  memory_size = λ vm. some vm.size;
  write = copy;
  call = λ ptr n_samples vm. (vad_classify ptr n_samples vm, vm);
}

Holds-copy :
    (offset : ℕ) (bytes : List ℕ) (vm : Instance)
    → offset + length bytes ≤ vm.size
    → Holds (load (copy offset bytes vm)) offset bytes
unfolding copy
Holds-copy offset bytes vm fits = Holds-reads (load (copy offset bytes vm)) offset bytes λ k lt.
    let index : offset + k - offset ≡ k = omega arith in
    ground (arith, get_elem?-eq-get_or bytes k 0 lt, index)

-- the memory is there, and the thresholds are these
pub record HasThresholds (e z : ℤ) (vm : Instance) : Type 0 where
  pub pages : 131_072 ≤ vm.size
  pub energy : vm.energy_threshold ≡ e
  pub zcr : vm.zcr_threshold ≡ z

module _ {e z : ℤ} where
  pub copy_ready :
      (offset : ℕ) (bytes : List ℕ) (vm : Instance)
      → HasThresholds e z vm
      → HasThresholds e z (copy offset bytes vm)
  unfolding copy
  copy_ready offset bytes vm h = record { pages = h.pages; energy = h.energy; zcr = h.zcr }

  pub classified :
      (n : ℕ) (bytes : List ℕ) (vm : Instance)
      → HasThresholds e z vm
      → length bytes ≡ 2 * n
      → 0 < n
      → n ≤ 32_768
      → vad_classify 65_536 n (copy 65_536 bytes vm)
        ≡ some (if speaks e z (decode bytes) then 1 else 0)
  classified n bytes vm h len some_samples few =
      let after = copy_ready 65_536 bytes vm h in
      let p = h.pages in
      vad_classify-speaks (copy 65_536 bytes vm) 65_536 n bytes
        (Holds-copy 65_536 bytes vm (omega arith)) len some_samples (omega arith) (omega arith)
      ∙ rw (after.energy, after.zcr)

abbrev pub wasm_module-IsDetector : (e z : ℤ) → IsDetector (speaks e z) wasm_module
wasm_module-IsDetector e z = record {
  Ready = HasThresholds e z;
  room = λ {vm} ready. (vm.size, refl, ready.pages);
  call_answers = λ {vm} n bytes ready len some_samples few. (
    copy 65_536 bytes vm,
    copy_ready 65_536 bytes vm ready,
    rw (classified n bytes vm ready len some_samples few),
  );
}

-- The setters give the detector other thresholds.
set_thresholds :
    {e z : ℤ} (t u : ℤ) (vm : Instance)
    → HasThresholds e z vm
    → HasThresholds t u (set_zcr_threshold u (set_energy_threshold t vm))
set_thresholds t u vm h = record { pages = h.pages; energy = refl; zcr = refl }
