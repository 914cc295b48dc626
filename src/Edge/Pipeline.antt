-- ===== src/Edge/Pipeline.antt =====
-- vad-edge/src/dpdk_pipeline.c: the polling loop, with the detector behind wasmtime and the frames of the
-- network card as arguments. A packet buffer is sent or freed; `sent` and `freed` record which, in order.
pub mod Delivery
pub mod Detector
pub mod Load
pub mod Run
use asr_serve.Base.{
  ℕ, zero, suc, ◌+◌, ◌-◌, ◌*◌, ◌/◌, Bool, true, false, List, [], ◌∷◌, ◌++◌, Option, none, some, ltb,
  ◌==◌, if◌then◌else◌, length, drop, take,
}
use asr_serve.Base.Int.{ℤ, pos, negsuc}
use asr_serve.Edge.Word.{u32, u64}

-- what the pipeline asks of an instantiated module: the size of its exported memory, if there is one, a
-- copy of bytes to an address, and the call of `vad_classify`, where `none` is an error or a trap
pub record VadModule : Type 1 where
  pub Instance : Type 0
  pub memory_size : Instance → Option ℕ
  pub write : ℕ → List ℕ → Instance → Instance
  pub call : ℕ → ℕ → Instance → Option ℕ × Instance

-- the lengths of the headers, and of a chunk of audio
abbrev pub hdr_len : ℕ
hdr_len = 14 + 20 + 8 + 12

abbrev pub audio_chunk_bytes : ℕ
audio_chunk_bytes = 640

abbrev pub wasm_buf_offset : ℕ
wasm_buf_offset = 65_536

-- `ident` tells buffers apart.
pub record Mbuf : Type 0 where
  pub ident : ℕ
  pub packet : List ℕ

-- a buffer of a burst, and whether the card would take it to be sent
pub record Arrival : Type 0 where
  pub mbuf : Mbuf
  pub tx_accepts : Bool

-- a round of the loop: `g_running` as it is tested, and the burst received
pub record Turn : Type 0 where
  pub g_running : Bool
  pub burst : List Arrival

module _ (detector : VadModule) where
  open detector use {Instance, memory_size, write, call}

  pub record PipelineCtx : Type 0 where
    pub wasm_instance : Instance
    pub frames_received : ℕ
    pub frames_speech : ℕ
    pub frames_forwarded : ℕ
    pub sent : List Mbuf
    pub freed : List Mbuf

  abbrev pub answer : Option ℕ × Instance → ℤ × Instance
  answer (none, vm) = (negsuc 0, vm)
  answer (some result, vm) = (pos (if result == 0 then 0 else 1), vm)

  -- 1 is speech, 0 silence and -1 an error.
  pub wasm_vad_classify : List ℕ → ℕ → Instance → ℤ × Instance
  wasm_vad_classify samples n_samples vm = elim (memory_size vm) [
    | none ↦ (negsuc 0, vm)
    | some wasm_mem_size ↦
        let byte_len = n_samples * 2 in
        if ltb wasm_mem_size (wasm_buf_offset + byte_len)
        then (negsuc 0, vm)
        else answer (
            call wasm_buf_offset (u32 n_samples) (write wasm_buf_offset (take byte_len samples) vm))
  ]

  abbrev pub free : Mbuf → PipelineCtx → PipelineCtx
  free m ctx = record ctx { freed = ctx.freed ++ m ∷ [] }

  pub forward_speech_frame : Arrival → PipelineCtx → PipelineCtx
  forward_speech_frame a ctx =
      let after =
        if a.tx_accepts then record ctx { sent = ctx.sent ++ a.mbuf ∷ [] } else free a.mbuf ctx in
      record after { frames_forwarded = u64 (after.frames_forwarded + 1) }

  -- what becomes of a buffer after the detector's answer
  abbrev pub settle : ℤ × Instance → Arrival → PipelineCtx → PipelineCtx
  settle (pos (suc zero), vm) a ctx =
      forward_speech_frame a
        (record ctx { wasm_instance = vm; frames_speech = u64 (ctx.frames_speech + 1) })
  settle (pos zero, vm) a ctx = free a.mbuf (record ctx { wasm_instance = vm })
  settle (pos (suc (suc n)), vm) a ctx = free a.mbuf (record ctx { wasm_instance = vm })
  settle (negsuc n, vm) a ctx = free a.mbuf (record ctx { wasm_instance = vm })

  pub receive : Arrival → PipelineCtx → PipelineCtx
  receive a before =
      let ctx = record before { frames_received = u64 (before.frames_received + 1) } in
      let pkt_len = length a.mbuf.packet in
      if ltb pkt_len (hdr_len + audio_chunk_bytes)
      then free a.mbuf ctx
      else settle
          (wasm_vad_classify (drop hdr_len a.mbuf.packet) ((pkt_len - hdr_len) / 2)
            ctx.wasm_instance)
          a ctx

  abbrev pub receive_all : List Arrival → PipelineCtx → PipelineCtx
  receive_all [] ctx = ctx
  receive_all (a ∷ burst) ctx = receive_all burst (receive a ctx)

  pub pipeline_run : List Turn → PipelineCtx → PipelineCtx
  pipeline_run [] ctx = ctx
  pipeline_run (t ∷ turns) ctx =
      if t.g_running then pipeline_run turns (receive_all t.burst ctx) else ctx
