-- ===== src/Edge/Xdp.antt =====
-- vad-edge/src/xdp_vad.c: the filter that the kernel runs on each frame, with the counters of one
-- CPU. A frame is the list of its bytes; a read past its end, which the kernel's verifier forbids, is
-- `none`. The sizes and offsets of Ethernet, IPv4 and UDP headers are those of the wire.
pub mod Counters
pub mod Energy
pub mod Frames
use asr_serve.Base.{
  ℕ, zero, suc, ◌+◌, ◌*◌, ◌%◌, Bool, true, false, not, ◌||◌, List, [], ◌∷◌, Option, none, some, ltb,
  ◌==◌, if◌then◌else◌, length, get_elem?,
}
use asr_serve.Base.Loops.{◌>>=◌}
use asr_serve.Edge.Word.{u32, u64, magnitude}
use asr_serve.Edge.Samples.{Memory, sample_at}

abbrev pub rtp_hdr_len : ℕ
rtp_hdr_len = 12

abbrev pub audio_chunk_bytes : ℕ
audio_chunk_bytes = 640

abbrev pub energy_threshold : ℕ
energy_threshold = 2048

pub record VadStats : Type 0 where
  pub pkts_total : ℕ
  pub pkts_speech : ℕ
  pub pkts_silence : ℕ
  pub pkts_malformed : ℕ

-- The loop at index `i`, with `left` rounds to go.
unfoldable pub energy_from : Memory → ℕ → ℕ → ℕ → ℕ → ℕ → Option ℕ
energy_from read data_end audio_start zero i energy = some energy
energy_from read data_end audio_start (suc left) i energy =
    if ltb data_end (audio_start + 2 * (i + 1)) then some energy else (do
      s ← sample_at read (audio_start + 2 * i)
      energy_from read data_end audio_start left (i + 1) (u32 (energy + magnitude s)))

unfoldable pub energy_above_threshold : Memory → ℕ → ℕ → Option Bool
energy_above_threshold read data_end audio_start = do
  energy ← energy_from read data_end audio_start 320 0 0
  some (ltb energy_threshold energy)

-- two bytes of a header, the high one first
abbrev pub ntohs : Memory → ℕ → Option ℕ
ntohs read a = do high ← read a; low ← read (a + 1); some (high * 256 + low)

-- the four ways to leave the program after the frame is counted
pub data Exit : Type 0 where
  ignored malformed silence speech : Exit

abbrev pub on_audio : Memory → ℕ → ℕ → Option Exit
on_audio read data_end audio_buf =
    if ltb data_end (audio_buf + audio_chunk_bytes) then some malformed else (do
      above ← energy_above_threshold read data_end audio_buf
      some (if above then speech else silence))

abbrev pub on_udp : Memory → ℕ → ℕ → Option Exit
on_udp read data_end udp = if ltb data_end (udp + 8) then some malformed else (do
  dst_port ← ntohs read (udp + 2)
  if ltb dst_port 5000 || ltb 5999 dst_port
      then some ignored
      else on_audio read data_end (udp + 8 + rtp_hdr_len))

abbrev pub on_ip : Memory → ℕ → Option Exit
on_ip read data_end = if ltb data_end 34 then some malformed else (do
  protocol ← read 23
  if not (protocol == 17) then some ignored else (do
    version_ihl ← read 14
    let ip_hdr_len = version_ihl % 16 * 4
    if ltb ip_hdr_len 20 then some malformed else on_udp read data_end (14 + ip_hdr_len)))

unfoldable pub on_ethernet : Memory → ℕ → Option Exit
on_ethernet read data_end = if ltb data_end 14 then some malformed else (do
  h_proto ← ntohs read 12
  if not (h_proto == 2048) then some ignored else on_ip read data_end)

pub data Action : Type 0 where
  xdp_aborted xdp_drop xdp_pass xdp_tx xdp_redirect : Action

abbrev pub inc : ℕ → ℕ
inc n = u64 (n + 1)

-- `redirect_map` is `bpf_redirect_map` on `xsk_map`.
module _ (redirect_map : ℕ → Action → Action) (rx_queue_index : ℕ) where
  unfoldable pub leave : Exit → VadStats → Action × VadStats
  leave ignored stats = (xdp_pass, stats)
  leave malformed stats = (xdp_pass, record stats { pkts_malformed = inc stats.pkts_malformed })
  leave silence stats = (xdp_pass, record stats { pkts_silence = inc stats.pkts_silence })
  leave speech stats =
      (redirect_map rx_queue_index xdp_pass, record stats { pkts_speech = inc stats.pkts_speech })

  -- The counters of this CPU, if the lookup finds them.
  unfoldable pub xdp_vad_prog : List ℕ → Option VadStats → Option (Action × Option VadStats)
  xdp_vad_prog packet none = some (xdp_pass, none)
  xdp_vad_prog packet (some stats) = do
    way ← on_ethernet (get_elem? packet) (length packet)
    let (action, after) = leave way (record stats { pkts_total = inc stats.pkts_total })
    some (action, some after)
