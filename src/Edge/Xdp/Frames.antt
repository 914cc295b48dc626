-- ===== src/Edge/Xdp/Frames.antt =====
-- Which frames the filter of vad-edge/src/xdp_vad.c takes for speech.
use asr_serve.Base.{
  ℕ, ◌+◌, ◌*◌, ◌%◌, ◌≤◌, ◌<◌, ◌≡◌, refl, ap, ◌∙◌, ◌↔◌, false, ◌||◌, List, Option, some, ltb, ◌==◌,
  length, get_elem?, get_or, drop, take, length-take, length-drop, get_elem?-eq-get_or, Bool-cases,
  inl, inr, arith,
}
use mathlib.Core.Path.{subst}
use asr_serve.Base.Sums.{total}
use asr_serve.Edge.Word.{magnitude}
use asr_serve.Edge.Samples.{decode, Holds-get_elem?, Holds-take}
use asr_serve.Edge.Xdp.{
  Exit, ignored, malformed, silence, speech, audio_chunk_bytes, rtp_hdr_len, energy_from,
  energy_above_threshold, on_audio, on_udp, on_ip, on_ethernet,
}
use asr_serve.Edge.Xdp.Energy.{energy_from-total}

abbrev pub byte_of : List ℕ → ℕ → ℕ
byte_of packet i = get_or packet i 0

-- a 16-bit field of a header
abbrev field : List ℕ → ℕ → ℕ
field packet i = byte_of packet i * 256 + byte_of packet (i + 1)

-- where the UDP header and the audio of an IPv4 frame start
abbrev pub udp_offset : List ℕ → ℕ
udp_offset packet = 14 + byte_of packet 14 % 16 * 4

abbrev pub audio_offset : List ℕ → ℕ
audio_offset packet = udp_offset packet + 20

-- an IPv4 frame with a UDP datagram to a port from 5000 to 5999 that holds a whole chunk of audio
pub record IsAudio (packet : List ℕ) : Type 0 where
  pub ipv4 : field packet 12 ≡ 2048
  pub udp : byte_of packet 23 ≡ 17
  pub header : 5 ≤ byte_of packet 14 % 16
  pub from_5000 : 5000 ≤ field packet (udp_offset packet + 2)
  pub to_5999 : field packet (udp_offset packet + 2) ≤ 5999
  pub complete : audio_offset packet + 640 ≤ length packet

-- the sum of the magnitudes of the samples of the chunk
abbrev pub energy : List ℕ → ℕ
energy packet = total magnitude (decode (take 640 (drop (audio_offset packet) packet)))

energy_above_threshold-energy :
    (packet : List ℕ)
    → audio_offset packet + 640 ≤ length packet
    → energy_above_threshold (get_elem? packet) (length packet) (audio_offset packet)
      ≡ some (ltb 2048 (energy packet))
unfolding energy_above_threshold
energy_above_threshold-energy packet h =
    let at = audio_offset packet in
    let chunk = take 640 (drop at packet) in
    let sum : energy_from (get_elem? packet) (length packet) at 320 0 0
        ≡ some (total magnitude (decode chunk)) =
      energy_from-total (get_elem? packet) (length packet) at 320 0 at 0 chunk (omega arith)
        (Holds-take (get_elem? packet) at 640 (drop at packet) (Holds-get_elem? packet at))
        (length-take 640 (drop at packet) (omega (arith, length-drop at packet))) (omega arith)
        (omega arith)
      ∙ ap some (omega arith) in
    rw sum

-- What an exit tells of the frame.
pub record Decides (packet : List ℕ) (way : Exit) : Type 0 where
  pub of_speech : (way ≡ speech) ↔ (IsAudio packet × (2048 < energy packet))
  pub of_silence : (way ≡ silence) ↔ (IsAudio packet × (energy packet ≤ 2048))

abbrev Outcome : List ℕ → Option Exit → Type 0
Outcome packet answer = (way : Exit) × (answer ≡ some way) × Decides packet way

module _ (packet : List ℕ) where
  malformed-Outcome : ¬ IsAudio packet → Outcome packet (some malformed)
  malformed-Outcome other = (
    malformed,
    refl,
    record {
      of_speech = (λ e. cc, λ h. absurd (other h.0));
      of_silence = (λ e. cc, λ h. absurd (other h.0));
    },
  )

  ignored-Outcome : ¬ IsAudio packet → Outcome packet (some ignored)
  ignored-Outcome other = (
    ignored,
    refl,
    record {
      of_speech = (λ e. cc, λ h. absurd (other h.0));
      of_silence = (λ e. cc, λ h. absurd (other h.0));
    },
  )

  audio-Outcome :
      IsAudio packet
      → Outcome packet (on_audio (get_elem? packet) (length packet) (audio_offset packet))
  audio-Outcome h =
      let fits : ltb (length packet) (audio_offset packet + 640) ≡ false =
        let c = h.complete in ground arith in
      rw (fits, energy_above_threshold-energy packet h.complete)
        (elim (Bool-cases (ltb 2048 (energy packet))) [
          | inl e ↦ rw e (
            speech,
            refl,
            record {
              of_speech = (λ w. (h, ground arith), λ w. refl);
              of_silence = (λ w. cc, λ w. absurd (ground arith));
            },
          )
          | inr e ↦ rw e (
            silence,
            refl,
            record {
              of_speech = (λ w. cc, λ w. absurd (ground arith));
              of_silence = (λ w. (h, ground arith), λ w. refl);
            },
          )
        ])

  -- a byte of the frame, read
  got : (i : ℕ) → i < length packet → get_elem? packet i ≡ some (byte_of packet i)
  got i h = get_elem?-eq-get_or packet i 0 h

  udp-Outcome :
      field packet 12 ≡ 2048
      → byte_of packet 23 ≡ 17
      → 5 ≤ byte_of packet 14 % 16
      → Outcome packet (on_udp (get_elem? packet) (length packet) (udp_offset packet))
  udp-Outcome type protocol header =
      let at = udp_offset packet in
      elim (Bool-cases (ltb (length packet) (at + 8))) [
        | inl e ↦ rw e (malformed-Outcome (λ h. let c = h.complete in absurd (ground arith)))
        | inr e ↦
            rw (e, got (at + 2) (ground arith), got (at + 2 + 1) (ground arith))
              (elim (Bool-cases
                (ltb (field packet (at + 2)) 5000 || ltb 5999 (field packet (at + 2)))) [
                  | inl p ↦ rw p (
                      ignored-Outcome
                        (λ h. let a = h.from_5000 in let b = h.to_5999 in absurd (ground arith)))
                  | inr p ↦
                      rw p
                        (elim (Bool-cases
                          (ltb (length packet) (at + 8 + rtp_hdr_len + audio_chunk_bytes))) [
                            | inl q ↦ rw q (
                                malformed-Outcome
                                  (λ h. let c = h.complete in absurd (ground arith)))
                            | inr q ↦
                                subst
                                  (λ (k : ℕ).
                                    Outcome packet (on_audio (get_elem? packet) (length packet) k))
                                  (omega arith)
                                  (audio-Outcome (record {
                                    ipv4 = type;
                                    udp = protocol;
                                    header = header;
                                    from_5000 = ground arith;
                                    to_5999 = ground arith;
                                    complete = ground arith;
                                  }))
                          ])
                ])
      ]

  ip-Outcome : field packet 12 ≡ 2048 → Outcome packet (on_ip (get_elem? packet) (length packet))
  ip-Outcome type = elim (Bool-cases (ltb (length packet) 34)) [
    | inl e ↦ rw e (malformed-Outcome (λ h. let c = h.complete in absurd (ground arith)))
    | inr e ↦
        rw (e, got 23 (ground arith))
          (elim (Bool-cases (byte_of packet 23 == 17)) [
            | inr p ↦ rw p (ignored-Outcome (λ h. let u = h.udp in absurd (ground arith)))
            | inl p ↦
                rw (p, got 14 (ground arith))
                  (elim (Bool-cases (ltb (byte_of packet 14 % 16 * 4) 20)) [
                    | inl q ↦
                        rw q (malformed-Outcome (λ h. let i = h.header in absurd (ground arith)))
                    | inr q ↦ rw q (udp-Outcome type (ground arith) (ground arith))
                  ])
          ])
  ]

  -- The filter reads no byte past the end of a frame, whatever its bytes are, and leaves by one of its
  -- exits, which tells what the frame is.
  pub on_ethernet-Outcome : Outcome packet (on_ethernet (get_elem? packet) (length packet))
  unfolding on_ethernet
  on_ethernet-Outcome = elim (Bool-cases (ltb (length packet) 14)) [
    | inl e ↦ rw e (malformed-Outcome (λ h. let c = h.complete in absurd (ground arith)))
    | inr e ↦
        rw (e, got 12 (ground arith), got 13 (ground arith))
          (elim (Bool-cases (field packet 12 == 2048)) [
            | inr p ↦ rw p (ignored-Outcome (λ h. let u = h.ipv4 in absurd (ground arith)))
            | inl p ↦ rw p (ip-Outcome (ground arith))
          ])
  ]
