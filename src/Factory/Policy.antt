-- ===== src/Factory/Policy.antt =====
-- `_wer_to_priority` and `_rtf_to_kv_ttl_ms` of agentic-factory/src/evaluator.py.
pub mod Monotone
use asr_serve.Base.{ℕ, if◌then◌else◌}
use asr_serve.Base.Floats.{Floats}

module _ (fl : Floats) where
  open fl use {Float, lit, lt}

  unfoldable pub wer_to_priority : Float → ℕ
  wer_to_priority wer =
      if lt wer (lit 5 2)
      then 9
      else if lt wer (lit 10 2)
      then 7
      else if lt wer (lit 20 2)
      then 5
      else 3

  unfoldable pub rtf_to_kv_ttl_ms : Float → ℕ
  rtf_to_kv_ttl_ms rtf = if lt rtf (lit 1 2) then 200 else if lt rtf (lit 5 2) then 350 else 500
