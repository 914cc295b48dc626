-- ===== src/Factory/Policy/Monotone.antt =====
-- `_wer_to_priority` and `_rtf_to_kv_ttl_ms` on two values, of agentic-factory/src/evaluator.py.
use asr_serve.Base.{◌≤◌, false, ◌≡◌, arith}
use asr_serve.Base.Floats.{Floats, IsIeee, IsNumber}
use asr_serve.Factory.Policy.{wer_to_priority, rtf_to_kv_ttl_ms}

module _ (fl : Floats) (h : IsIeee fl) where
  open fl use {Float, lit, lt}

  -- Of two word error rates, of which the one that is not greater is a number, it gets at least the
  -- other's priority; and every priority lies in 3 to 9.
  wer_to_priority_mono :
      (x y : Float)
      → IsNumber fl x
      → lt y x ≡ false
      → (wer_to_priority fl y ≤ wer_to_priority fl x)
        × (3 ≤ wer_to_priority fl y)
        × (wer_to_priority fl x ≤ 9)
  unfolding wer_to_priority
  wer_to_priority_mono x y n le = ground (
    arith,
    h.not_lt_trans y x (lit 5 2) n le,
    h.not_lt_trans y x (lit 10 2) n le,
    h.not_lt_trans y x (lit 20 2) n le,
  )

  -- Of two real-time factors, of which the one that is not greater is a number, it gets at most the
  -- other's TTL; and every TTL lies in 200 to 500.
  rtf_to_kv_ttl_ms_mono :
      (x y : Float)
      → IsNumber fl x
      → lt y x ≡ false
      → (rtf_to_kv_ttl_ms fl x ≤ rtf_to_kv_ttl_ms fl y)
        × (200 ≤ rtf_to_kv_ttl_ms fl x)
        × (rtf_to_kv_ttl_ms fl y ≤ 500)
  unfolding rtf_to_kv_ttl_ms
  rtf_to_kv_ttl_ms_mono x y n le =
      ground (arith, h.not_lt_trans y x (lit 1 2) n le, h.not_lt_trans y x (lit 5 2) n le)
