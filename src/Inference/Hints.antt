-- ===== src/Inference/Hints.antt =====
-- Hints from agentic-factory/src/agent_hints.py to inference/src/worker.py.
use asr_serve.Base.{ℕ, ◌≡◌, refl, String, [], ◌∷◌, Option, none, some, Bool-cases, inl, inr}
use asr_serve.Base.Dict.{Dict, insert}
use asr_serve.Base.Int.{ℤ}
use asr_serve.Base.Result.{ok}
use asr_serve.Base.Text.{str_int, IsDecimal}
use asr_serve.Base.Text.Decimal.{parse_int-str_int}
use asr_serve.Base.Value.{Value, int}
use asr_serve.Factory.Hints.{AgentHintsManager, to_headers, get_headers, with_agent_hints}
use asr_serve.Inference.{header, with_hint, hints_of}

module _ {Float : Type 0} (decimal : ℕ → Option ℕ) (known : IsDecimal decimal) where
  with_hint-str_int :
      (key : String) (n : ℤ) (hints : Dict (Value Float))
      → with_hint decimal key (some (str_int n)) hints ≡ ok (insert key (int n) hints)
  with_hint-str_int key n hints = rw (with_hint, parse_int-str_int decimal known n) refl

  -- What the worker makes of headers that hold two integers.
  hints_of-str_int :
      (headers : Dict (Value Float)) (p k : ℤ)
      → header "X-Agent-Priority" headers ≡ some (str_int p)
      → header "X-Agent-KV-TTL-Ms" headers ≡ some (str_int k)
      → hints_of decimal headers ≡ ok (("priority", int p) ∷ ("kv_ttl_ms", int k) ∷ [])
  unfolding hints_of
  hints_of-str_int headers p k at at' =
      rw (hints_of, at, at', with_hint-str_int "priority" p [])
        (with_hint-str_int "kv_ttl_ms" k (("priority", int p) ∷ []))

  -- A request that the decorator sends with the manager's headers alone reaches the worker with the
  -- active profile's priority and TTL as integers, in this order, and no other hint, whatever the
  -- integers are.
  pub hints_of-with_agent_hints :
      (m : AgentHintsManager Float)
      → hints_of decimal (with_agent_hints m none)
        ≡ ok (("priority", int m.active.priority) ∷ ("kv_ttl_ms", int m.active.kv_ttl_ms) ∷ [])
  unfolding with_agent_hints get_headers to_headers
  hints_of-with_agent_hints m = elim (Bool-cases m.active.debug) [
    | inl e ↦
        rw (with_agent_hints, get_headers, to_headers, e)
          (hints_of-str_int _ m.active.priority m.active.kv_ttl_ms refl refl)
    | inr e ↦
        rw (with_agent_hints, get_headers, to_headers, e)
          (hints_of-str_int _ m.active.priority m.active.kv_ttl_ms refl refl)
  ]
