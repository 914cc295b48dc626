-- ===== src/Factory/Hints.antt =====
-- `HintProfile`, `AgentHintsManager` and `with_agent_hints` of agentic-factory/src/agent_hints.py.
-- The manager's lock makes each method one step; `now` is what `time.monotonic()` returns.
pub mod Headers
pub mod History
pub mod Patch
use mathlib.Core.Path.{◌≡◌}
use asr_serve.Base.{
  ℕ, zero, suc, ◌-◌, Bool, true, false, String, List, [], ◌∷◌, ◌++◌, Option, none, some, ltb,
  if◌then◌else◌, length, drop,
}
use asr_serve.Base.Dict.{Dict, get_default, insert, merge}
use asr_serve.Base.Floats.{Floats}
use asr_serve.Base.Int.{ℤ, pos, negsuc}
use asr_serve.Base.Result.{Result, ok, ◌>>=◌}
use asr_serve.Base.Text.{codes, str_int}
use asr_serve.Base.Value.{Value, bool, int, str, int_of, truth}

pub record HintProfile (Float : Type 0) : Type 0 where
  pub model_id : Value Float
  pub priority : ℤ
  pub kv_ttl_ms : ℤ
  pub debug : Bool
  pub updated_at : Float

module _ {Float : Type 0} where
  unfoldable pub to_headers : HintProfile Float → Dict (Value Float)
  to_headers p =
      let headers =
        ("X-Agent-Priority", str (str_int p.priority))
        ∷ ("X-Agent-KV-TTL-Ms", str (str_int p.kv_ttl_ms))
        ∷ ("X-Agent-Model-ID", p.model_id)
        ∷ [] in
      if p.debug then insert "X-Agent-Debug" (str (codes "true")) headers else headers

  pub to_dict : HintProfile Float → Dict (Value Float)
  to_dict p =
      ("priority", int p.priority)
      ∷ ("kv_ttl_ms", int p.kv_ttl_ms)
      ∷ ("model_id", p.model_id)
      ∷ ("debug", bool p.debug)
      ∷ []

  -- the profile with the class's defaults
  abbrev pub default_profile : Value Float → Float → HintProfile Float
  default_profile model now = record {
    model_id = model;
    priority = pos 5;
    kv_ttl_ms = pos 500;
    debug = false;
    updated_at = now;
  }

-- `xs[i:]`
abbrev pub slice_from : {A : Type 0} → ℤ → List A → List A
slice_from (pos i) xs = drop i xs
slice_from (negsuc i) xs = drop (length xs - suc i) xs

abbrev pub neg : ℤ → ℤ
neg (pos zero) = pos zero
neg (pos (suc n)) = negsuc n
neg (negsuc n) = pos (suc n)

pub record AgentHintsManager (Float : Type 0) : Type 0 where
  pub active : HintProfile Float
  pub history : List (HintProfile Float)

module _ {Float : Type 0} where
  unfoldable pub init : Value Float → Float → AgentHintsManager Float
  init default_model_id now = record { active = default_profile default_model_id now; history = [] }

  unfoldable pub set_profile : HintProfile Float → AgentHintsManager Float → AgentHintsManager Float
  set_profile profile m =
      let longer = m.history ++ m.active ∷ [] in
      record {
        active = profile;
        history = if ltb 100 (length longer) then drop 1 longer else longer;
      }

  unfoldable pub get_headers : AgentHintsManager Float → Dict (Value Float)
  get_headers m = to_headers m.active

  unfoldable pub get_dict : AgentHintsManager Float → Dict (Value Float)
  get_dict m = to_dict m.active

  pub recent_history : ℤ → AgentHintsManager Float → List (HintProfile Float)
  recent_history n m = slice_from (neg n) m.history

  -- the headers with which the decorated function is called, given those of its caller
  unfoldable pub with_agent_hints :
      AgentHintsManager Float → Option (Dict (Value Float)) → Dict (Value Float)
  unfolding get_headers
  with_agent_hints m none = merge (get_headers m) []
  with_agent_hints m (some existing) = merge (get_headers m) existing

module _ (fl : Floats) (decimal : ℕ → Option ℕ) where
  open fl use {Float}

  -- A conversion that raises leaves the manager as it was.
  pub set_hint :
      Float → String → Value Float → AgentHintsManager Float → Result (AgentHintsManager Float)
  set_hint now key value m = do
    let current = m.active
    let kwargs = insert key value (to_dict current)
    priority ← int_of fl decimal (get_default "priority" (int current.priority) kwargs)
    kv_ttl_ms ← int_of fl decimal (get_default "kv_ttl_ms" (int current.kv_ttl_ms) kwargs)
    let updated : HintProfile Float = record {
      model_id = get_default "model_id" current.model_id kwargs;
      priority = priority;
      kv_ttl_ms = kv_ttl_ms;
      debug = truth fl (get_default "debug" (bool current.debug) kwargs);
      updated_at = now;
    }
    ok (set_profile updated m)
