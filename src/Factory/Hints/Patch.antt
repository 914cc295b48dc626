-- ===== src/Factory/Hints/Patch.antt =====
-- `set_hint` of agentic-factory/src/agent_hints.py.
use asr_serve.Base.{
  ℕ, ◌≡◌, ◌∙◌, String, Option, arith, str_eq, if◌then◌else◌, eq_iff, Bool-cases, inl, inr,
}
use asr_serve.Base.Dict.{str_eq_comm}
use asr_serve.Base.Floats.{Floats}
use asr_serve.Base.Result.{Result, ok, ◌>>=◌}
use asr_serve.Base.Value.{Value, int_of, truth}
use asr_serve.Factory.Hints.{HintProfile, AgentHintsManager, to_dict, set_profile, set_hint}

module _ (fl : Floats) (decimal : ℕ → Option ℕ) where
  open fl use {Float}

  -- the profile with one field patched: two are converted by `int`, one by `bool`, and the model's
  -- name is taken as it is; another key only renews the time
  abbrev pub patched : Float → String → Value Float → HintProfile Float → Result (HintProfile Float)
  patched now key value p =
      if str_eq key "priority"
      then (do n ← int_of fl decimal value; ok (record p { priority = n; updated_at = now }))
      else if str_eq key "kv_ttl_ms"
      then (do n ← int_of fl decimal value; ok (record p { kv_ttl_ms = n; updated_at = now }))
      else if str_eq key "model_id"
      then ok (record p { model_id = value; updated_at = now })
      else if str_eq key "debug"
      then ok (record p { debug = truth fl value; updated_at = now })
      else ok (record p { updated_at = now })

  -- `set_hint` makes active the profile with the one field patched, and raises exactly when the
  -- conversion of the value does.
  pub set_hint-patched :
      (now : Float) (key : String) (value : Value Float) (m : AgentHintsManager Float)
      → set_hint fl decimal now key value m
        ≡ (do p ← patched now key value m.active; ok (set_profile p m))
  unfolding set_hint to_dict int_of truth
  set_hint-patched now key value m = elim (Bool-cases (str_eq key "priority")) [
    | inl e ↦ rw ((eq_iff key "priority").0 e) (ground arith)
    | inr e₁ ↦ elim (Bool-cases (str_eq key "kv_ttl_ms")) [
      | inl e ↦ rw ((eq_iff key "kv_ttl_ms").0 e) (ground arith)
      | inr e₂ ↦ elim (Bool-cases (str_eq key "model_id")) [
        | inl e ↦ rw ((eq_iff key "model_id").0 e)
        | inr e₃ ↦ elim (Bool-cases (str_eq key "debug")) [
          | inl e ↦ rw ((eq_iff key "debug").0 e)
          | inr e₄ ↦ simp (
            e₁,
            e₂,
            e₃,
            e₄,
            str_eq_comm "priority" key ∙ e₁,
            str_eq_comm "kv_ttl_ms" key ∙ e₂,
            str_eq_comm "model_id" key ∙ e₃,
            str_eq_comm "debug" key ∙ e₄,
          )
        ]
      ]
    ]
  ]
