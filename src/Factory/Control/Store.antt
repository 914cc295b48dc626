-- ===== src/Factory/Control/Store.antt =====
-- The store of agentic-factory/main.go against `AgentHintsManager` of agentic-factory/src/agent_hints.py.
use mathlib.Core.List.{map-append}
use asr_serve.Base.{
  ℕ, suc, ◌≤◌, ◌≡◌, refl, sym, ap, ◌∙◌, Bool, true, false, Option, ◌⊎◌, List, [], ◌∷◌, ◌++◌, map,
  ltb, length, drop, if◌then◌else◌, arith,
}
use asr_serve.Base.Int.{ℤ}
use asr_serve.Base.Text.{Text}
use asr_serve.Base.Value.{str}
use asr_serve.Factory.Hints
use asr_serve.Factory.Hints.{AgentHintsManager, set_profile}
use asr_serve.Factory.Hints.History.{run_profiles, trail, take_last, run_profiles-trail}
use asr_serve.Factory.Control.Accepted.{updates, accepted, run-updates}
use asr_serve.Factory.Control.{HintProfile, HintsStore, update, Input, System, run}

-- `time_of` is what the other side would read from a time in milliseconds.
module _ {Float : Type 0} (time_of : ℤ → Float) where
  abbrev pub profile_of : HintProfile → Hints.HintProfile Float
  profile_of p = record {
    model_id = str p.model_id;
    priority = p.priority;
    kv_ttl_ms = p.kv_ttl_ms;
    debug = p.debug;
    updated_at = time_of p.updated_at;
  }

  abbrev pub manager_of : HintsStore → AgentHintsManager Float
  manager_of s = record { active = profile_of s.active; history = map profile_of s.history }

  length-map : (ps : List HintProfile) → length (map profile_of ps) ≡ length ps
  length-map [] = refl
  length-map (p ∷ ps) = ap suc (length-map ps)

  drop-map : (ps : List HintProfile) → drop 1 (map profile_of ps) ≡ map profile_of (drop 1 ps)
  drop-map [] = refl
  drop-map (p ∷ ps) = refl

  trimmed :
      (b : Bool) (ps : List HintProfile)
      → (if b then drop 1 (map profile_of ps) else map profile_of ps)
        ≡ map profile_of (if b then drop 1 ps else ps)
  trimmed true ps = drop-map ps
  trimmed false ps = refl

  update-set_profile :
      (now : ℤ) (p : HintProfile) (s : HintsStore)
      → manager_of (update now p s)
        ≡ set_profile (profile_of (record p { updated_at = now })) (manager_of s)
  unfolding update set_profile
  update-set_profile now p s =
      let q = profile_of (record p { updated_at = now }) in
      let longer : List HintProfile = s.history ++ s.active ∷ [] in
      let longer' : List (Hints.HintProfile Float) =
        map profile_of s.history ++ profile_of s.active ∷ [] in
      let e : longer' ≡ map profile_of longer =
        sym (map-append profile_of s.history (s.active ∷ [])) in
      let same : (if ltb 100 (length longer') then drop 1 longer' else longer')
          ≡ map profile_of (if ltb 100 (length longer) then drop 1 longer else longer) =
        ap (λ (ps : List (Hints.HintProfile Float)). if ltb 100 (length ps) then drop 1 ps else ps)
          e
        ∙ ap
            (λ (n : ℕ). if ltb 100 n then drop 1 (map profile_of longer) else map profile_of longer)
            (length-map longer)
        ∙ trimmed (ltb 100 (length longer)) longer in
      λ i. record { active = q; history = sym same i }

  updates-run_profiles :
      (ps : List HintProfile) (s : HintsStore)
      → manager_of (updates ps s) ≡ run_profiles (map profile_of ps) (manager_of s)
  updates-run_profiles [] s = refl
  updates-run_profiles (p ∷ ps) s =
      updates-run_profiles ps (update p.updated_at p s)
      ∙ ap (run_profiles (map profile_of ps)) (update-set_profile p.updated_at p s)

  -- Whatever requests and ticks come, the store is the manager of the Python program after `set_profile`
  -- of the profiles of the accepted `PUT /hints` requests, in order; from a store with at most a hundred
  -- replaced profiles, it remembers the last 101 of all profiles, the newest of them active.
  pub run-run_profiles :
      (decode : Text → Text ⊎ HintProfile) (encode : HintProfile → Text)
      (marshal : HintProfile → Option Text) (xs : List Input) (s : System)
      → length s.store.history ≤ 100
      → (manager_of (run decode encode marshal xs s).store
          ≡ run_profiles (map profile_of (accepted decode xs)) (manager_of s.store))
        × (trail (manager_of (run decode encode marshal xs s).store)
            ≡ take_last 101 (trail (manager_of s.store) ++ map profile_of (accepted decode xs)))
  run-run_profiles decode encode marshal xs s h =
      let m = manager_of s.store in
      let ps = map profile_of (accepted decode xs) in
      let e : manager_of (run decode encode marshal xs s).store ≡ run_profiles ps m =
        ap manager_of (run-updates decode encode marshal xs s)
        ∙ updates-run_profiles (accepted decode xs) s.store in
      (e, ap trail e ∙ (run_profiles-trail ps m (omega (arith, length-map s.store.history))).0)
