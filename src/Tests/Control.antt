-- ===== src/Tests/Control.antt =====
-- The theorems on the control plane of agentic-factory/main.go at concrete inputs.
use asr_serve.Base.{
  ◌≡◌, refl, true, false, Option, some, ◌⊎◌, inl, inr, List, [], ◌∷◌, ◌++◌, map, arith,
}
use asr_serve.Base.Int.{ℤ, pos}
use asr_serve.Base.Text.{Text, codes}
use asr_serve.Factory.Hints.History.{run_profiles, trail, take_last}
use asr_serve.Factory.Control.{
  HintProfile, new_hints_store, json_body, no_content, method_get, method_put, other_method, Input,
  request, tick, ctx_done, System, serve_http, on_tick, react, run,
}
use asr_serve.Factory.Control.Accepted.{accepted}
use asr_serve.Factory.Control.Store.{profile_of, manager_of, run-run_profiles}
use asr_serve.Factory.Control.Delivery.{put, get, put-get}

-- a stand-in for JSON: the text is the name of the model
abbrev decode : Text → Text ⊎ HintProfile
decode [] = inl (codes "EOF")
decode (c ∷ cs) = inr (record {
  model_id = c ∷ cs;
  priority = pos 7;
  kv_ttl_ms = pos 300;
  debug = false;
  updated_at = pos 0;
})

abbrev encode : HintProfile → Text
encode p = p.model_id

abbrev marshal : HintProfile → Option Text
marshal p = some p.model_id

abbrev system : System
unfolding new_hints_store
system = record { store = new_hints_store; broadcasting = true; responses = []; datagrams = [] }

abbrev inputs : List Input
inputs =
    request (pos 1) (record { path = "/hints"; method = method_put; body = codes "a" })
    ∷ tick true
    ∷ request (pos 2) (record { path = "/hints"; method = method_put; body = [] })
    ∷ request (pos 3) (record { path = "/hints"; method = method_put; body = codes "b" })
    ∷ ctx_done
    ∷ []

abbrev same_time : ℤ → ℤ
same_time t = t

run-run_profiles_example :
    let m = manager_of same_time system.store in
    let last = manager_of same_time (run decode encode marshal inputs system).store in
    let puts = map (profile_of same_time) (accepted decode inputs) in
    (last ≡ run_profiles puts m) × (trail last ≡ take_last 101 (trail m ++ puts))
unfolding system
run-run_profiles_example =
    run-run_profiles same_time decode encode marshal inputs system (omega arith)

abbrev quiet : List Input
quiet =
    tick false
    ∷ request (pos 5) (record { path = "/hints"; method = other_method "DELETE"; body = [] })
    ∷ request (pos 6) (record { path = "/health"; method = method_get; body = [] })
    ∷ []

abbrev put_profile : HintProfile
put_profile = record {
  model_id = codes "a";
  priority = pos 7;
  kv_ttl_ms = pos 300;
  debug = false;
  updated_at = pos 0;
}

put-get_example :
    let t = run decode encode marshal (request (pos 4) (put (codes "a")) ∷ quiet) system in
    ((serve_http decode encode marshal (pos 4) (put (codes "a")) system.store).0 ≡ no_content)
    × ((serve_http decode encode marshal (pos 9) get t.store).0 ≡ json_body (codes "a"))
    × ((react decode encode marshal (tick true) t).datagrams ≡ t.datagrams ++ codes "a" ∷ [])
unfolding system react serve_http on_tick
put-get_example =
    put-get decode encode marshal (pos 4) (pos 9) (codes "a") (codes "a") put_profile quiet system
      refl refl refl refl
