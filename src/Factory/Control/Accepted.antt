-- ===== src/Factory/Control/Accepted.antt =====
-- The requests by which the store of agentic-factory/main.go changes.
use asr_serve.Base.{
  ◌≡◌, refl, sym, ap, ◌∙◌, Option, ◌⊎◌, inl, inr, List, [], ◌∷◌, ◌++◌, str_eq, if◌then◌else◌,
  Bool-cases,
}
use asr_serve.Base.Int.{ℤ}
use asr_serve.Base.Text.{Text}
use asr_serve.Factory.Control.{
  HintProfile, HintsStore, update, Method, method_get, method_put, other_method, Input, request,
  tick, ctx_done, System, put_hints, hints_handler, serve_http, on_tick, react, run,
}

abbrev pub updates : List HintProfile → HintsStore → HintsStore
updates [] s = s
updates (p ∷ ps) s = updates ps (update p.updated_at p s)

updates-append :
    (ps qs : List HintProfile) (s : HintsStore) → updates (ps ++ qs) s ≡ updates qs (updates ps s)
updates-append [] qs s = refl
updates-append (p ∷ ps) qs s = updates-append ps qs (update p.updated_at p s)

-- the profiles of the accepted `PUT /hints`, each with the time of its arrival
module _ (decode : Text → Text ⊎ HintProfile) where
  abbrev pub stamped : ℤ → Text ⊎ HintProfile → List HintProfile
  stamped now (inl err) = []
  stamped now (inr p) = record p { updated_at = now } ∷ []

  abbrev pub put_of : ℤ → Method → Text → List HintProfile
  put_of now method_get body = []
  put_of now method_put body = stamped now (decode body)
  put_of now (other_method name) body = []

  abbrev pub accepted_of : Input → List HintProfile
  accepted_of (request now r) = if str_eq r.path "/hints" then put_of now r.method r.body else []
  accepted_of (tick write_ok) = []
  accepted_of ctx_done = []

  abbrev pub accepted : List Input → List HintProfile
  accepted [] = []
  accepted (x ∷ xs) = accepted_of x ++ accepted xs

  module _ (encode : HintProfile → Text) (marshal : HintProfile → Option Text) where
    handler-updates :
        (now : ℤ) (m : Method) (body : Text) (s : HintsStore)
        → (hints_handler decode encode marshal now m body s).1 ≡ updates (put_of now m body) s
    handler-updates now method_get body s = refl
    handler-updates now (other_method name) body s = refl
    handler-updates now method_put body s = by_body (decode body)
      where
        by_body :
            (d : Text ⊎ HintProfile)
            → (put_hints decode encode marshal now d s).1 ≡ updates (stamped now d) s
        by_body (inl err) = refl
        by_body (inr p) = unfold update in refl

    react-updates :
        (x : Input) (s : System)
        → (react decode encode marshal x s).store ≡ updates (accepted_of x) s.store
    unfolding react serve_http on_tick
    react-updates (request now r) s = elim (Bool-cases (str_eq r.path "/hints")) [
      | inl e ↦ rw e (handler-updates now r.method r.body s.store)
      | inr e ↦ elim (Bool-cases (str_eq r.path "/health")) [
        | inl h ↦ rw (e, h) refl
        | inr h ↦ rw (e, h) refl
      ]
    ]
    react-updates (tick write_ok) s = elim (Bool-cases s.broadcasting) [
      | inl b ↦ rw b refl
      | inr b ↦ rw b refl
    ]
    react-updates ctx_done s = refl

    -- the store changes by the accepted profiles only
    pub run-updates :
        (xs : List Input) (s : System)
        → (run decode encode marshal xs s).store ≡ updates (accepted xs) s.store
    run-updates [] s = refl
    run-updates (x ∷ xs) s =
        run-updates xs (react decode encode marshal x s)
        ∙ ap (updates (accepted xs)) (react-updates x s)
        ∙ sym (updates-append (accepted_of x) (accepted xs) s.store)
