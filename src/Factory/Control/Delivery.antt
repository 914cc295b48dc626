-- ===== src/Factory/Control/Delivery.antt =====
-- What the handlers of agentic-factory/main.go answer after a `PUT /hints`, and what is broadcast.
use asr_serve.Base.{◌≡◌, refl, ap, ◌∙◌, true, Option, some, ◌⊎◌, inr, List, [], ◌∷◌, ◌++◌}
use asr_serve.Base.Int.{ℤ}
use asr_serve.Base.Text.{Text}
use asr_serve.Factory.Control.{
  HintProfile, HintsStore, update, method_get, method_put, Request, json_body, no_content, Input,
  request, tick, System, put_hints, serve_http, on_tick, react, run,
}
use asr_serve.Factory.Control.Accepted.{updates, accepted, run-updates}

abbrev pub put : Text → Request
put body = record { path = "/hints"; method = method_put; body = body }

abbrev pub get : Request
get = record { path = "/hints"; method = method_get; body = [] }

module _ (decode : Text → Text ⊎ HintProfile) (encode : HintProfile → Text)
    (marshal : HintProfile → Option Text) where
  on_tick-sends :
      (payload : Text) (t : System)
      → t.broadcasting ≡ true
      → marshal t.store.active ≡ some payload
      → (on_tick decode encode marshal true t).datagrams ≡ t.datagrams ++ payload ∷ []
  unfolding on_tick
  on_tick-sends payload t b m = rw (b, m) refl

  -- the state after the request and the inputs
  abbrev pub after_put : ℤ → Text → List Input → System → System
  after_put now body xs s = run decode encode marshal (request now (put body) ∷ xs) s

  -- After a `PUT /hints` whose body is decoded, which is answered with 204, and any inputs without
  -- another such request, `GET /hints` answers the profile that was put, with the time of its arrival, and if
  -- the broadcast still runs and the profile can be marshalled, a tick whose write succeeds sends it.
  pub put-get :
      (now later : ℤ) (body payload : Text) (p : HintProfile) (xs : List Input) (s : System)
      → decode body ≡ inr p
      → accepted decode xs ≡ []
      → (after_put now body xs s).broadcasting ≡ true
      → marshal (record p { updated_at = now }) ≡ some payload
      → let t = after_put now body xs s in
        ((serve_http decode encode marshal now (put body) s.store).0 ≡ no_content)
        × ((serve_http decode encode marshal later get t.store).0
            ≡ json_body (encode (record p { updated_at = now })))
        × ((react decode encode marshal (tick true) t).datagrams ≡ t.datagrams ++ payload ∷ [])
  unfolding react serve_http update
  put-get now later body payload p xs s e quiet running marshalled =
      let t = after_put now body xs s in
      let first : (put_hints decode encode marshal now (decode body) s.store)
          ≡ (no_content, update now p s.store) =
        rw e refl in
      let store : t.store ≡ update now p s.store =
        run-updates decode encode marshal xs
          (react decode encode marshal (request now (put body)) s)
        ∙ ap (λ ps. updates ps (react decode encode marshal (request now (put body)) s).store) quiet
        ∙ ap (λ r. r.1) first in
      let active : t.store.active ≡ record p { updated_at = now } =
        ap (λ (r : HintsStore). r.active) store in
      (
        ap (λ r. r.0) first,
        ap (λ q. json_body (encode q)) active,
        on_tick-sends payload t running (ap marshal active ∙ marshalled),
      )
