-- ===== src/Factory/Control.antt =====
-- agentic-factory/main.go: the store of the active hint profile, its HTTP handlers and the broadcast to
-- the Dynamo shim. The store's lock makes `update` and `active_of` one step each; `now` is what
-- `time.Now().UnixMilli()` returns. `encoding/json` is an argument.
pub mod Accepted
pub mod Delivery
pub mod Store
use asr_serve.Base.{
  ℕ, Bool, true, false, String, List, [], ◌∷◌, ◌++◌, Option, none, some, ◌⊎◌, inl, inr, ltb,
  if◌then◌else◌, length, drop, str_eq,
}
use asr_serve.Base.Int.{ℤ, pos}
use asr_serve.Base.Text.{Text, codes}

pub record Config : Type 0 where
  pub http_addr : String
  pub dynamo_shim_addr : String
  pub broadcast_interval_ms : ℤ

abbrev pub default_config : Config
default_config = record {
  http_addr = ":7070";
  dynamo_shim_addr = "127.0.0.1:7071";
  broadcast_interval_ms = pos 100;
}

pub record HintProfile : Type 0 where
  pub model_id : Text
  pub priority : ℤ
  pub kv_ttl_ms : ℤ
  pub debug : Bool
  pub updated_at : ℤ

pub record HintsStore : Type 0 where
  pub active : HintProfile
  pub history : List HintProfile

unfoldable pub new_hints_store : HintsStore
new_hints_store = record {
  active = record {
    model_id = codes "whisper-large-v3";
    priority = pos 5;
    kv_ttl_ms = pos 500;
    debug = false;
    updated_at = pos 0;
  };
  history = [];
}

unfoldable pub update : ℤ → HintProfile → HintsStore → HintsStore
update now p s =
    let longer = s.history ++ s.active ∷ [] in
    record {
      active = record p { updated_at = now };
      history = if ltb 100 (length longer) then drop 1 longer else longer;
    }

abbrev pub active_of : HintsStore → HintProfile
active_of s = s.active

pub data Method : Type 0 where
  method_get method_put : Method
  other_method : String → Method

pub record Request : Type 0 where
  pub path : String
  pub method : Method
  pub body : Text

-- what a handler asks of the response writer; `not_found` is the mux's own answer, to a path that is
-- clean but not registered
pub data Response : Type 0 where
  json_body : Text → Response
  http_error : Text → ℕ → Response
  no_content : Response
  not_found : Response

-- what happens to the process: a request, a tick of the broadcast with the outcome of its write, and the
-- end of the broadcast's context
pub data Input : Type 0 where
  request : ℤ → Request → Input
  tick : Bool → Input
  ctx_done : Input

pub record System : Type 0 where
  pub store : HintsStore
  pub broadcasting : Bool
  pub responses : List Response
  pub datagrams : List Text

-- A profile is decoded, or the error's text is given; a failed `Marshal` is `none`.
module _ (decode : Text → Text ⊎ HintProfile) (encode : HintProfile → Text)
    (marshal : HintProfile → Option Text) where
  abbrev pub put_hints : ℤ → Text ⊎ HintProfile → HintsStore → Response × HintsStore
  put_hints now (inl err) s = (http_error (codes "invalid JSON: " ++ err) 400, s)
  put_hints now (inr p) s = (no_content, update now p s)

  abbrev pub hints_handler : ℤ → Method → Text → HintsStore → Response × HintsStore
  hints_handler now method_get body s = (json_body (encode (active_of s)), s)
  hints_handler now method_put body s = put_hints now (decode body) s
  hints_handler now (other_method name) body s = (http_error (codes "method not allowed") 405, s)

  unfoldable pub serve_http : ℤ → Request → HintsStore → Response × HintsStore
  serve_http now r s =
      if str_eq r.path "/hints"
      then hints_handler now r.method r.body s
      else if str_eq r.path "/health"
      then (json_body (codes "{\"status\":\"ok\"}"), s)
      else (not_found, s)

  abbrev pub datagram_of : Bool → Option Text → List Text
  datagram_of write_ok none = []
  datagram_of false (some payload) = []
  datagram_of true (some payload) = payload ∷ []

  -- a round of `broadcastLoop`
  unfoldable pub on_tick : Bool → System → System
  on_tick write_ok s =
      if s.broadcasting
      then record s {
        datagrams = s.datagrams ++ datagram_of write_ok (marshal (active_of s.store));
      }
      else s

  unfoldable pub react : Input → System → System
  react (request now r) s =
      let (response, store) = serve_http now r s.store in
      record s { store = store; responses = s.responses ++ response ∷ [] }
  react (tick write_ok) s = on_tick write_ok s
  react ctx_done s = record s { broadcasting = false }

  abbrev pub run : List Input → System → System
  run [] s = s
  run (x ∷ xs) s = run xs (react x s)
