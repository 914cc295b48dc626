-- ===== src/Factory/Mcp/Metrics.antt =====
-- The metrics that the tools of agentic-factory/src/mcp_client.py store and show.
use Prim.Native.String.{◌++◌ as text_append}
use asr_serve.Base.{
  ℕ, ◌≡◌, ◌≢◌, refl, ◌∙◌, ap, ◌⊎◌, arith, false, String, [], ◌∷◌, none, some, str_eq, if◌then◌else◌,
  eq_iff, eq_refl,
}
use asr_serve.Base.Dict.{Dict, lookup, insert, lookup-insert}
use asr_serve.Base.Json.{Json}
use asr_serve.Base.Result.{ok, raise, value_error}
use asr_serve.Factory.Context.{FactoryContext, update_metrics, concat, text_argument}
use asr_serve.Factory.Mcp.{metrics_text, handle_get_metrics}

module _ {Float : Type 0} (fixed : ℕ → Float → String) where
  -- a figure is missing
  abbrev pub Lacks : Dict Float → String → Type 0
  Lacks m key = lookup key m ≡ none

  abbrev pub LacksSome : Dict Float → Type 0
  LacksSome m = Lacks m "wer" ⊎ (Lacks m "cer" ⊎ (Lacks m "rtf" ⊎ Lacks m "ttft_ms"))

  metrics_text-LacksSome :
      (title : String) (m : Dict Float)
      → LacksSome m
      → metrics_text fixed title m ≡ raise value_error
  unfolding metrics_text
  metrics_text-LacksSome title m h = ground (arith, h)

  metrics_text-some :
      (title : String) (m : Dict Float) (wer cer rtf ttft : Float)
      → lookup "wer" m ≡ some wer
      → lookup "cer" m ≡ some cer
      → lookup "rtf" m ≡ some rtf
      → lookup "ttft_ms" m ≡ some ttft
      → metrics_text fixed title m
        ≡ ok (
            concat (
              title
              ∷ ":\n  WER="
              ∷ fixed 3 wer
              ∷ "  CER="
              ∷ fixed 3 cer
              ∷ "  RTF="
              ∷ fixed 4 rtf
              ∷ "  TTFT="
              ∷ fixed 1 ttft
              ∷ " ms"
              ∷ []))
  unfolding metrics_text
  metrics_text-some title m wer cer rtf ttft a b c d = ground (arith, a, b, c, d)

  reply :
      (ctx : FactoryContext Float) (model_id : String) (m : Dict Float)
      (arguments : Dict (Json Float))
      → model_id ≢ ""
      → text_argument "model_id" arguments ≡ ok model_id
      → handle_get_metrics fixed (update_metrics model_id m ctx) arguments
        ≡ metrics_text fixed (text_append "Metrics for " model_id) m
  unfolding handle_get_metrics update_metrics
  reply ctx model_id m arguments named given =
      let stored : lookup model_id (insert model_id m ctx.metrics_store) ≡ some m =
        lookup-insert model_id model_id m ctx.metrics_store
        ∙ ap (λ b. if b then some m else lookup model_id ctx.metrics_store) (eq_refl model_id) in
      let name : str_eq model_id "" ≡ false = ground (arith, eq_iff model_id "", named) in
      rw (handle_get_metrics, given, name, stored) refl

  -- After `update_metrics` of a model with a name, `get_metrics` for it shows the four figures if they
  -- are there; and if one of them is missing, it raises a ValueError, where its text has an "n/a".
  pub handle_get_metrics-update_metrics :
      (ctx : FactoryContext Float) (model_id : String) (m : Dict Float)
      (arguments : Dict (Json Float))
      → model_id ≢ ""
      → text_argument "model_id" arguments ≡ ok model_id
      → ((wer cer rtf ttft : Float)
          → lookup "wer" m ≡ some wer
          → lookup "cer" m ≡ some cer
          → lookup "rtf" m ≡ some rtf
          → lookup "ttft_ms" m ≡ some ttft
          → handle_get_metrics fixed (update_metrics model_id m ctx) arguments
            ≡ ok (
                concat (
                  text_append "Metrics for " model_id
                  ∷ ":\n  WER="
                  ∷ fixed 3 wer
                  ∷ "  CER="
                  ∷ fixed 3 cer
                  ∷ "  RTF="
                  ∷ fixed 4 rtf
                  ∷ "  TTFT="
                  ∷ fixed 1 ttft
                  ∷ " ms"
                  ∷ [])))
        × (LacksSome m
            → handle_get_metrics fixed (update_metrics model_id m ctx) arguments
              ≡ raise value_error)
  handle_get_metrics-update_metrics ctx model_id m arguments named given =
      let found = reply ctx model_id m arguments named given in
      (
        λ wer cer rtf ttft a b c d. found ∙ metrics_text-some _ m wer cer rtf ttft a b c d,
        λ h. found ∙ metrics_text-LacksSome _ m h,
      )
