-- ===== src/Factory/Evaluator/Counts.antt =====
-- What `evaluate_model` of agentic-factory/src/evaluator.py counts.
use mathlib.Core.Option.{some-injective}
use asr_serve.Base.{
  sym, ◌∙◌, ℕ, suc, ◌+◌, max, ◌≡◌, refl, ap, ◌↔◌, Bool, List, [], ◌∷◌, some, length, arith,
}
use asr_serve.Base.Floats.{Floats}
use asr_serve.Base.Int.{pos}
use asr_serve.Base.Text.{Text}
use asr_serve.Factory.Score.{split, without_blanks}
use asr_serve.Factory.Score.Bounds.{
  wer_components_bounds, cer_components_bounds, word_distance, wer_components-word_distance,
}
use asr_serve.Factory.Evaluator.{
  AsrModelCandidate, EvalSample, ModelMetrics, Call, Totals, transcribe, transcript_of, added,
  add_sample, add_samples, no_totals, metrics_of, evaluate_model,
}

module _ (fl : Floats) (lower : Text → Text) (connected : Bool) (call : ℕ → Call fl.Float) where
  open fl use {Float}

  abbrev pub heard : ℕ → Text
  heard i = transcript_of fl connected (call i).reply

  -- the words, or characters, of the references, each at least 1
  abbrev pub reference_words : List (EvalSample Float) → ℕ
  reference_words [] = 0
  reference_words (s ∷ samples) =
      max (length (split (lower s.reference_text))) 1 + reference_words samples

  -- the word errors of the transcripts, from number `i` on: each is the least number of words that are
  -- deleted, inserted or substituted to make the transcript of the reference
  abbrev pub word_errors : ℕ → List (EvalSample Float) → ℕ
  word_errors i [] = 0
  word_errors i (s ∷ samples) =
      word_distance lower s.reference_text (heard i) + word_errors (suc i) samples

  -- Every transcript, from number `i` on, has the words of its reference.
  abbrev pub AllRight : ℕ → List (EvalSample Float) → Type 0
  AllRight i [] = Unit
  AllRight i (s ∷ samples) =
      (split (lower s.reference_text) ≡ split (lower (heard i))) × AllRight (suc i) samples

  add_sample_counts :
      (i : ℕ) (s : EvalSample Float) (t : Totals fl)
      → (u : Totals fl) × (add_sample fl lower connected s (call i) t ≡ some u)
        × (u.words ≡ t.words + max (length (split (lower s.reference_text))) 1)
        × (u.wer_errors ≡ t.wer_errors + word_distance lower s.reference_text (heard i))
  unfolding add_sample transcribe
  add_sample_counts i s t =
      let ran = wer_components-word_distance lower s.reference_text (heard i) in
      let (e', ran', _, _) = cer_components_bounds lower s.reference_text (heard i) in
      (
        added fl s (transcribe fl connected (call i)).1
            (
              word_distance lower s.reference_text (heard i),
              max (length (split (lower s.reference_text))) 1,
            )
            (e', max (length (without_blanks (lower s.reference_text))) 1) t,
        rw (ran, ran'),
        refl,
        refl,
      )

  word_distance-zero :
      (i : ℕ) (s : EvalSample Float)
      → (word_distance lower s.reference_text (heard i) ≡ 0)
        ↔ (split (lower s.reference_text) ≡ split (lower (heard i)))
  word_distance-zero i s =
      let (e, ran, _, exact) = wer_components_bounds lower s.reference_text (heard i) in
      let ran' = wer_components-word_distance lower s.reference_text (heard i) in
      let same = ap (λ p. p.0) (some-injective _ _ (sym ran' ∙ ran)) in
      (λ zero. exact.0 (sym same ∙ zero), λ right. same ∙ exact.1 right)

  word_errors-zero :
      (i : ℕ) (samples : List (EvalSample Float)) → (word_errors i samples ≡ 0) ↔ AllRight i samples
  word_errors-zero i [] = (λ e. tt, λ h. refl)
  word_errors-zero i (s ∷ samples) =
      let first = word_distance-zero i s in
      let rest = word_errors-zero (suc i) samples in
      (
        λ none_wrong. (first.0 (omega arith), rest.0 (omega arith)),
        λ right. let a = first.1 right.0 in let b = rest.1 right.1 in omega arith,
      )

  add_samples_counts :
      (i : ℕ) (samples : List (EvalSample Float)) (t : Totals fl)
      → (u : Totals fl) × (add_samples fl lower connected call i samples t ≡ some u)
        × (u.words ≡ t.words + reference_words samples)
        × (u.wer_errors ≡ t.wer_errors + word_errors i samples)
  unfolding add_samples
  add_samples_counts i [] t = (t, refl, omega arith, omega arith)
  add_samples_counts i (s ∷ samples) t =
      let (u, ran, words, errors) = add_sample_counts i s t in
      let (v, ran', words', errors') = add_samples_counts (suc i) samples u in
      (v, rw (ran, add_samples) ran', omega arith, omega arith)

  -- Evaluating a model on one sample or more never raises. The metrics bear the model's id and the number of
  -- samples. The word error rate is the ratio of the word errors, summed over the samples, to the words of
  -- the references (1 for a text without words); the errors of a sample are the least number of words to
  -- delete, insert or substitute, in lower case, between its reference and its transcript. So there are none
  -- exactly if every transcript has, in lower case, the words of its reference.
  pub evaluate_model_counts :
      (now : Float) (candidate : AsrModelCandidate) (s : EvalSample Float)
      (samples : List (EvalSample Float))
      → (m : ModelMetrics Float) × (evaluate_model fl lower connected now call candidate
            (s ∷ samples)
          ≡ some m)
        × (m.model_id ≡ candidate.model_id)
        × (m.wer
            ≡ fl.ratio (pos (word_errors 0 (s ∷ samples))) (pos (reference_words (s ∷ samples))))
        × (m.n_samples ≡ length (s ∷ samples))
        × ((word_errors 0 (s ∷ samples) ≡ 0) ↔ AllRight 0 (s ∷ samples))
  unfolding evaluate_model
  evaluate_model_counts now candidate s samples =
      let (u, ran, words, errors) =
        add_samples_counts 0 (s ∷ samples) (no_totals fl lower connected) in
      let denominator : max u.words 1 ≡ reference_words (s ∷ samples) = omega arith in
      let numerator : u.wer_errors ≡ word_errors 0 (s ∷ samples) = omega arith in
      (
        metrics_of fl lower connected candidate.model_id now (length (s ∷ samples)) u,
        rw ran,
        refl,
        ap (λ n. fl.ratio (pos u.wer_errors) (pos n)) denominator
            ∙ ap (λ n. fl.ratio (pos n) (pos (reference_words (s ∷ samples)))) numerator,
        refl,
        word_errors-zero 0 (s ∷ samples),
      )
