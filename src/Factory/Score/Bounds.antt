-- ===== src/Factory/Score/Bounds.antt =====
-- The error counts of a transcript against a reference, of agentic-factory/src/evaluator.py.
use asr_serve.Base.{ℕ, ◌≤◌, max, ◌↔◌, true, ◌≡◌, List, Option, some, arith, ◌==◌, length}
use asr_serve.Factory.EditDistance.Bounds.{edit_distance_bounds}
use asr_serve.Factory.EditDistance.Levenshtein.{dist}
use asr_serve.Factory.EditDistance.Rows.{same, edit_distance-eq-dist}
use asr_serve.Base.Text.{Text}
use asr_serve.Factory.Score.{text_eq, split, without_blanks, wer_components, cer_components}
use asr_serve.Factory.Score.Split.{text_eq_iff}

nat_eq_iff : (x y : ℕ) → ((x == y) ≡ true) ↔ (x ≡ y)
nat_eq_iff x y = ground arith

-- The pair that counts the edits from one sequence to another, over the length of the first.
abbrev pub Scores : {A : Type 0} → List A → List A → Option (ℕ × ℕ) → Type 0
Scores xs ys r =
    (e : ℕ) × (r ≡ some (e, max (length xs) 1))
    × (e ≤ max (length xs) (length ys))
    × ((e ≡ 0) ↔ (xs ≡ ys))

module _ (lower : Text → Text) (ref hyp : Text) where
  -- `_wer_components` never raises. It counts over the reference's words, or 1 if there is none, at
  -- most as many errors as the longer text has words, and none exactly if the lower-cased texts
  -- have the same words.
  pub wer_components_bounds :
      Scores (split (lower ref)) (split (lower hyp)) (wer_components lower ref hyp)
  unfolding wer_components
  wer_components_bounds =
      let (d, ran, above, _, _, exact) =
        edit_distance_bounds text_eq text_eq_iff (split (lower ref)) (split (lower hyp)) in
      (d, rw ran, above, exact)

  -- `_cer_components` is the same for the characters other than blanks.
  pub cer_components_bounds :
      Scores
        (without_blanks (lower ref))
        (without_blanks (lower hyp))
        (cer_components lower ref hyp)
  unfolding cer_components
  cer_components_bounds =
      let (d, ran, above, _, _, exact) =
        edit_distance_bounds ◌==◌ nat_eq_iff (without_blanks (lower ref))
          (without_blanks (lower hyp)) in
      (d, rw ran, above, exact)

  -- the least cost of an edit script from the words of the reference to those that were heard
  abbrev pub word_distance : ℕ
  word_distance =
      let ref_words = split (lower ref) in
      let hyp_words = split (lower hyp) in
      dist (same text_eq ref_words hyp_words) (length ref_words) (length hyp_words)

  pub wer_components-word_distance :
      wer_components lower ref hyp ≡ some (word_distance, max (length (split (lower ref))) 1)
  unfolding wer_components
  wer_components-word_distance =
      rw (edit_distance-eq-dist text_eq (split (lower ref)) (split (lower hyp)))
