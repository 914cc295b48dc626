-- ===== src/Factory/Score.antt =====
-- `_wer_components` and `_cer_components` of agentic-factory/src/evaluator.py. A text is the list of
-- its code points. `str.lower` follows Unicode's case tables, so it is the parameter `lower`.
pub mod Split
pub mod Bounds
use asr_serve.Base.{
  ℕ, zero, suc, ◌+◌, ◌≤◌, max, Bool, true, false, not, ◌&&◌, ◌||◌, List, [], ◌∷◌, ◌++◌, Option,
  some, ◌==◌, leb, if◌then◌else◌, length, keep,
}
use asr_serve.Base.Loops.{◌>>=◌}
use asr_serve.Base.Text.{Text, is_space}
use asr_serve.Factory.EditDistance.{edit_distance}

-- `s == t`
pub text_eq : Text → Text → Bool
text_eq [] [] = true
text_eq [] (y ∷ t) = false
text_eq (x ∷ s) [] = false
text_eq (x ∷ s) (y ∷ t) = x == y && text_eq s t

-- the word read so far, if it is not empty, before the words that follow
abbrev pub flush : Text → List Text → List Text
flush [] words = words
flush (c ∷ word) words = (c ∷ word) ∷ words

-- `s.split()`, with the word read so far
pub split_from : Text → Text → List Text
split_from word [] = flush word []
split_from word (c ∷ s) =
    let rest = split_from (if is_space c then [] else word ++ c ∷ []) s in
    if is_space c then flush word rest else rest

pub split : Text → List Text
unfolding split_from
split s = split_from [] s

-- `s.replace(" ", "")`
pub without_blanks : Text → Text
without_blanks s = keep (λ c. not (c == 32)) s

module _ (lower : Text → Text) where
  pub wer_components : Text → Text → Option (ℕ × ℕ)
  unfolding split text_eq
  wer_components ref hyp = do
    let ref_words = split (lower ref)
    let hyp_words = split (lower hyp)
    errors ← edit_distance text_eq ref_words hyp_words
    some (errors, max (length ref_words) 1)

  pub cer_components : Text → Text → Option (ℕ × ℕ)
  unfolding without_blanks
  cer_components ref hyp = do
    let ref_chars = without_blanks (lower ref)
    let hyp_chars = without_blanks (lower hyp)
    errors ← edit_distance ◌==◌ ref_chars hyp_chars
    some (errors, max (length ref_chars) 1)
