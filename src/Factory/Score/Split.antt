-- ===== src/Factory/Score/Split.antt =====
-- `str.split()`, as `_wer_components` of agentic-factory/src/evaluator.py uses it.
use asr_serve.Base.{
  true, false, not, List, [], ◌∷◌, ◌++◌, ◌≡◌, ◌≢◌, refl, ◌↔◌, keep, All, arith, Bool-cases, inl,
  inr, ap, sym, ◌∙◌,
}
use mathlib.Core.List.{append_assoc, append-nil}
use asr_serve.Base.Text.{Text, is_space}
use asr_serve.Factory.Score.{text_eq, flush, split_from, split}

-- the text without its white space
pub squeeze : Text → Text
squeeze s = keep (λ c. not (is_space c)) s

pub join : List Text → Text
join [] = []
join (w ∷ ws) = w ++ join ws

abbrev pub IsWord : Text → Type 0
IsWord w = (w ≢ []) × All (λ c. is_space c ≡ false) w

join-flush : (w : Text) (ws : List Text) → join (flush w ws) ≡ w ++ join ws
unfolding join
join-flush [] ws = refl
join-flush (c ∷ w) ws = refl

join-split_from : (w s : Text) → join (split_from w s) ≡ w ++ squeeze s
unfolding split_from squeeze join
join-split_from w [] = join-flush w []
join-split_from w (c ∷ s) = elim (Bool-cases (is_space c)) [
  | inl e ↦ rw e (join-flush w _ ∙ ap (◌++◌ w) (join-split_from [] s))
  | inr e ↦ rw e (join-split_from (w ++ c ∷ []) s ∙ append_assoc w (c ∷ []) (squeeze s))
]

All-snoc :
    {A : Type 0} (P : A → Type 0) (xs : List A) (x : A) → All P xs → P x → All P (xs ++ x ∷ [])
All-snoc P [] x h p = (p, tt)
All-snoc P (y ∷ xs) x h p = (h.0, All-snoc P xs x h.1 p)

flush-IsWord :
    (w : Text) (ws : List Text)
    → All (λ c. is_space c ≡ false) w
    → All IsWord ws
    → All IsWord (flush w ws)
flush-IsWord [] ws h all = all
flush-IsWord (c ∷ w) ws h all = ((λ e. cc e, h), all)

split_from-IsWord : (w s : Text) → All (λ c. is_space c ≡ false) w → All IsWord (split_from w s)
unfolding split_from
split_from-IsWord w [] h = flush-IsWord w [] h tt
split_from-IsWord w (c ∷ s) h = elim (Bool-cases (is_space c)) [
  | inl e ↦ rw e (flush-IsWord w _ h (split_from-IsWord [] s tt))
  | inr e ↦ rw e (split_from-IsWord (w ++ c ∷ []) s (All-snoc _ w c h e))
]

-- The words of a text, put together, are the text without its white space; no word is empty, and
-- none holds white space.
split_words : (s : Text) → (join (split s) ≡ squeeze s) × All IsWord (split s)
unfolding split
split_words s = (join-split_from [] s, split_from-IsWord [] s tt)

pub text_eq_iff : (s t : Text) → (text_eq s t ≡ true) ↔ (s ≡ t)
unfolding text_eq
text_eq_iff [] [] = ground arith
text_eq_iff [] (y ∷ t) = ground arith
text_eq_iff (x ∷ s) [] = ground arith
text_eq_iff (x ∷ s) (y ∷ t) = ground (arith, text_eq_iff s t)

-- the words with a blank behind each
pub spaced : List Text → Text
spaced [] = []
spaced (w ∷ ws) = w ++ (32 ∷ spaced ws)

split_from-append :
    (w v s : Text) → All (λ c. is_space c ≡ false) v → split_from w (v ++ s) ≡ split_from (w ++ v) s
unfolding split_from
split_from-append w [] s h = ap (λ u. split_from u s) (sym (append-nil w))
split_from-append w (c ∷ v) s h =
    rw h.0 (
      split_from-append (w ++ c ∷ []) v s h.1
      ∙ ap (λ u. split_from u s) (append_assoc w (c ∷ []) v))

split_from-spaced : (w : Text) (s : Text) → w ≢ [] → split_from w (32 ∷ s) ≡ w ∷ split_from [] s
unfolding split_from is_space
split_from-spaced [] s h = absurd (h refl)
split_from-spaced (c ∷ w) s h = refl

-- Splitting gives back any words, none empty and none with white space, that stand apart by blanks.
split-spaced : (ws : List Text) → All IsWord ws → split (spaced ws) ≡ ws
unfolding split spaced
split-spaced [] h = unfold split_from in refl
split-spaced (w ∷ ws) h =
    split_from-append [] w (32 ∷ spaced ws) h.0.1
    ∙ split_from-spaced w (spaced ws) h.0.0
    ∙ ap (◌∷◌ w) (unfold split in split-spaced ws h.1)
