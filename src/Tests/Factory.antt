-- ===== src/Tests/Factory.antt =====
-- The theorems on the agentic factory at concrete inputs.
use mathlib.Core.List.{cons-ne-nil}
use asr_serve.Base.{
  ℕ, str_eq, ◌+◌, ◌≤◌, ◌≡◌, refl, arith, All, Bool, true, false, ◌==◌, String, List, [], ◌∷◌, some,
  length, if◌then◌else◌,
}
use asr_serve.Base.Dict.{Dict, IsDict}
use asr_serve.Base.Floats.{micro}
use asr_serve.Base.Int.{pos}
use asr_serve.Base.Result.{ok, ◌>>=◌}
use asr_serve.Base.Text.{is_space, Text, codes, ascii_digit}
use asr_serve.Base.Value.{int, str}
use asr_serve.Factory.EditDistance.{edit_distance, fill_row, store, range, fill_cell}
use asr_serve.Base.Loops.{for_range}
use asr_serve.Factory.EditDistance.Levenshtein.{Script}
use asr_serve.Factory.EditDistance.Rows.{same, edit_distance_least}
use asr_serve.Factory.Score.Split.{IsWord}
use asr_serve.Factory.Hints.{HintProfile, AgentHintsManager, default_profile, set_profile, set_hint}
use asr_serve.Base.Value.{Value}
use asr_serve.Factory.Hints.History.{take_last, run_profiles, trail, run_profiles-trail}
use asr_serve.Factory.Hints.Patch.{patched, set_hint-patched}
use asr_serve.Factory.Scheduler.{Entry, Turn, registers, ticks, tick, run_loop}
use asr_serve.Factory.Scheduler.Loop.{run_loop-total}
use asr_serve.Factory.Scheduler.Tick.{call_all, dead, alive, tick_lem}

abbrev kitten : List ℕ
kitten = 1 ∷ 2 ∷ 3 ∷ 3 ∷ 4 ∷ 5 ∷ []

abbrev sitting : List ℕ
sitting = 6 ∷ 2 ∷ 3 ∷ 3 ∷ 2 ∷ 5 ∷ 7 ∷ []

edit_distance-kitten : edit_distance ◌==◌ kitten sitting ≡ some 3
unfolding edit_distance for_range fill_row store range fill_cell
edit_distance-kitten = refl

edit_distance_least_example :
    (d : ℕ) × (edit_distance ◌==◌ kitten sitting ≡ some d)
    × Script (same ◌==◌ kitten sitting) 6 7 d
    × ((k : ℕ) → Script (same ◌==◌ kitten sitting) 6 7 k → d ≤ k)
edit_distance_least_example = edit_distance_least ◌==◌ kitten sitting

-- a text without letters that change with their case
abbrev digits_text : Text
digits_text = codes "1 22  3"

abbrev two_words : List Text
two_words = codes "1" ∷ codes "22" ∷ []

two_words-IsWord : All IsWord two_words
unfolding is_space
two_words-IsWord = ((cons-ne-nil _ _, (refl, tt)), ((cons-ne-nil _ _, (refl, (refl, tt))), tt))

abbrev profile : ℕ → HintProfile ℕ
profile n = default_profile (str (codes "canary-1b")) n

abbrev manager : AgentHintsManager ℕ
manager = record { active = profile 0; history = [] }

run_profiles-trail_example :
    (trail (run_profiles (profile 1 ∷ profile 2 ∷ []) manager)
      ≡ take_last 101 (profile 0 ∷ profile 1 ∷ profile 2 ∷ []))
    × (length (run_profiles (profile 1 ∷ profile 2 ∷ []) manager).history ≤ 100)
run_profiles-trail_example = run_profiles-trail (profile 1 ∷ profile 2 ∷ []) manager (omega arith)

set_hint-patched_example : set_hint micro ascii_digit 3 "priority" (int (pos 8)) manager ≡ (do
  p ← patched micro ascii_digit 3 "priority" (int (pos 8)) (profile 0)
  ok (set_profile p manager))
set_hint-patched_example = set_hint-patched micro ascii_digit 3 "priority" (int (pos 8)) manager

-- A callback counts its calls, and raises at the handle "b".
abbrev count_call : Unit {0} → String → ℕ → Bool × ℕ
count_call u h n = (if str_eq h "b" then false else true, n + 1)

abbrev entries : Dict (Entry ℕ (Unit {0}))
entries =
    ("a", record { deadline = 5; evict_fn = tt })
    ∷ ("b", record { deadline = 6; evict_fn = tt })
    ∷ ("c", record { deadline = 9; evict_fn = tt })
    ∷ []

entries-IsDict : IsDict entries
entries-IsDict = (refl, (refl, (refl, tt)))

tick_lem_example :
    tick micro count_call 7 entries 0
    ≡ ok (
      (call_all micro count_call (dead micro count_call 7 entries) 0).0,
      alive micro count_call 7 entries,
      (call_all micro count_call (dead micro count_call 7 entries) 0).1,
    )
tick_lem_example = tick_lem micro count_call 7 entries 0 entries-IsDict

-- A tick, two registrations, one of them of a handle that is there, and two more ticks.
abbrev turns : List (Turn ℕ (Unit {0}))
turns =
    ticks 5
    ∷ registers 6_000_000 "b" (pos 500) tt
    ∷ registers 6_000_000 "d" (pos 1000) tt
    ∷ ticks 6_500_000
    ∷ ticks 8_000_000
    ∷ []

run_loop-total_example :
    (evicted : List String) × (entries' : Dict (Entry ℕ (Unit {0}))) × (w' : ℕ) × (run_loop micro
        count_call turns entries 0
      ≡ ok (evicted, entries', w'))
    × IsDict entries'
    × (length evicted + length entries' ≤ 3 + 2)
run_loop-total_example = run_loop-total micro count_call turns entries 0 entries-IsDict

-- The caller sends its own priority.
abbrev own_headers : Dict (Value ℕ)
own_headers = ("X-Agent-Priority", str (codes "1")) ∷ []
