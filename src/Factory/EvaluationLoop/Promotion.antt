-- ===== src/Factory/EvaluationLoop/Promotion.antt =====
-- The promotion at the end of `_eval_cycle` of agentic-factory/src/evaluator.py.
use mathlib.Core.Path.{subst}
use mathlib.Core.Option.{some-injective, some-ne-none}
use asr_serve.Base.{
  All, ◌↔◌, ℕ, ◌+◌, ◌≡◌, ◌≢◌, refl, ap, sym, ◌∙◌, ◌⊎◌, inl, inr, Bool, true, false, String, List,
  [], ◌∷◌, none, some, map, str_eq, if◌then◌else◌, arith, eq_iff, Bool-cases, Option-cases,
}
use asr_serve.Base.Dict.{lookup, lookup-insert, str_eq_comm}
use asr_serve.Base.Floats.{Floats}
use asr_serve.Base.Member.{Member}
use asr_serve.Factory.Evaluator.{AsrModelCandidate, ModelMetrics}
use asr_serve.Factory.EvaluationLoop.{
  EvaluationLoop, promote_candidates, promote, active_candidate, improves, recorded, replaced,
  conclude,
}

abbrev pub ids : List AsrModelCandidate → List String
ids = map (λ c. c.model_id)

abbrev pub active_count : List AsrModelCandidate → ℕ
active_count [] = 0
active_count (c ∷ cs) = (if c.is_active then 1 else 0) + active_count cs

abbrev pub AllDistinct : List String → Type 0
AllDistinct [] = Unit
AllDistinct (x ∷ xs) = (¬ Member x xs) × AllDistinct xs

-- No two candidates have one id, and exactly one is active.
pub record IsServing (cs : List AsrModelCandidate) : Type 0 where
  pub distinct : AllDistinct (ids cs)
  pub one_active : active_count cs ≡ 1

pub ids-promote :
    (id : String) (cs : List AsrModelCandidate) → ids (promote_candidates id cs) ≡ ids cs
unfolding promote_candidates
ids-promote id [] = refl
ids-promote id (c ∷ cs) = ap (◌∷◌ c.model_id) (ids-promote id cs)

promote_absent :
    (id : String) (cs : List AsrModelCandidate)
    → ¬ Member id (ids cs)
    → active_count (promote_candidates id cs) ≡ 0
unfolding promote_candidates
promote_absent id [] n = refl
promote_absent id (c ∷ cs) n = elim (Bool-cases (str_eq c.model_id id)) [
  | inl e ↦ absurd (n (inl (sym ((eq_iff c.model_id id).0 e))))
  | inr e ↦ rw e (omega (arith, promote_absent id cs (λ m. n (inr m))))
]

promote_present :
    (id : String) (cs : List AsrModelCandidate)
    → AllDistinct (ids cs)
    → Member id (ids cs)
    → active_count (promote_candidates id cs) ≡ 1
unfolding promote_candidates
promote_present id [] d m = absurd m
promote_present id (c ∷ cs) d (inl e) =
    let first : str_eq c.model_id id ≡ true = (eq_iff c.model_id id).1 (sym e) in
    let others = promote_absent id cs (λ m. d.0 (subst (λ i. Member i (ids cs)) e m)) in
    rw first (omega arith)
promote_present id (c ∷ cs) d (inr m) = elim (Bool-cases (str_eq c.model_id id)) [
  | inl e ↦ absurd (d.0 (subst (λ i. Member i (ids cs)) (sym ((eq_iff c.model_id id).0 e)) m))
  | inr e ↦ rw e (omega (arith, promote_present id cs d.1 m))
]

pub promote-IsServing :
    (id : String) (cs : List AsrModelCandidate)
    → IsServing cs
    → Member id (ids cs)
    → IsServing (promote_candidates id cs)
promote-IsServing id cs h m = record {
  distinct = subst AllDistinct (sym (ids-promote id cs)) h.distinct;
  one_active = promote_present id cs h.distinct m;
}

-- The candidates of one id are active, and no others.
abbrev pub AloneActive : String → List AsrModelCandidate → Type 0
AloneActive id cs = All (λ c. (c.is_active ≡ true) ↔ (c.model_id ≡ id)) cs

-- the candidates but for which of them is active
abbrev pub inactive : AsrModelCandidate → AsrModelCandidate
inactive c = record c { is_active = false }

abbrev pub listed : List AsrModelCandidate → List AsrModelCandidate
listed = map inactive

promote-AloneActive :
    (id : String) (cs : List AsrModelCandidate) → AloneActive id (promote_candidates id cs)
unfolding promote_candidates
promote-AloneActive id [] = tt
promote-AloneActive id (c ∷ cs) = (eq_iff c.model_id id, promote-AloneActive id cs)

listed-promote :
    (id : String) (cs : List AsrModelCandidate) → listed (promote_candidates id cs) ≡ listed cs
unfolding promote_candidates
listed-promote id [] = refl
listed-promote id (c ∷ cs) = ap (◌∷◌ (inactive c)) (listed-promote id cs)

-- Of some candidates, before and after: they are the same, and of them those of the id are now active.
abbrev pub Activated : String → List AsrModelCandidate → List AsrModelCandidate → Type 0
Activated id before after = (listed after ≡ listed before) × AloneActive id after

promote-Activated :
    (id : String) (before after : List AsrModelCandidate)
    → after ≡ promote_candidates id before
    → Activated id before after
promote-Activated id before after e =
    subst (Activated id before) (sym e) (listed-promote id before, promote-AloneActive id before)

-- what an `if` is when its test holds
chosen : {A : Type 0} (b : Bool) (x y : A) → b ≡ true → (if b then x else y) ≡ x
chosen true x y e = refl
chosen false x y e = cc

none_active :
    (cs : List AsrModelCandidate) (a : AsrModelCandidate)
    → active_count cs ≡ 0
    → Member a cs
    → a.is_active ≡ true
    → ⊥
none_active [] a h m active = m
none_active (c ∷ cs) a h (inl e) active =
    let there : c.is_active ≡ true = rw (← e) active in
    let count = rw there at h in absurd (omega (arith, count))
none_active (c ∷ cs) a h (inr m) active = none_active cs a (omega arith) m active

-- With one active candidate, an active one is the one that the loop finds.
sole_active :
    (cs : List AsrModelCandidate) (a : AsrModelCandidate)
    → active_count cs ≡ 1
    → Member a cs
    → a.is_active ≡ true
    → active_candidate cs ≡ some a
unfolding active_candidate
sole_active [] a h m active = absurd m
sole_active (c ∷ cs) a h m active = elim (Bool-cases c.is_active) [
  | inl e ↦
      let count = rw e at h in
      elim m [
        | inl same ↦ chosen c.is_active _ _ e ∙ ap some (sym same)
        | inr later ↦ absurd (none_active cs a (omega (arith, count)) later active)
      ]
  | inr e ↦
      let count = rw e at h in
      elim m [
        | inl same ↦
            (let on : c.is_active ≡ true = rw (← same) active in absurd (ground (arith, on, e)))
        | inr later ↦ rw e (sole_active cs a (omega (arith, count)) later active)
      ]
]

active-Member :
    (cs : List AsrModelCandidate) (a : AsrModelCandidate)
    → active_candidate cs ≡ some a
    → Member a cs × (a.is_active ≡ true)
unfolding active_candidate
active-Member [] a h = cc
active-Member (c ∷ cs) a h = elim (Bool-cases c.is_active) [
  | inl e ↦
      let same : c ≡ a = some-injective _ _ (sym (chosen c.is_active _ _ e) ∙ h) in
      (inl (sym same), subst (λ x. x.is_active ≡ true) same e)
  | inr e ↦ let (there, active) = active-Member cs a (rw e at h) in (inr there, active)
]

module _ (fl : Floats) where
  open fl use {Float}

  -- The best model is another than the active one, whose recorded error rate is above the best one's by
  -- more than the threshold.
  abbrev pub Warranted : EvaluationLoop Float → ModelMetrics Float → AsrModelCandidate → Type 0
  Warranted loop best active =
      (active.model_id ≢ best.model_id)
      × (m : ModelMetrics Float) × (lookup active.model_id loop.best_metrics ≡ some m)
      × (fl.lt loop.wer_promote_thresh (fl.sub m.wer best.wer) ≡ true)

  -- what a cycle that promotes the best model has done, and why
  abbrev Promotes : EvaluationLoop Float → ModelMetrics Float → EvaluationLoop Float → Type 0
  Promotes loop best loop' =
      (loop'.candidates ≡ promote_candidates best.model_id loop.candidates)
      × (active : AsrModelCandidate) × (active_candidate loop.candidates ≡ some active)
      × Warranted loop best active

  -- Of the same candidates those of the best id are active; an active one was worse by enough.
  abbrev pub Promoted : EvaluationLoop Float → ModelMetrics Float → EvaluationLoop Float → Type 0
  Promoted loop best loop' =
      Activated best.model_id loop.candidates loop'.candidates
      × (active : AsrModelCandidate) × Member active loop.candidates
      × (active.is_active ≡ true)
      × Warranted loop best active

  pub Promotes-Promoted :
      (loop : EvaluationLoop Float) (best : ModelMetrics Float) (loop' : EvaluationLoop Float)
      → Promotes loop best loop'
      → Promoted loop best loop'
  Promotes-Promoted loop best loop' (same, active, first, why) =
      let (there, on) = active-Member loop.candidates active first in
      (
        promote-Activated best.model_id loop.candidates loop'.candidates same,
        active,
        there,
        on,
        why,
      )

  improves_inv :
      (loop : EvaluationLoop Float) (active : AsrModelCandidate) (best : ModelMetrics Float)
      → improves fl loop active best ≡ true
      → (m : ModelMetrics Float) × (lookup active.model_id loop.best_metrics ≡ some m)
        × (fl.lt loop.wer_promote_thresh (fl.sub m.wer best.wer) ≡ true)
  unfolding improves
  improves_inv loop active best h = elim (Option-cases (lookup active.model_id loop.best_metrics)) [
    | inl e ↦ (let no : false ≡ true = rw (improves, e) at h in absurd (ground (arith, no)))
    | inr (m, e) ↦ (m, e, rw (improves, e) at h)
  ]

  pub conclude_idle :
      (now : Float) (best : ModelMetrics Float) (loop : EvaluationLoop Float)
      → active_candidate loop.candidates ≡ none
      → conclude fl now best loop ≡ recorded fl now best loop
  unfolding conclude
  conclude_idle now best loop e = rw (conclude, e) refl

  pub conclude-replaced :
      (now : Float) (best : ModelMetrics Float) (loop : EvaluationLoop Float)
      (active : AsrModelCandidate)
      → active_candidate loop.candidates ≡ some active
      → conclude fl now best loop ≡ (
          if replaced fl (recorded fl now best loop) active best
          then promote best.model_id (recorded fl now best loop)
          else recorded fl now best loop)
  unfolding conclude
  conclude-replaced now best loop active e = rw (conclude, e) refl

  promoted_candidates :
      (now : Float) (best : ModelMetrics Float) (loop : EvaluationLoop Float)
      → (promote best.model_id (recorded fl now best loop)).candidates
        ≡ promote_candidates best.model_id loop.candidates
  unfolding promote
  promoted_candidates now best loop = refl

  pub conclude_cases :
      (now : Float) (best : ModelMetrics Float) (loop : EvaluationLoop Float)
      → ((conclude fl now best loop).candidates ≡ loop.candidates)
        ⊎ Promotes loop best (conclude fl now best loop)
  conclude_cases now best loop = elim (Option-cases (active_candidate loop.candidates)) [
    | inl e ↦ inl (ap (λ l. l.candidates) (conclude_idle now best loop e))
    | inr (active, e) ↦
        let run = conclude-replaced now best loop active e in
        elim (Bool-cases (str_eq active.model_id best.model_id)) [
          | inl same ↦ inl (ap (λ l. l.candidates) (rw same at run))
          | inr other ↦ elim (Bool-cases (improves fl (recorded fl now best loop) active best)) [
            | inl better ↦
                let (m, found, above) =
                  improves_inv (recorded fl now best loop) active best better in
                let before = lookup-insert best.model_id active.model_id best loop.best_metrics in
                let differs : active.model_id ≢ best.model_id = λ same.
                  let equal = (eq_iff active.model_id best.model_id).1 same in
                  absurd (ground (arith, equal, other)) in
                inr (
                  ap (λ l. l.candidates) (rw (other, better) at run)
                      ∙ promoted_candidates now best loop,
                  active,
                  e,
                  (
                    differs,
                    m,
                    sym (rw (str_eq_comm best.model_id active.model_id, other) at before) ∙ found,
                    above,
                  ),
                )
            | inr worse ↦ inl (ap (λ l. l.candidates) (rw (other, worse) at run))
          ]
        ]
  ]

  improves-some :
      (loop : EvaluationLoop Float) (active : AsrModelCandidate) (best m : ModelMetrics Float)
      → lookup active.model_id loop.best_metrics ≡ some m
      → improves fl loop active best ≡ fl.lt loop.wer_promote_thresh (fl.sub m.wer best.wer)
  unfolding improves
  improves-some loop active best m e = rw (improves, e) refl

  improves-none :
      (loop : EvaluationLoop Float) (active : AsrModelCandidate) (best : ModelMetrics Float)
      → lookup active.model_id loop.best_metrics ≡ none
      → improves fl loop active best ≡ false
  unfolding improves
  improves-none loop active best e = rw (improves, e) refl

  candidates-promote :
      (b : Bool) (id : String) (l : EvaluationLoop Float)
      → (if b then promote id l else l).candidates
        ≡ (if b then promote_candidates id l.candidates else l.candidates)
  unfolding promote
  candidates-promote true id l = refl
  candidates-promote false id l = refl

  conclude-other :
      (now : Float) (best : ModelMetrics Float) (loop : EvaluationLoop Float)
      (active : AsrModelCandidate)
      → active_candidate loop.candidates ≡ some active
      → active.model_id ≢ best.model_id
      → ((m : ModelMetrics Float)
          → lookup active.model_id loop.best_metrics ≡ some m
          → (conclude fl now best loop).candidates ≡ (
              if fl.lt loop.wer_promote_thresh (fl.sub m.wer best.wer)
              then promote_candidates best.model_id loop.candidates
              else loop.candidates))
        × (lookup active.model_id loop.best_metrics ≡ none
            → (conclude fl now best loop).candidates ≡ loop.candidates)
  conclude-other now best loop active e differs =
      let other : str_eq active.model_id best.model_id ≡ false =
        ground (arith, differs, eq_iff active.model_id best.model_id) in
      let other' = str_eq_comm best.model_id active.model_id ∙ other in
      let known = lookup-insert best.model_id active.model_id best loop.best_metrics in
      let kept = rw other' at known in
      let run = conclude-replaced now best loop active e in
      let after = ap (λ l. l.candidates) (rw other at run) in
      (
        λ m found.
            after
            ∙ ap
                (λ b.
                  (if b
                    then promote best.model_id (recorded fl now best loop)
                    else recorded fl now best loop).candidates)
                (improves-some (recorded fl now best loop) active best m (kept ∙ found))
            ∙ candidates-promote _ best.model_id (recorded fl now best loop),
        λ missing.
            after
            ∙ ap
                (λ b.
                  (if b
                    then promote best.model_id (recorded fl now best loop)
                    else recorded fl now best loop).candidates)
                (improves-none (recorded fl now best loop) active best (kept ∙ missing)),
      )

  conclude-same :
      (now : Float) (best : ModelMetrics Float) (loop : EvaluationLoop Float)
      (active : AsrModelCandidate)
      → active_candidate loop.candidates ≡ some active
      → str_eq active.model_id best.model_id ≡ true
      → (conclude fl now best loop).candidates ≡ loop.candidates
  conclude-same now best loop active e same =
      let run = conclude-replaced now best loop active e in ap (λ l. l.candidates) (rw same at run)

  -- At the end of a cycle of a loop with exactly one active candidate: if the best model is another, and the
  -- active one has recorded metrics whose error rate is above the best one's by more than the threshold, the
  -- candidates are the same but that exactly those with the best model's id are active. In all other cases,
  -- and so whenever the active one has no recorded metrics, they stay as they are.
  pub conclude-promotes :
      (now : Float) (best : ModelMetrics Float) (loop : EvaluationLoop Float)
      (active : AsrModelCandidate)
      → active_count loop.candidates ≡ 1
      → Member active loop.candidates
      → active.is_active ≡ true
      → (Warranted loop best active
          × Activated best.model_id loop.candidates (conclude fl now best loop).candidates)
        ⊎ ((¬ Warranted loop best active)
            × ((conclude fl now best loop).candidates ≡ loop.candidates))
  conclude-promotes now best loop active one there on =
      let first = sole_active loop.candidates active one there on in
      elim (Bool-cases (str_eq active.model_id best.model_id)) [
        | inl same ↦ inr (
          λ w. absurd (w.0 ((eq_iff active.model_id best.model_id).0 same)),
          conclude-same now best loop active first same,
        )
        | inr other ↦
            let differs : active.model_id ≢ best.model_id = λ same.
              let equal = (eq_iff active.model_id best.model_id).1 same in
              absurd (ground (arith, equal, other)) in
            let (if_some, if_none) = conclude-other now best loop active first differs in
            elim (Option-cases (lookup active.model_id loop.best_metrics)) [
              | inl missing ↦ inr (
                λ (w0, m, found, w2). absurd (some-ne-none m (sym found ∙ missing)),
                if_none missing,
              )
              | inr (m, found) ↦
                  let run = if_some m found in
                  elim (Bool-cases (fl.lt loop.wer_promote_thresh (fl.sub m.wer best.wer))) [
                    | inl above ↦ inl (
                      (differs, m, found, above),
                      promote-Activated best.model_id loop.candidates _ (rw above at run),
                    )
                    | inr below ↦ inr (
                      λ (w0, n, found', above).
                          let same : n ≡ m = some-injective _ _ (sym found' ∙ found) in
                          let above' =
                            subst
                              (λ x. fl.lt loop.wer_promote_thresh (fl.sub x.wer best.wer) ≡ true)
                              same above in
                          absurd (ground (arith, above', below)),
                      rw below at run,
                    )
                  ]
            ]
      ]
