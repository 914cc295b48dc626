-- ===== src/Dynamo/Registry/Selection.antt =====
-- `least_loaded` of dynamo-orchestration/src/router.py.
use mathlib.Core.Path.{subst}
use asr_serve.Base.{
  sym, ◌⊎◌, Bool, true, false, ◌≡◌, refl, ap, String, List, [], ◌∷◌, none, some, arith, keep, All,
  inl, inr,
}
use asr_serve.Base.Dict.{lookup, values}
use asr_serve.Base.Floats.{Floats, IsIeee, IsNumber}
use asr_serve.Base.Member.{
  Member, All-Member, All-of_Member, Member-keep, keep-Member, Member-min_from, Member-values,
  values-Member,
}
use asr_serve.Base.Order.{min_by, min_from, IsWeakOrder, min_from-IsLeast}
use asr_serve.Dynamo.Registry.{
  RequestPhase, prefill, decode, phase_eq, WorkerEndpoint, WorkerRegistry, is_candidate,
  least_loaded,
}
use asr_serve.Dynamo.Registry.Invariant.{IsRegistry}

pub phase_eq→eq : (a b : RequestPhase) → phase_eq a b ≡ true → a ≡ b
phase_eq→eq prefill prefill h = refl
phase_eq→eq prefill decode h = cc
phase_eq→eq decode prefill h = cc
phase_eq→eq decode decode h = refl

module _ (fl : Floats) (role : RequestPhase) (workers : WorkerRegistry fl.Float) where
  open fl use {Float, lt}

  -- a healthy worker of the role, under its id
  pub record IsCandidate (w : WorkerEndpoint Float) : Type 0 where
    pub registered : lookup w.worker_id workers ≡ some w
    pub of_role : phase_eq w.role role ≡ true
    pub healthy : w.healthy ≡ true

  -- The choice is a candidate, and no candidate has a smaller load.
  pub record IsBest (w : WorkerEndpoint Float) : Type 0 where
    pub candidate : IsCandidate w
    pub least : (v : WorkerEndpoint Float) → IsCandidate v → lt v.load w.load ≡ false

  candidates : List (WorkerEndpoint Float)
  candidates = keep (is_candidate role) (values workers)

  by_load : WorkerEndpoint Float → WorkerEndpoint Float → Bool
  by_load a b = lt a.load b.load

  abbrev pub LoadsAreNumbers : Type 0
  LoadsAreNumbers =
      (k : String) (w : WorkerEndpoint Float) → lookup k workers ≡ some w → IsNumber fl w.load

  module _ (h : IsRegistry workers) where
    IsCandidate-of_Member : (w : WorkerEndpoint Float) → Member w candidates → IsCandidate w
    unfolding candidates
    IsCandidate-of_Member w m =
        let (there, good) = Member-keep (is_candidate role) w (values workers) m in
        let (k, found) = Member-values w workers h.distinct there in
        let e = h.keyed k w found in
        record {
          registered = subst (λ i. lookup i workers ≡ some w) (sym e) found;
          of_role = ground arith;
          healthy = ground arith;
        }

    Member-of_IsCandidate : (w : WorkerEndpoint Float) → IsCandidate w → Member w candidates
    unfolding candidates
    Member-of_IsCandidate w c =
        keep-Member (is_candidate role) w (values workers)
          (values-Member w.worker_id w workers c.registered) (ground (arith, c.of_role, c.healthy))

    module _ (ieee : IsIeee fl) (numbers : LoadsAreNumbers) where
      order : IsWeakOrder by_load (λ w. IsNumber fl w.load)
      unfolding by_load
      order = record {
        irrefl = λ x p. ieee.lt_irrefl x.load;
        trans = λ x y z p q r. ieee.lt_trans x.load y.load z.load;
        not_lt_trans = λ x y z p q r. ieee.not_lt_trans x.load y.load z.load q;
      }

      IsBest-least_loaded :
          (c : WorkerEndpoint Float) (cs : List (WorkerEndpoint Float))
          → candidates ≡ c ∷ cs
          → IsBest (min_from by_load c cs)
      unfolding by_load
      IsBest-least_loaded c cs e =
          let best = min_from by_load c cs in
          let proper : All (λ w. IsNumber fl w.load) (c ∷ cs) = All-of_Member _ (c ∷ cs) (λ w m.
            numbers w.worker_id w
              (IsCandidate-of_Member w (subst (Member w) (sym e) m)).registered) in
          let least = min_from-IsLeast by_load order c cs proper.0 proper.1 in
          record {
            candidate =
                IsCandidate-of_Member best
                  (subst (Member best) (sym e) (Member-min_from by_load c cs));
            least = λ v k.
                All-Member (λ w. by_load w best ≡ false) v (c ∷ cs) least
                  (subst (Member v) e (Member-of_IsCandidate v k));
          }

      -- `least_loaded` gives no worker exactly when no healthy one has the role; otherwise it gives a
      -- healthy worker of the role, as it is registered, and no other such worker has a smaller load.
      -- (The loads are numbers.)
      pub least_loaded_lem :
          ((least_loaded fl role workers ≡ none) × ((w : WorkerEndpoint Float) → ¬ IsCandidate w))
          ⊎ ((w : WorkerEndpoint Float) × (least_loaded fl role workers ≡ some w) × IsBest w)
      unfolding least_loaded candidates by_load min_by
      least_loaded_lem = by_cases candidates refl
        where
          by_cases :
              (cs : List (WorkerEndpoint Float))
              → candidates ≡ cs
              → ((min_by by_load candidates ≡ none)
                  × ((w : WorkerEndpoint Float) → ¬ IsCandidate w))
                ⊎ ((w : WorkerEndpoint Float) × (min_by by_load candidates ≡ some w) × IsBest w)
          by_cases [] e = inl (
            ap (min_by by_load) e,
            λ w c. let m : Member w [] = subst (Member w) e (Member-of_IsCandidate w c) in m,
          )
          by_cases (c ∷ cs) e =
              inr (min_from by_load c cs, ap (min_by by_load) e, IsBest-least_loaded c cs e)
