-- ===== src/Dynamo/Nixl/Eviction.antt =====
-- `register_tensor`, `evict` and `run_ttl_eviction_loop` of dynamo-orchestration/src/nixl_rdma.py.
use mathlib.Core.Path.{subst}
use asr_serve.Base.{
  ℕ, ◌≡◌, refl, sym, ap, ◌∙◌, true, false, String, List, [], ◌∷◌, Option, none, some, str_eq,
  if◌then◌else◌, arith, eq_iff, eq_refl, Bool-cases, inl, inr,
}
use asr_serve.Base.Dict.{
  Dict, IsDict, lookup, remove, lookup-insert, lookup-remove, remove-insert_absent,
}
use asr_serve.Base.Floats.{Floats}
use asr_serve.Base.Int.{ℤ}
use asr_serve.Dynamo.Nixl.{
  KvCacheDescriptor, NixlTransferManager, register_tensor, evict, has_expired, to_evict, evict_each,
  ttl_turn, ttl_turns, run_ttl_eviction_loop,
}

-- Registering a tensor under a handle that is not in use makes its descriptor the one of that handle,
-- and evicting the handle then restores the manager.
evict-register_tensor :
    (handle : String) (device ptr bytes_size : ℕ) (shape : List ℕ) (dtype : String) (ttl_ms : ℤ)
    (m : NixlTransferManager)
    → lookup handle m.descriptors ≡ none
    → let (d, m') = register_tensor handle device ptr bytes_size shape dtype ttl_ms m in
      (lookup d.handle m'.descriptors ≡ some d) × (evict d.handle m' ≡ m)
unfolding register_tensor evict
evict-register_tensor handle device ptr bytes_size shape dtype ttl_ms m free = (
  lookup-insert handle handle _ m.descriptors ∙ rw (eq_refl handle) refl,
  ap (λ d. record m { descriptors = d }) (remove-insert_absent handle _ m.descriptors free),
)

module _ (fl : Floats) where
  open fl use {Float}

  none_expired : (now : Float) (d : Dict KvCacheDescriptor) → to_evict fl now [] d ≡ []
  unfolding to_evict
  none_expired now [] = refl
  none_expired now ((h, desc) ∷ d) = none_expired now d

  ttl_turn_idle : (now : Float) (m : NixlTransferManager) → ttl_turn fl now ([], m) ≡ ([], m)
  unfolding ttl_turn evict_each
  ttl_turn_idle now m = ap (λ ks. evict_each fl ks ([], m)) (none_expired now m.descriptors)

  -- However many turns the TTL loop takes, and whatever the clock reads, it evicts nothing.
  pub run_ttl_eviction_loop_idle :
      (nows : List Float) (m : NixlTransferManager) → run_ttl_eviction_loop fl nows m ≡ m
  unfolding run_ttl_eviction_loop ttl_turns
  run_ttl_eviction_loop_idle [] m = refl
  run_ttl_eviction_loop_idle (now ∷ nows) m =
      ap (λ s. (ttl_turns fl nows s).1) (ttl_turn_idle now m) ∙ run_ttl_eviction_loop_idle nows m

  -- what a turn leaves of a value under a handle that it does or does not evict
  abbrev pub unless_listed : {V : Type 0} → List String → String → Option V → Option V
  unless_listed [] h o = o
  unless_listed (k ∷ ks) h o = if str_eq k h then none else unless_listed ks h o

  unless_listed-none :
      {V : Type 0} (ks : List String) (h : String) → unless_listed {V = V} ks h none ≡ none
  unless_listed-none [] h = refl
  unless_listed-none {V = V} (k ∷ ks) h = ground (arith, unless_listed-none {V = V} ks h)

  unless_listed-cons :
      {V : Type 0} (k : String) (ks : List String) (h : String) (o : Option V)
      → unless_listed ks h (if str_eq k h then none else o) ≡ unless_listed (k ∷ ks) h o
  unless_listed-cons k ks h o = elim (Bool-cases (str_eq k h)) [
    | inl e ↦ rw e (unless_listed-none ks h)
    | inr e ↦ rw e refl
  ]

  evict_each_lem :
      (ks : List String) (h : String) (times : Dict Float) (m : NixlTransferManager)
      → (lookup h (evict_each fl ks (times, m)).0 ≡ unless_listed ks h (lookup h times))
        × (lookup h (evict_each fl ks (times, m)).1.descriptors
            ≡ unless_listed ks h (lookup h m.descriptors))
  unfolding evict_each evict
  evict_each_lem [] h times m = (refl, refl)
  evict_each_lem (k ∷ ks) h times m =
      let (rest, rest') = evict_each_lem ks h (remove k times) (evict k m) in
      (
        rest ∙ ap (unless_listed ks h) (lookup-remove k h times) ∙ unless_listed-cons k ks h _,
        rest'
            ∙ ap (unless_listed ks h) (lookup-remove k h m.descriptors)
            ∙ unless_listed-cons k ks h _,
      )

  -- what is left of `o` if the descriptor under its handle is due
  abbrev pub unless_due :
      {V : Type 0} → Float → Dict Float → String → Option KvCacheDescriptor → Option V → Option V
  unless_due now times h none o = o
  unless_due now times h (some desc) o = if has_expired fl now times h desc then none else o

  unless_listed-to_evict :
      {V : Type 0} (now : Float) (times : Dict Float) (h : String) (d : Dict KvCacheDescriptor)
      (o : Option V)
      → IsDict d
      → unless_listed (to_evict fl now times d) h o ≡ unless_due now times h (lookup h d) o
  unfolding to_evict
  unless_listed-to_evict now times h [] o p = refl
  unless_listed-to_evict now times h ((j, w) ∷ d) o p =
      let rest = unless_listed-to_evict now times h d o p.1 in
      elim (Bool-cases (str_eq j h)) [
        | inl e ↦
            let same : j ≡ h = (eq_iff j h).0 e in
            let gone : lookup h d ≡ none = rw same at p.0 in
            elim (Bool-cases (has_expired fl now times j w)) [
              | inl due ↦
                  rw (e, to_evict, due)
                    (rw e (
                      sym (
                        ap (λ b. if b then none else o)
                          (subst (λ x. has_expired fl now times x w ≡ true) same due))))
              | inr kept ↦
                  rw (e, to_evict, kept)
                    (rest
                      ∙ rw gone (
                          sym (
                            ap (λ b. if b then none else o)
                              (subst (λ x. has_expired fl now times x w ≡ false) same kept))))
            ]
        | inr e ↦ elim (Bool-cases (has_expired fl now times j w)) [
          | inl due ↦ rw (e, to_evict, due) (rw e rest)
          | inr kept ↦ rw (e, to_evict, kept) rest
        ]
      ]

  -- One turn of the TTL loop, on a manager with one descriptor for a handle: of each handle whose
  -- descriptor was registered longer ago than its `ttl_ms` the descriptor and the time are removed;
  -- every other descriptor and time stays.
  ttl_turn_lem :
      (now : Float) (times : Dict Float) (m : NixlTransferManager) (h : String)
      → IsDict m.descriptors
      → let (times', m') = ttl_turn fl now (times, m) in
        (lookup h m'.descriptors
          ≡ unless_due now times h (lookup h m.descriptors) (lookup h m.descriptors))
        × (lookup h times' ≡ unless_due now times h (lookup h m.descriptors) (lookup h times))
  unfolding ttl_turn
  ttl_turn_lem now times m h p =
      let (a, b) = evict_each_lem (to_evict fl now times m.descriptors) h times m in
      (
        b ∙ unless_listed-to_evict now times h m.descriptors _ p,
        a ∙ unless_listed-to_evict now times h m.descriptors _ p,
      )
