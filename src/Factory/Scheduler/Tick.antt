-- ===== src/Factory/Scheduler/Tick.antt =====
-- `tick` of `TTLEvictionScheduler` of agentic-factory/src/agent_hints.py.
use mathlib.Core.List.{append-nil, append_assoc}
use asr_serve.Base.{
  Bool, true, false, not, ◌≡◌, refl, ap, ◌∙◌, String, List, [], ◌∷◌, ◌++◌, none, some,
  if◌then◌else◌, Bool-cases, inl, inr, arith, eq_refl, keep,
}
use asr_serve.Base.Dict.{
  Dict, lookup, remove, IsDict, lookup-append, remove-append, IsDict-append-cons, remove_absent,
}
use asr_serve.Base.Floats.{Floats}
use asr_serve.Base.Result.{ok}
use asr_serve.Factory.Scheduler.{Entry, is_expired, expired, evict_all, tick}

module _ (fl : Floats) {Fn World : Type 0} (call : Fn → String → World → Bool × World) where
  open fl use {Float}

  abbrev Entries : Type 0
  Entries = Dict (Entry Float Fn)

  -- the callbacks of some entries, in order: the handles of those that return, and the final world
  abbrev pub call_all : Entries → World → List String × World
  call_all [] w = ([], w)
  call_all ((h, entry) ∷ d) w =
      let (returned, w') = call entry.evict_fn h w in
      let (evicted, w'') = call_all d w' in (if returned then h ∷ evicted else evicted, w'')

  module _ (now : Float) where
    abbrev pub dead : Entries → Entries
    dead d = keep (λ e. fl.le e.1.deadline now) d

    abbrev pub alive : Entries → Entries
    alive d = keep (λ e. not (fl.le e.1.deadline now)) d

    found :
        (front d : Entries) (k : String) (entry : Entry Float Fn)
        → IsDict (front ++ (k, entry) ∷ d)
        → (lookup k (front ++ (k, entry) ∷ d) ≡ some entry)
          × (remove k (front ++ (k, entry) ∷ d) ≡ front ++ d)
    found front d k entry h =
        let (before, after, rest) = IsDict-append-cons front k entry d h in
        (
          rw (lookup-append k front ((k, entry) ∷ d), before, eq_refl k),
          rw (
            remove-append k front ((k, entry) ∷ d),
            remove_absent k front before,
            eq_refl k,
            remove_absent k d after,
          ),
        )

    regroup :
        (r : Bool) (k : String) (evicted rest : List String)
        → (if r then evicted ++ k ∷ [] else evicted) ++ rest
          ≡ evicted ++ (if r then k ∷ rest else rest)
    regroup true k evicted rest = append_assoc evicted (k ∷ []) rest
    regroup false k evicted rest = refl

    evict_all-cons :
        (k : String) (handles : List String) (d : Entries) (entry : Entry Float Fn) (w : World)
        (evicted : List String)
        → lookup k d ≡ some entry
        → evict_all fl call (k ∷ handles) d w evicted
          ≡ evict_all fl call handles
              (remove k d)
              (call entry.evict_fn k w).1
              (if (call entry.evict_fn k w).0 then evicted ++ k ∷ [] else evicted)
    unfolding evict_all
    evict_all-cons k handles d entry w evicted there = rw (there, evict_all)

    evict_all-expired :
        (front d : Entries) (w : World) (evicted : List String)
        → IsDict (front ++ d)
        → evict_all fl call (expired fl now d) (front ++ d) w evicted
          ≡ ok (evicted ++ (call_all (dead d) w).0, front ++ alive d, (call_all (dead d) w).1)
    unfolding expired
    evict_all-expired front [] w evicted h =
        unfold evict_all in rw (append-nil evicted, append-nil front)
    evict_all-expired front ((k, entry) ∷ d) w evicted h =
        elim (Bool-cases (is_expired fl now entry)) [
          | inl e ↦
              let (there, removed) = found front d k entry h in
              let (returned, w') = call entry.evict_fn k w in
              let (_, _, rest) = IsDict-append-cons front k entry d h in
              rw (e, evict_all-cons k _ _ entry w evicted there, removed)
                (evict_all-expired front d w' (if returned then evicted ++ k ∷ [] else evicted) rest
                  ∙ ap (λ l. ok (l, front ++ alive d, (call_all (dead d) w').1))
                      (regroup returned k evicted (call_all (dead d) w').0))
          | inr e ↦
              let assoc = append_assoc front ((k, entry) ∷ []) d in
              let assoc' = append_assoc front ((k, entry) ∷ []) (alive d) in
              rw (e, ← assoc, ← assoc')
                (evict_all-expired (front ++ (k, entry) ∷ []) d w evicted (rw assoc h))
        ]

    -- A tick never raises. It leaves exactly the entries whose deadline is not at or before `now`, in order, and
    -- calls the callback of each other entry once, in order; it returns the handles whose callbacks
    -- did not raise.
    pub tick_lem :
        (entries : Entries) (w : World)
        → IsDict entries
        → tick fl call now entries w
          ≡ ok ((call_all (dead entries) w).0, alive entries, (call_all (dead entries) w).1)
    unfolding tick
    tick_lem entries w h = evict_all-expired [] entries w [] h

    alive-lookup-none : (k : String) (d : Entries) → lookup k d ≡ none → lookup k (alive d) ≡ none
    alive-lookup-none k [] h = refl
    alive-lookup-none k ((j, entry) ∷ d) h = ground (arith, alive-lookup-none k d)

    -- The entries that a tick leaves are a dictionary, and none of them is expired.
    pub alive-IsDict : (d : Entries) → IsDict d → IsDict (alive d) × (dead (alive d) ≡ [])
    alive-IsDict [] h = (tt, refl)
    alive-IsDict ((j, entry) ∷ d) h = elim (Bool-cases (is_expired fl now entry)) [
      | inl e ↦ rw e (alive-IsDict d h.1)
      | inr e ↦
          let (rest, none_dead) = alive-IsDict d h.1 in
          rw (e, e) ((alive-lookup-none j d h.0, rest), none_dead)
    ]
