-- ===== src/Dynamo/Nixl/Transfers/Drain.antt =====
-- The end of the transfers of Dynamo/Nixl/Transfers.
use asr_serve.Base.{
  ℕ, zero, suc, ◌+◌, ◌*◌, ◌≤◌, ◌<◌, ltb, ◌≡◌, refl, ap, ◌∙◌, arith, true, List, [], ◌∷◌, Option,
  none, some, length, length-set, get_elem?, All, Bool-cases, Option-cases, inl, inr, ◌⊎◌,
}
use asr_serve.Base.Sums.{total, total-set, part-le-total}
use asr_serve.Dynamo.Nixl.{
  NixlTransferManager, TransferStatus, waiting, transferring, transferred, failed, transfer_entered,
  transfer_answered,
}
use asr_serve.Dynamo.Nixl.Transfers.{
  Transfer, System, Event, enter, answer, try_enter, entered, answered, moved, step, run,
}
use asr_serve.Dynamo.Nixl.Transfers.Balance.{IsBalanced, step-IsBalanced}
use asr_serve.Dynamo.Nixl.Transfers.Moves.{holds}

-- how many moves a transfer has left
abbrev pub moves_left : TransferStatus → ℕ
moves_left waiting = 2
moves_left transferring = 1
moves_left (transferred p) = 0
moves_left failed = 0

abbrev pub HasEnded : Transfer → Type 0
HasEnded t = moves_left t.status ≡ 0

abbrev work : System → ℕ
work s = total (λ t. moves_left t.status) s.transfers

total-pos :
    {A : Type 0} (f : A → ℕ) (ts : List A)
    → 1 ≤ total f ts
    → (i : ℕ) × (t : A) × (get_elem? ts i ≡ some t) × (1 ≤ f t)
total-pos f [] h = absurd (omega arith)
total-pos f (t ∷ ts) h = elim (Bool-cases (ltb 0 (f t))) [
  | inl e ↦ (0, t, refl, ground (arith, e))
  | inr e ↦
      let none_here : f t ≡ 0 = ground (arith, e) in
      let (i, u, at, p) = total-pos f ts (omega arith) in (suc i, u, at, p)
]

total-zero : (ts : List Transfer) → total (λ t. moves_left t.status) ts ≡ 0 → All HasEnded ts
total-zero [] h = tt
total-zero (t ∷ ts) h = (omega arith, total-zero ts (omega arith))

moves_left-le : (status : TransferStatus) → moves_left status ≤ 2
moves_left-le waiting = omega arith
moves_left-le transferring = omega arith
moves_left-le (transferred p) = omega arith
moves_left-le failed = omega arith

work-le : (ts : List Transfer) → total (λ t. moves_left t.status) ts ≤ 2 * length ts
work-le [] = omega arith
work-le (t ∷ ts) = omega (arith, moves_left-le t.status, work-le ts)

work-moved :
    (move : TransferStatus → Transfer → NixlTransferManager → TransferStatus × NixlTransferManager)
    (i : ℕ) (s : System) (t : Transfer)
    → get_elem? s.transfers i ≡ some t
    → work (moved move i s) + moves_left t.status
      ≡ work s + moves_left (move t.status t s.manager).0
unfolding moved
work-moved move i s t e =
    let t' : Transfer = record t { status = (move t.status t s.manager).0 } in
    rw (moved, e) (total-set (λ u. moves_left u.status) s.transfers i t t' e)

length-moved :
    (move : TransferStatus → Transfer → NixlTransferManager → TransferStatus × NixlTransferManager)
    (i : ℕ) (s : System)
    → length (moved move i s).transfers ≡ length s.transfers
unfolding moved
length-moved move i s = elim (Option-cases (get_elem? s.transfers i)) [
  | inl e ↦ rw (moved, e) refl
  | inr (t, e) ↦ rw (moved, e) (length-set s.transfers i _)
]

moves_left-answered :
    (status : TransferStatus) (reply : Option ℕ) (t : Transfer) (m : NixlTransferManager)
    → 1 ≤ holds status
    → moves_left (answered status reply t m).0 < moves_left status
unfolding answered transfer_answered
moves_left-answered waiting reply t m h = absurd (omega arith)
moves_left-answered transferring none t m h = omega arith
moves_left-answered transferring (some p) t m h = omega arith
moves_left-answered (transferred p) reply t m h = absurd (omega arith)
moves_left-answered failed reply t m h = absurd (omega arith)

moves_left-try_enter :
    (t : Transfer) (m : NixlTransferManager) → 1 ≤ m.semaphore → moves_left (try_enter t m).0 < 2
unfolding try_enter transfer_entered
moves_left-try_enter t m h =
    let free : ltb 0 m.semaphore ≡ true = ground (arith, h) in
    elim (Bool-cases m.nixl_agent) [
      | inl e ↦ rw (try_enter, free, e) (omega arith)
      | inr e ↦ rw (try_enter, free, e) (omega arith)
    ]

-- An entry or an answer of the agent.
abbrev pub IsTurn : (ℕ → Option ℕ) → Event → Type 0
IsTurn reply e = (i : ℕ) × ((e ≡ enter i) ⊎ (e ≡ answer i (reply i)))

module _ (reply : ℕ → Option ℕ) where
  abbrev Progress : System → Type 0
  Progress s =
      (e : Event) × IsTurn reply e
      × (work (step e s) < work s)
      × (length (step e s).transfers ≡ length s.transfers)

  answer_holder : (s : System) → 1 ≤ total (λ t. holds t.status) s.transfers → Progress s
  unfolding step
  answer_holder s h =
      let (i, t, at, p) = total-pos (λ t. holds t.status) s.transfers h in
      let lowered = work-moved (λ status. answered status (reply i)) i s t at in
      let less = moves_left-answered t.status (reply i) t s.manager p in
      (answer i (reply i), (i, inr refl), omega arith, length-moved _ i s)

  enter_waiting :
      (s : System) (i : ℕ) (t : Transfer)
      → get_elem? s.transfers i ≡ some t
      → t.status ≡ waiting
      → 1 ≤ s.manager.semaphore
      → Progress s
  unfolding step entered try_enter
  enter_waiting s i t at w h =
      let lowered = work-moved entered i s t at in
      let now : work (moved entered i s) + 2 ≡ work s + moves_left (try_enter t s.manager).0 =
        rw w at lowered in
      let less = moves_left-try_enter t s.manager h in
      (enter i, (i, inl refl), omega arith, length-moved entered i s)

  some_move :
      (n : ℕ) (s : System) (i : ℕ) (t : Transfer) (status : TransferStatus)
      → 1 ≤ n
      → IsBalanced n s
      → get_elem? s.transfers i ≡ some t
      → t.status ≡ status
      → 1 ≤ moves_left status
      → Progress s
  some_move n s i t waiting size b at is left = elim (Bool-cases (ltb 0 s.manager.semaphore)) [
    | inl e ↦ enter_waiting s i t at is (ground (arith, e))
    | inr e ↦
        let full : s.manager.semaphore ≡ 0 = ground (arith, e) in
        answer_holder s (omega (arith, b.places))
  ]
  some_move n s i t transferring size b at is left =
      answer_holder s
        (omega (arith, part-le-total (λ u. holds u.status) s.transfers i t at, ap holds is))
  some_move n s i t (transferred p) size b at is left = absurd (omega arith)
  some_move n s i t failed size b at is left = absurd (omega arith)

  next_move : (n : ℕ) (s : System) → 1 ≤ n → IsBalanced n s → 1 ≤ work s → Progress s
  next_move n s size b left =
      let (i, t, at, p) = total-pos (λ u. moves_left u.status) s.transfers left in
      some_move n s i t t.status size b at refl p

  drain :
      (fuel n : ℕ) (s : System)
      → 1 ≤ n
      → IsBalanced n s
      → work s ≤ fuel
      → (events : List Event) × All (IsTurn reply) events
        × (length events ≤ fuel)
        × (length (run events s).transfers ≡ length s.transfers)
        × All HasEnded (run events s).transfers
  unfolding run
  drain zero n s size b h = ([], tt, omega arith, refl, total-zero s.transfers (omega arith))
  drain (suc fuel) n s size b h = elim (Bool-cases (ltb 0 (work s))) [
    | inr e ↦ ([], tt, omega arith, refl, total-zero s.transfers (ground (arith, e)))
    | inl e ↦
        let (event, turn, less, kept) = next_move n s size b (ground (arith, e)) in
        let (events, turns, few, kept', ended) =
          drain fuel n (step event s) size (step-IsBalanced n event s b) (omega arith) in
        (event ∷ events, (turn, turns), omega arith, kept' ∙ kept, ended)
  ]

  -- From a system whose counts are balanced, with a semaphore that is not 0, and whatever the agent
  -- answers each transfer, some entries and answers, at most two for each transfer, end every transfer:
  -- none is lost and none waits for ever.
  pub run-HasEnded :
      (n : ℕ) (s : System)
      → 1 ≤ n
      → IsBalanced n s
      → (events : List Event) × All (IsTurn reply) events
        × (length events ≤ 2 * length s.transfers)
        × (length (run events s).transfers ≡ length s.transfers)
        × All HasEnded (run events s).transfers
  run-HasEnded n s size b = drain (2 * length s.transfers) n s size b (work-le s.transfers)
