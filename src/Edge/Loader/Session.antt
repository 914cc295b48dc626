-- ===== src/Edge/Loader/Session.antt =====
-- `main` of vad-edge/src/vad_loader.c after the options are parsed: what it opens and attaches, and what
-- it leaves behind. The pin of the map and the lines printed but the figures are left out.
use mathlib.Core.Path.{subst}
use asr_serve.Base.{
  ℕ, ◌+◌, ◌-◌, ◌≡◌, refl, Bool, true, false, not, List, [], ◌∷◌, ◌++◌, Option, none, some,
  if◌then◌else◌, keep, All, ap, sym, ◌∙◌, ◌⊎◌, arith, Bool-cases, inl, inr,
}
use asr_serve.Edge.Xdp.{VadStats}
use asr_serve.Edge.Loader.{Mode, drv_mode, skb_mode, attach, print_stats}

-- the answers of the system and of libbpf
pub record Host : Type 0 where
  pub iface_given : Bool
  pub ifindex_found : Bool
  pub setrlimit_ok : Bool
  pub open_ok : Bool
  pub load_ok : Bool
  pub program_found : Bool
  pub bpf_xdp_attach : Mode → Bool
  pub bpf_xdp_detach : Mode → Bool
  pub stats_map_found : Bool

-- a second of the loop: `g_running` as it is tested, and what the lookup of the counters gives
pub record Second : Type 0 where
  pub g_running : Bool
  pub values : Option (List VadStats)

-- the BPF objects that are open, the modes in which the filter is attached, and the figures printed
pub record Session : Type 0 where
  pub objects : ℕ
  pub attached : List Mode
  pub printed : List VadStats

pub data Exit : Type 0 where
  exit_success exit_failure : Exit

abbrev pub close : Session → Session
close s = record s { objects = s.objects - 1 }

abbrev pub is_mode : Mode → Mode → Bool
is_mode drv_mode drv_mode = true
is_mode drv_mode skb_mode = false
is_mode skb_mode drv_mode = false
is_mode skb_mode skb_mode = true

-- A detachment that fails is not looked at.
abbrev pub detach : (Mode → Bool) → Mode → Session → Session
detach bpf_xdp_detach m s =
    if bpf_xdp_detach m then record s { attached = keep (λ k. not (is_mode m k)) s.attached } else s

abbrev pub shown : Option VadStats → List VadStats
shown none = []
shown (some s) = s ∷ []

abbrev pub poll : Bool → List Second → Session → Session
poll stats_map_found [] s = s
poll stats_map_found (t ∷ ts) s =
    if t.g_running
    then poll stats_map_found ts (
        if stats_map_found
        then record s { printed = s.printed ++ shown (print_stats t.values) }
        else s)
    else s

abbrev pub finish : (Mode → Bool) → Bool → List Second → Session → Exit × Session
finish bpf_xdp_detach stats_map_found ts s = (
  exit_success,
  close
      (detach bpf_xdp_detach skb_mode (detach bpf_xdp_detach drv_mode (poll stats_map_found ts s))),
)

abbrev pub serve : (Mode → Bool) → Option Mode → Bool → List Second → Session → Exit × Session
serve bpf_xdp_detach none stats_map_found ts s = (exit_failure, close s)
serve bpf_xdp_detach (some m) stats_map_found ts s =
    finish bpf_xdp_detach stats_map_found ts (record s { attached = m ∷ s.attached })

pub main : Host → List Second → Session → Exit × Session
main h ts s =
    if not h.iface_given
    then (exit_failure, s)
    else if not h.ifindex_found
    then (exit_failure, s)
    else if not h.setrlimit_ok
    then (exit_failure, s)
    else if not h.open_ok
    then (exit_failure, s)
    else (let opened = record s { objects = s.objects + 1 } in
        if not h.load_ok
        then (exit_failure, close opened)
        else if not h.program_found
        then (exit_failure, close opened)
        else serve h.bpf_xdp_detach (attach h.bpf_xdp_attach) h.stats_map_found ts opened)

abbrev pub idle : Session
idle = record { objects = 0; attached = []; printed = [] }

poll-keeps :
    (b : Bool) (ts : List Second) (s : Session)
    → ((poll b ts s).objects ≡ s.objects) × ((poll b ts s).attached ≡ s.attached)
poll-keeps b [] s = (refl, refl)
poll-keeps b (t ∷ ts) s = elim (Bool-cases t.g_running) [
  | inr e ↦ rw e (refl, refl)
  | inl e ↦ elim (Bool-cases b) [
    | inl f ↦
        rw (e, f)
          (poll-keeps b ts (record s { printed = s.printed ++ shown (print_stats t.values) }))
    | inr f ↦ rw (e, f) (poll-keeps b ts s)
  ]
]

-- No BPF object is open, and the filter is attached in no mode but one in which its detachment failed; when
-- the loader fails, in none.
pub record IsClean (bpf_xdp_detach : Mode → Bool) (r : Exit × Session) : Type 0 where
  pub closed : r.1.objects ≡ 0
  pub detached : All (λ m. bpf_xdp_detach m ≡ false) r.1.attached
  pub failed : (r.0 ≡ exit_success) ⊎ (r.1.attached ≡ [])

module _ (d : Mode → Bool) where
  -- the modes that are left of some, after the detachment of one
  abbrev without : Mode → List Mode → List Mode
  without m modes = if d m then keep (λ k. not (is_mode m k)) modes else modes

  detach_fields :
      (m : Mode) (s : Session)
      → ((detach d m s).attached ≡ without m s.attached) × ((detach d m s).objects ≡ s.objects)
  detach_fields m s = elim (Bool-cases (d m)) [
    | inl e ↦ rw e (refl, refl)
    | inr e ↦ rw e (refl, refl)
  ]

  left-All : (m : Mode) → All (λ k. d k ≡ false) (without skb_mode (without drv_mode (m ∷ [])))
  left-All drv_mode = ground arith
  left-All skb_mode = ground arith

  detached :
      (s : Session) (m : Mode)
      → s.attached ≡ m ∷ []
      → ((detach d skb_mode (detach d drv_mode s)).attached
          ≡ without skb_mode (without drv_mode (m ∷ [])))
        × ((detach d skb_mode (detach d drv_mode s)).objects ≡ s.objects)
  detached s m e =
      let (modes, objects) = detach_fields drv_mode s in
      let (modes', objects') = detach_fields skb_mode (detach d drv_mode s) in
      (modes' ∙ ap (without skb_mode) (modes ∙ ap (without drv_mode) e), objects' ∙ objects)

  serve-IsClean :
      (m : Option Mode) (b : Bool) (ts : List Second)
      → IsClean d (serve d m b ts (record idle { objects = 1 }))
  serve-IsClean none b ts = record { closed = refl; detached = tt; failed = inr refl }
  serve-IsClean (some m) b ts =
      let start : Session = record { objects = 1; attached = m ∷ []; printed = [] } in
      let (objects, attached) = poll-keeps b ts start in
      let (rest, same) = detached (poll b ts start) m attached in
      record {
        closed = ap (λ (n : ℕ). n - 1) (same ∙ objects);
        detached = subst (All (λ k. d k ≡ false)) (sym rest) (left-All m);
        failed = inl refl;
      }

  -- an early return
  unless :
      (b : Bool) {early rest : Exit × Session}
      → IsClean d early
      → IsClean d rest
      → IsClean d (if not b then early else rest)
  unless true early rest = rest
  unless false early rest = early

  nothing_done : (s : Session) → s.objects ≡ 0 → s.attached ≡ [] → IsClean d (exit_failure, s)
  nothing_done s e f = record {
    closed = e;
    detached = subst (All (λ k. d k ≡ false)) (sym f) tt;
    failed = inr f;
  }

-- However the calls answer and whenever `g_running` is cleared, the loader started with nothing ends with no
-- BPF object open, and with the filter attached in no mode but one in which `bpf_xdp_detach` failed; it
-- returns EXIT_FAILURE only with the filter attached in none.
pub main-IsClean : (h : Host) (ts : List Second) → IsClean h.bpf_xdp_detach (main h ts idle)
unfolding main
main-IsClean h ts =
    let d = h.bpf_xdp_detach in
    let early = nothing_done d idle refl refl in
    unless d h.iface_given early (
      unless d h.ifindex_found early (
        unless d h.setrlimit_ok early (
          unless d h.open_ok early (
            unless d h.load_ok early (
              unless d h.program_found early
                (serve-IsClean d (attach h.bpf_xdp_attach) h.stats_map_found ts))))))
