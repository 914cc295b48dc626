-- ===== src/Tests/Setup.antt =====
-- The theorems on the set-up of the edge programs at concrete answers of their calls.
use asr_serve.Base.{◌≡◌, true, false, [], ◌∷◌, none}
use asr_serve.Base.Int.{negsuc}
use asr_serve.Edge.Loader.{drv_mode, skb_mode}
use asr_serve.Edge.Loader.Session.{Host, idle, main, IsClean, main-IsClean}
use asr_serve.Edge.Pipeline.Load.{Answers, nothing, wasm_vad_init, wasm_vad_init-all_succeed}

-- The module traps at its instantiation.
abbrev answers : Answers
answers = record {
  engine_ok = true;
  store_ok = true;
  file_opens = true;
  malloc_ok = true;
  read_all = true;
  module_error = false;
  instance_error = false;
  trap = true;
  export_found = true;
  is_func = true;
}

wasm_vad_init-all_succeed_example :
    wasm_vad_init answers nothing
    ≡ (negsuc 0, record nothing { engines = 1; stores = 1; modules = 1 })
wasm_vad_init-all_succeed_example = wasm_vad_init-all_succeed answers

-- Only the generic mode is there, and the filter cannot be detached from it.
abbrev host : Host
host = record {
  iface_given = true;
  ifindex_found = true;
  setrlimit_ok = true;
  open_ok = true;
  load_ok = true;
  program_found = true;
  bpf_xdp_attach = λ mode. elim mode [ drv_mode ↦ false | skb_mode ↦ true ];
  bpf_xdp_detach = λ mode. elim mode [ drv_mode ↦ true | skb_mode ↦ false ];
  stats_map_found = true;
}

main-IsClean_example :
    IsClean host.bpf_xdp_detach (main host (record { g_running = true; values = none } ∷ []) idle)
main-IsClean_example = main-IsClean host (record { g_running = true; values = none } ∷ [])
