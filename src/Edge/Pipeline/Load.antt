-- ===== src/Edge/Pipeline/Load.antt =====
-- `wasm_vad_init` of vad-edge/src/dpdk_pipeline.c: how the module is read and instantiated, with what the
-- function holds on the way. The engine, the store and the module stay with the pipeline.
use asr_serve.Base.{ℕ, ◌+◌, ◌-◌, ◌≡◌, Bool, true, false, not, ◌&&◌, ◌||◌, if◌then◌else◌, arith}
use asr_serve.Base.Int.{ℤ, pos, negsuc}

-- what the calls answer; each is taken to set its error or trap, if only to none
pub record Answers : Type 0 where
  pub engine_ok : Bool
  pub store_ok : Bool
  pub file_opens : Bool
  pub malloc_ok : Bool
  pub read_all : Bool
  pub module_error : Bool
  pub instance_error : Bool
  pub trap : Bool
  pub export_found : Bool
  pub is_func : Bool

-- open files, buffers, error and trap objects, engines, stores and compiled modules
pub record Held : Type 0 where
  pub files : ℕ
  pub buffers : ℕ
  pub errors : ℕ
  pub traps : ℕ
  pub engines : ℕ
  pub stores : ℕ
  pub modules : ℕ

abbrev pub nothing : Held
nothing = record {
  files = 0;
  buffers = 0;
  errors = 0;
  traps = 0;
  engines = 0;
  stores = 0;
  modules = 0;
}

abbrev pub one_if : Bool → ℕ
one_if true = 1
one_if false = 0

-- the look-up of the export
abbrev pub look_up : Answers → Held → ℤ × Held
look_up a h = (if not a.export_found || not a.is_func then negsuc 0 else pos 0, h)

abbrev pub instantiate_module : Answers → Held → ℤ × Held
instantiate_module a h =
    let made = record h {
      errors = h.errors + one_if a.instance_error;
      traps = h.traps + one_if a.trap;
    } in
    if a.instance_error || a.trap
    then (
      negsuc 0,
      record made {
        errors = made.errors - one_if a.instance_error;
        traps = made.traps - one_if a.trap;
      },
    )
    else look_up a made

abbrev pub compile : Answers → Held → ℤ × Held
compile a h =
    let made = record h {
      errors = h.errors + one_if a.module_error;
      buffers = h.buffers - 1;
      modules = h.modules + one_if (not a.module_error);
    } in
    if a.module_error
    then (negsuc 0, record made { errors = made.errors - 1 })
    else instantiate_module a made

abbrev pub read_bytes : Answers → Held → ℤ × Held
read_bytes a h =
    let got = record h { buffers = h.buffers + one_if a.malloc_ok } in
    let closed = record got { files = got.files - 1 } in
    if not a.malloc_ok || not a.read_all
    then (negsuc 0, record closed { buffers = closed.buffers - one_if a.malloc_ok })
    else compile a closed

abbrev pub open_file : Answers → Held → ℤ × Held
open_file a h =
    if not a.file_opens then (negsuc 0, h) else read_bytes a (record h { files = h.files + 1 })

abbrev pub new_store : Answers → Held → ℤ × Held
new_store a h =
    if not a.store_ok then (negsuc 0, h) else open_file a (record h { stores = h.stores + 1 })

pub wasm_vad_init : Answers → Held → ℤ × Held
wasm_vad_init a h =
    if not a.engine_ok then (negsuc 0, h) else new_store a (record h { engines = h.engines + 1 })

-- every call succeeds
abbrev pub all_succeed : Answers → Bool
all_succeed a =
    a.engine_ok
    && a.store_ok
    && a.file_opens
    && a.malloc_ok
    && a.read_all
    && not a.module_error
    && not a.instance_error
    && not a.trap
    && a.export_found
    && a.is_func

-- the file is read and compiles
abbrev pub compiles : Answers → Bool
compiles a =
    a.engine_ok && a.store_ok && a.file_opens && a.malloc_ok && a.read_all && not a.module_error

-- Whatever the calls answer, the function returns 0 if all of them succeed and -1 if one fails, and it ends
-- with no file open and no buffer, error or trap left; the engine, the store and the compiled module stay
-- held once they are made, also when a later call fails.
pub wasm_vad_init-all_succeed :
    (a : Answers)
    → wasm_vad_init a nothing ≡ (
      if all_succeed a then pos 0 else negsuc 0,
      record nothing {
        engines = one_if a.engine_ok;
        stores = one_if (a.engine_ok && a.store_ok);
        modules = one_if (compiles a);
      },
    )
unfolding wasm_vad_init
wasm_vad_init-all_succeed a = ground arith
