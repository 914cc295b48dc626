-- ===== src/Lib.antt =====
-- A verification library for asr-serve, a speech recognition service: its agentic factory
-- (agentic-factory), which evaluates models, promotes the best one and steers requests by hints, its
-- inference worker (inference/src), which transcribes, its Dynamo orchestration
-- (dynamo-orchestration/src), which batches audio frames, routes each request through a prefill and a
-- decode worker and moves the key-value cache between them, and its voice detection at the edge
-- (vad-edge), which passes on the frames that hold speech. The evaluation loop writes a hint profile;
-- requests carry the hints as headers; the router reads their priority, and a TTL is to bound how long
-- a cached tensor lives. A control process in Go keeps the active profile too and broadcasts it. At the
-- edge a filter in the kernel redirects loud frames to a pipeline, which asks a WebAssembly module and
-- sends what is speech.
--
-- Which file models what:
--   Factory/EditDistance, Factory/Score, Factory/Policy: `_edit_distance`, `_wer_components`,
--     `_cer_components`, `_wer_to_priority` and `_rtf_to_kv_ttl_ms` of
--     agentic-factory/src/evaluator.py; `none` is an IndexError.
--   Factory/Evaluator, Factory/EvaluationLoop: `TelemetryFetcher`, `ModelEvaluator` and
--     `EvaluationLoop` of the same file. `eval_cycle` is `_eval_cycle`, in the parts `evaluate_all`
--     and `conclude`; the transcriptions of a cycle are an argument. `run_loop` is `run`, over the
--     turns that it meets.
--   Factory/Hints, Factory/Scheduler: `HintProfile`, `AgentHintsManager`, `with_agent_hints` and
--     `TTLEvictionScheduler` of agentic-factory/src/agent_hints.py.
--   Factory/Context, Factory/Mcp: `FactoryContext`, the handlers, the table of tools, `list_tools`
--     and `call_tool` of agentic-factory/src/mcp_client.py, with the callbacks as arguments, which may
--     change the context.
--   Factory/NatAgent: the stub rules, `reason` with its prompt, `_parse_actions`, `execute_actions` and
--     the turns of `run` of `NATAgent` of agentic-factory/src/nat_agent.py; a tool call is a function
--     over the state that it changes. Factory/Mcp/Agent joins the agent to the server's tools.
--   Factory/Control: `HintsStore`, the handlers of `buildHTTPMux` and the rounds of `broadcastLoop` of
--     agentic-factory/main.go; `run` takes any sequence of requests and ticks. Factory/Control/Store
--     relates the store to the manager of Factory/Hints.
--   Dynamo/Registry, Dynamo/Router: `WorkerRegistry`, `SmartRouter` and `RouterStats` of
--     dynamo-orchestration/src/router.py. A coroutine is cut at its awaits: `route_start`,
--     `route_prefilled` and `route_decoded` are `route`, and Dynamo/Router/Schedule runs any number
--     of calls in any order, with changes of the registry between them.
--   Dynamo/Nixl: `NixlTransferManager` and `run_ttl_eviction_loop` of
--     dynamo-orchestration/src/nixl_rdma.py; Dynamo/Nixl/Transfers runs any number of transfers.
--   Dynamo/Worker: the workers of dynamo-orchestration/src/dynamo_worker.py; Dynamo/Worker/Requests
--     runs any number of requests of one worker. The stub's placeholder pointer is an argument.
--   Dynamo/Shim: `ingest_task`, `dispatcher_task` and `dispatch_batch` of
--     dynamo-orchestration/src/main.rs. `Step` is what one of the tasks or the clock can do, up to the
--     next await, and `Steps` any number of steps in any order.
--   Edge/Xdp, Edge/Loader: vad-edge/src/xdp_vad.c, with a frame as the list of its bytes and `none` for
--     a read outside of it, and `print_stats` and `main` of vad-edge/src/vad_loader.c.
--   Edge/Pipeline: `pipeline_run`, `wasm_vad_classify` and `forward_speech_frame` of
--     vad-edge/src/dpdk_pipeline.c over the record `VadModule`, which is what they ask of wasmtime, and
--     `wasm_vad_init` in Edge/Pipeline/Load.
--     Edge/Wasm is `vad_classify` of vad-edge/wasm/vad_module.wat, where `none` is a trap, and
--     Edge/Wasm/Module makes it such a record. Edge/Path follows one frame through all three.
--   Edge/Word, Edge/Samples: the machine words and the samples that these programs share.
--   Inference: inference/src/worker.py. Inference/Config is `WorkerConfig` with `from_yaml`, the
--     overrides of the command line and the arguments of the engine; Inference itself is what
--     `transcribe_endpoint` reads from headers; Inference/Server is `InferenceWorker` with its
--     counters and the endpoints of `build_app`, cut at the engine's answer, and
--     Inference/Server/Requests runs any number of requests in any order. Inference/Evaluation has the
--     requests that the evaluator sends.
--   Base: lists, dictionaries in insertion order, integers, texts, Python's dynamic values, JSON
--     documents, exceptions, sorting with ranks and minimum, and the loop over a range.
--   Tests: each theorem at a concrete input.
--
-- Parameters: `Floats` is Python's float with the operations the code uses, and `IsIeee` the laws
-- of its comparisons that IEEE 754 gives; `micro` is an instance. `lower` is str.lower, `decimal`
-- the value of a decimal digit of Unicode, of which a concrete instance is `ascii_digit`. The NIXL
-- agent, `encoding/json`, `bpf_redirect_map`, the answers of the network card, the HTTP session,
-- the engine of vLLM, `json.loads` and `yaml.safe_load`, Python's formatting, the clock and fresh
-- handles enter as arguments. There is no fuel: each loop of the code is a recursion over its
-- list, its range or the rounds it has left, and the service loops that never end are recursions
-- over the list of the events or turns that they meet, of any length. A machine integer is a
-- number below its modulus, with the wrap-around written out.
--
-- Not modelled: logging, the real RPC, NIXL, vLLM, aiohttp, MCP, tokio, wasmtime, DPDK and BPF
-- libraries, command lines, the set-up of sockets, ports and the shim's configuration (`main` of
-- the programs but the loader's), the telemetry line of the pipeline and the latency histogram of
-- the shim, and the language model behind agentic-factory/src/nat_agent.py, whose answers are
-- arguments. A packet buffer is taken to be one segment. An `int` of more than 4300 digits, which
-- Python refuses to print or read, callbacks that call the scheduler that runs them, YAML keys that are no
-- texts, and a transcription service that answers a
-- text that is not a string are left out too.
pub mod Base
pub mod Factory
pub mod Dynamo
pub mod Inference
pub mod Edge
pub mod Tests
