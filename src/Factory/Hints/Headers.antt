-- ===== src/Factory/Hints/Headers.antt =====
-- The headers that `with_agent_hints` of agentic-factory/src/agent_hints.py passes on.
use asr_serve.Base.{◌≡◌, String, none, some}
use asr_serve.Base.Dict.{Dict, IsDict, lookup, lookup-merge}
use asr_serve.Base.Value.{Value}
use asr_serve.Factory.Hints.{AgentHintsManager, get_headers, with_agent_hints}

module _ {Float : Type 0} where
  -- A header that the caller passes keeps its value, whatever the hints are; every other header is
  -- the one of the manager's active profile, if it has it.
  with_agent_hints-existing :
      (m : AgentHintsManager Float) (existing : Dict (Value Float)) (name : String)
      → IsDict existing
      → lookup name (with_agent_hints m (some existing))
        ≡ elim (lookup name existing) [ none ↦ lookup name (get_headers m) | some v ↦ some v ]
  unfolding with_agent_hints
  with_agent_hints-existing m existing name h = lookup-merge name (get_headers m) existing h
