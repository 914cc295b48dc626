-- ===== src/Factory.antt =====
-- agentic-factory/src: the control plane that evaluates models and writes routing hints.
pub mod EditDistance
pub mod Score
pub mod Policy
pub mod Hints
pub mod Control
pub mod Scheduler
pub mod Evaluator
pub mod EvaluationLoop
pub mod Context
pub mod Mcp
pub mod NatAgent
