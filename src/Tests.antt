-- ===== src/Tests.antt =====
-- The theorems at concrete inputs.
mod Numbers
mod Factory
mod Evaluation
mod Dynamo
mod Nixl
mod Workers
mod Agent
mod Mcp
mod Inference
mod Edge
mod Setup
mod Shim
mod Control
