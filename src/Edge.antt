-- ===== src/Edge.antt =====
-- vad-edge: the packet filter, the voice detector and the pipeline that joins them.
pub mod Word
pub mod Samples
pub mod Loader
pub mod Path
pub mod Pipeline
pub mod Wasm
pub mod Xdp
