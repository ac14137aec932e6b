-- ===== src/Sol.antt =====
-- local-agent/pkg/sol: what the agent keeps of a serial console.
pub mod CircularBuffer
