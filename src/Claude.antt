-- ===== src/Claude.antt =====
-- src/limit_halo/claude_protocol.py: the broker's answers, and the loop that acquires them.
pub mod Frame
pub mod Broker
pub mod Collector
pub mod Runtime
