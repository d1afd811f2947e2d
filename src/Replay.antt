-- ===== src/Replay.antt =====
-- packages/core/src/replay/index.ts: receipts over events and snapshots. The attempt recorder stands in
-- Candidates.Evidence and Candidates.Attempt.
pub mod Redaction
pub mod Receipt
pub mod Summary
pub mod Terminal
pub mod Recorder
