-- ===== src/State/Tests.antt =====
-- The theorems about internal/state at concrete tables. A formatted time is a stamp of three bytes.
mod Samples
mod Rewriting
mod Compacting
