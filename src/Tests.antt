-- ===== src/Tests.antt =====
-- Runs of the definitions, and the theorems with hypotheses at concrete inputs.
pub mod Runs
pub mod Witnesses
pub mod Ledgers
pub mod Rooms
pub mod Games
pub mod TeamLedgers
