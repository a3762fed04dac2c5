-- ===== src/Game.antt =====
-- packages/shared/src/poker/state-machine.ts and actions.ts, by parts.
pub mod Seats
pub mod Legal
pub mod Bets
pub mod Rounds
pub mod Start
pub mod Views
