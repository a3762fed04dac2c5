-- ===== src/PracticeRoom/Sound.antt =====
-- What holds of every room: its seats, and what it means that it is ready.
pub mod Calls
pub mod Creations
pub mod Runs
pub mod Seats
use allinle.Prelude.{
  ℕ, suc, zero, ◌+◌, ◌≤◌, ◌<◌, ◌≡◌, refl, Bool, true, false, ◌&&◌, List, [], ◌∷◌, ◌++◌, map, length,
  arith, ltb,
}
use allinle.Prelude.Sorted.{Distinct}
use allinle.PracticeRoom.{
  Room, RoomPlayer, Practice, PracticeRoomStatus, ready, seats_of, all_confirmed,
}
use allinle.PracticeRoom.Tables.{AllRooms, ids_of}

-- Every seat is one of the room's.
abbrev pub SeatsWithin : ℕ → List ℕ → Type 0
SeatsWithin n [] = Unit
SeatsWithin n (s ∷ ss) = (1 ≤ s) × (s ≤ n) × SeatsWithin n ss

-- No two players share a seat, the seats are the room's, and a room is ready only with a player, and
-- with each of them having confirmed.
pub record IsSound (r : Room) : Type 0 where
  pub distinct : Distinct (seats_of r)
  pub within : SeatsWithin r.player_count (seats_of r)
  pub ready_confirmed : r.status ≡ ready → (0 < length r.players) × (all_confirmed r.players ≡ true)

-- Every room is sound, and identifiers are unique.
pub record AllSound (s : Practice) : Type 0 where
  pub rooms : AllRooms IsSound s.rooms
  pub unique : Distinct (ids_of s.rooms)
