-- ===== src/PracticeRoom/Hands.antt =====
-- What apps/api/src/practice-game/practice-game.service.ts writes to the status of a room. The state of the
-- hand, which its calls check as well, is in PracticeGame; here a write is open whatever that state is.
use allinle.Prelude.{
  ℕ, not, ◌&&◌, List, some, every, length, ltb, ◌==◌, Result, ok, throw_if, ◌>>=◌, ◌>>◌,
}
use allinle.PracticeRoom.{
  Room, RoomPlayer, Practice, PracticeError, playing, finished, not_the_owner, room_not_startable,
  too_few_players, too_many_players, players_not_ready, player_without_chips, is_over_or_playing,
  get_by_room_code, with_status, write_room,
}

-- `assertRoomReadyToStart`
unfoldable pub assert_room_ready_to_begin : Room → Result PracticeError (Unit {0})
assert_room_ready_to_begin room = do
  throw_if (is_over_or_playing room.status) room_not_startable
  throw_if (ltb (length room.players) 2) too_few_players
  throw_if (ltb room.player_count (length room.players)) too_many_players
  throw_if
      (not (every (λ (p : RoomPlayer). p.initial_chips_confirmed && p.ready_status) room.players))
      players_not_ready
  throw_if (not (every (λ (p : RoomPlayer). ltb 0 p.chips) room.players)) player_without_chips

-- `startFirstHand`
unfoldable pub begin_first_hand : Practice → ℕ → List ℕ → Result PracticeError Practice
begin_first_hand s user code = do
  room ← get_by_room_code s.rooms code
  throw_if (not (room.owner_user_id == user)) not_the_owner
  assert_room_ready_to_begin room
  ok (record s { rooms = write_room room.id (with_status playing) s.rooms })

-- `nextHand` with a hand that follows.
unfoldable pub begin_next_hand : Practice → ℕ → List ℕ → Result PracticeError Practice
begin_next_hand s user code = do
  room ← get_by_room_code s.rooms code
  throw_if (not (room.owner_user_id == user)) not_the_owner
  ok (record s { rooms = write_room room.id (with_status playing) s.rooms })

abbrev pub over : ℕ → Room → Room
over now r = record r { status = finished; ended_at = some now }

-- `nextHand` when no hand can follow, and `endRoom`.
unfoldable pub finish_room : Practice → ℕ → List ℕ → ℕ → Result PracticeError Practice
finish_room s user code now = do
  room ← get_by_room_code s.rooms code
  throw_if (not (room.owner_user_id == user)) not_the_owner
  ok (record s { rooms = write_room room.id (over now) s.rooms })
