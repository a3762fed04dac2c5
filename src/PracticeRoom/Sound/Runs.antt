-- ===== src/PracticeRoom/Sound/Runs.antt =====
-- The calls of practice-room.service.ts and of practice-game.service.ts on the rooms, in any order.
use allinle.Prelude.{ℕ, ◌≤◌, ◌≡◌, subst, Bool, false, List, contains, ok, Ensures-value}
use allinle.PracticeRoom.{
  Practice, BotLevel, join_room, confirm_initial_chips, set_initial_chips, set_ready, start_room,
  close_room, admin_close_room, touch_rooms,
}
use allinle.PracticeRoom.Hands.{begin_first_hand, begin_next_hand, finish_room}
use allinle.PracticeRoom.Create.{Limits, Fresh, RoomInput, create_friends_room, create_solo_room}
use allinle.PracticeRoom.Tables.{ids_of}
use allinle.PracticeRoom.Sound.{AllSound}
use allinle.PracticeRoom.Sound.Creations.{
  create_friends_room-AllSound, create_solo_room-AllSound, touch_rooms-AllSound,
}
use allinle.PracticeRoom.Sound.Calls.{
  join_room-AllSound, confirm_initial_chips-AllSound, set_initial_chips-AllSound,
  set_ready-AllSound, start_room-AllSound, begin_first_hand-AllSound, begin_next_hand-AllSound,
  finish_room-AllSound, close_room-AllSound, admin_close_room-AllSound,
}

-- The calls of practice-room.service.ts that change its tables, and those of practice-game.service.ts that
-- write the status of a room, by any users and on any rooms, in any order. A room that is made has an
-- identifier that no room has, and a friends' room has a seat for its owner. The chips that a hand writes to
-- the players of a room are not among the steps.
pub data Steps (s : Practice) : Practice → Type 0 where
  start : Steps s s
  friends_room_created :
      {t u : Practice} (user : ℕ) (input : RoomInput) (limits : Limits) (fresh : Fresh)
      → Steps s t
      → 1 ≤ input.player_count
      → contains fresh.id (ids_of t.rooms) ≡ false
      → (create_friends_room t user input limits fresh).0 ≡ u
      → Steps s u
  solo_room_created :
      {t u : Practice} (user : ℕ) (input : RoomInput) (n : ℕ) (level : BotLevel) (limits : Limits)
      (fresh : Fresh)
      → Steps s t
      → contains fresh.id (ids_of t.rooms) ≡ false
      → (create_solo_room t user input n level limits fresh).0 ≡ u
      → Steps s u
  joined :
      {t u : Practice} (user : ℕ) (code : List ℕ)
      → Steps s t
      → join_room t user code ≡ ok u
      → Steps s u
  chips_set :
      {t u : Practice} (user : ℕ) (code : List ℕ) (chips : ℕ)
      → Steps s t
      → set_initial_chips t user code chips ≡ ok u
      → Steps s u
  chips_confirmed :
      {t u : Practice} (user : ℕ) (code : List ℕ)
      → Steps s t
      → confirm_initial_chips t user code ≡ ok u
      → Steps s u
  ready_set :
      {t u : Practice} (user : ℕ) (code : List ℕ) (st : Bool)
      → Steps s t
      → set_ready t user code st ≡ ok u
      → Steps s u
  started :
      {t u : Practice} (user : ℕ) (code : List ℕ)
      → Steps s t
      → start_room t user code ≡ ok u
      → Steps s u
  first_hand_begun :
      {t u : Practice} (user : ℕ) (code : List ℕ)
      → Steps s t
      → begin_first_hand t user code ≡ ok u
      → Steps s u
  next_hand_begun :
      {t u : Practice} (user : ℕ) (code : List ℕ)
      → Steps s t
      → begin_next_hand t user code ≡ ok u
      → Steps s u
  room_finished :
      {t u : Practice} (user : ℕ) (code : List ℕ) (now : ℕ)
      → Steps s t
      → finish_room t user code now ≡ ok u
      → Steps s u
  room_closed :
      {t u : Practice} (user : ℕ) (code : List ℕ) (now : ℕ)
      → Steps s t
      → close_room t user code now ≡ ok u
      → Steps s u
  admin_closed :
      {t u : Practice} (id now : ℕ) → Steps s t → admin_close_room t id now ≡ ok u → Steps s u
  touched :
      {t u : Practice} (room_codes : List (List ℕ)) (now : ℕ)
      → Steps s t
      → touch_rooms t room_codes now ≡ u
      → Steps s u

-- If every room is sound, then after any sequence of these steps every room is: no two of its players
-- share a seat, every seat is between one and the number of players the room may have, and a room that
-- is ready has a player, and each of its players has confirmed the chips. The calls are those that
-- succeed, and those that make a room with an identifier that is new, whether they succeed or not.
pub Steps-AllSound : (s t : Practice) → AllSound s → Steps s t → AllSound t
Steps-AllSound s t all start = all
Steps-AllSound s t all (friends_room_created {t = m} user input limits fresh h seats new e) =
    subst AllSound e
      (create_friends_room-AllSound m user input limits fresh seats new (Steps-AllSound s m all h))
Steps-AllSound s t all (solo_room_created {t = m} user input n level limits fresh h new e) =
    subst AllSound e
      (create_solo_room-AllSound m user input n level limits fresh new (Steps-AllSound s m all h))
Steps-AllSound s t all (joined {t = m} user code h e) =
    Ensures-value (join_room-AllSound m user code (Steps-AllSound s m all h)) e
Steps-AllSound s t all (chips_set {t = m} user code chips h e) =
    Ensures-value (set_initial_chips-AllSound m user code chips (Steps-AllSound s m all h)) e
Steps-AllSound s t all (chips_confirmed {t = m} user code h e) =
    Ensures-value (confirm_initial_chips-AllSound m user code (Steps-AllSound s m all h)) e
Steps-AllSound s t all (ready_set {t = m} user code st h e) =
    Ensures-value (set_ready-AllSound m user code st (Steps-AllSound s m all h)) e
Steps-AllSound s t all (started {t = m} user code h e) =
    Ensures-value (start_room-AllSound m user code (Steps-AllSound s m all h)) e
Steps-AllSound s t all (first_hand_begun {t = m} user code h e) =
    Ensures-value (begin_first_hand-AllSound m user code (Steps-AllSound s m all h)) e
Steps-AllSound s t all (next_hand_begun {t = m} user code h e) =
    Ensures-value (begin_next_hand-AllSound m user code (Steps-AllSound s m all h)) e
Steps-AllSound s t all (room_finished {t = m} user code now h e) =
    Ensures-value (finish_room-AllSound m user code now (Steps-AllSound s m all h)) e
Steps-AllSound s t all (room_closed {t = m} user code now h e) =
    Ensures-value (close_room-AllSound m user code now (Steps-AllSound s m all h)) e
Steps-AllSound s t all (admin_closed {t = m} id now h e) =
    Ensures-value (admin_close_room-AllSound m id now (Steps-AllSound s m all h)) e
Steps-AllSound s t all (touched {t = m} room_codes now h e) =
    subst AllSound e (touch_rooms-AllSound m room_codes now (Steps-AllSound s m all h))
