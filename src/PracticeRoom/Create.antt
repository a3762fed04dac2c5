-- ===== src/PracticeRoom/Create.antt =====
-- New rooms: the risk log, the room code, and the rows of a friends' room and of a solo room. What a
-- call has logged stays logged when it throws later, so a call returns the state with its result.
use allinle.Prelude.{
  ℕ, zero, suc, ◌+◌, ◌%◌, Bool, true, false, not, List, [], ◌∷◌, ◌++◌, map, Option, none, some,
  filter, ltb, leb, ◌==◌, if◌then◌else◌, length, get_or, any, Result, ok, err, throw_if, ◌>>◌, ◌&&◌,
}
use allinle.Prelude.Text.{codes}
use allinle.Risk.{
  RiskLog, medium, high, high_frequency_room_create, abnormal_initial_practice_chips,
  create_risk_log, log_sensitive_content,
}
use allinle.PracticeRoom.{
  PracticeRoomMode, friends, solo, PracticeRoomStatus, waiting, ready, BotLevel, Room, RoomPlayer,
  Practice, PracticeError, big_blind_not_greater, mode_not_friends, too_many_initial_chips,
  no_room_code, assert_user_can_use_practice, is_friends, new_player, has_code,
}

abbrev pub room_code_alphabet : List ℕ
room_code_alphabet = codes "ABCDEFGHJKLMNPQRSTUVWXYZ23456789"

-- The letters of six random bytes.
unfoldable pub code_of_bytes : List ℕ → List ℕ
code_of_bytes bytes =
    map (λ byte. get_or room_code_alphabet (byte % length room_code_alphabet) 0) bytes

-- The attempts that are left; `draw` has the bytes of each.
unfoldable pub generate_room_code : ℕ → (ℕ → List ℕ) → List Room → Result PracticeError (List ℕ)
unfolding code_of_bytes
generate_room_code zero draw rooms = err no_room_code
generate_room_code (suc n) draw rooms =
    let rest = generate_room_code n draw rooms in
    let code = code_of_bytes (draw n) in if any (has_code code) rooms then rest else ok code

unfoldable pub generate_unique_room_code : (ℕ → List ℕ) → List Room → Result PracticeError (List ℕ)
unfolding generate_room_code
generate_unique_room_code draw rooms = generate_room_code 20 draw rooms

-- The limits that the environment sets.
pub record Limits : Type 0 where
  pub create_limit : ℕ
  pub max_initial_practice_chips : ℕ

-- The rooms of a user of the last hour.
abbrev pub recent_rooms : List Room → ℕ → ℕ → ℕ
recent_rooms rooms user now =
    length
      (filter (λ (r : Room). (r.owner_user_id == user) && leb now (r.created_at + 3600000)) rooms)

abbrev pub with_logs : Practice → List RiskLog → Practice
with_logs s logs = record s { risk_logs = logs }

unfoldable pub log_frequency : Practice → ℕ → Limits → ℕ → Practice
log_frequency s user limits now =
    let recent = recent_rooms s.rooms user now in
    if leb limits.create_limit recent
    then with_logs s (
        create_risk_log s.risk_logs (some user)
          (high_frequency_room_create recent limits.create_limit) medium)
    else s

unfoldable pub write_create_room_risk_logs :
    Practice → ℕ → ℕ → Option (List ℕ) → Limits → ℕ → Practice × Result PracticeError (Unit {0})
write_create_room_risk_logs s user chips note limits now =
    let logged = log_frequency s user limits now in
    if ltb limits.max_initial_practice_chips chips
    then (
      with_logs logged (
          create_risk_log logged.risk_logs (some user)
            (abnormal_initial_practice_chips chips limits.max_initial_practice_chips) high),
      err too_many_initial_chips,
    )
    else (
      with_logs logged
          (log_sensitive_content logged.risk_logs (some user) "practice-room.note" note),
      ok tt,
    )

-- What the database makes for a new row, and the random bytes.
pub record Fresh : Type 0 where
  pub id : ℕ
  pub now : ℕ
  pub draw : ℕ → List ℕ

pub record RoomInput : Type 0 where
  pub mode : Option PracticeRoomMode
  pub player_count : ℕ
  pub small_blind : ℕ
  pub big_blind : ℕ
  pub initial_practice_chips : ℕ
  pub note : Option (List ℕ)

-- `mode && mode !== FRIENDS`
abbrev pub is_other_mode : Option PracticeRoomMode → Bool
is_other_mode none = false
is_other_mode (some m) = not (is_friends m)

abbrev pub new_room :
    Fresh → List ℕ → ℕ → PracticeRoomMode → RoomInput → PracticeRoomStatus → List RoomPlayer → Room
new_room fresh code user mode input status players = record {
  id = fresh.id;
  room_code = code;
  owner_user_id = user;
  mode = mode;
  player_count = input.player_count;
  small_blind = input.small_blind;
  big_blind = input.big_blind;
  initial_practice_chips = input.initial_practice_chips;
  status = status;
  ended_at = none;
  created_at = fresh.now;
  updated_at = fresh.now;
  players = players;
}

abbrev pub Created : Type 0
Created = Practice × Result PracticeError ℕ

-- The row is written when there is a code for it.
abbrev pub insert_row : Practice → ℕ → (List ℕ → Room) → Result PracticeError (List ℕ) → Created
insert_row s id row (err e) = (s, err e)
insert_row s id row (ok code) = (record s { rooms = s.rooms ++ row code ∷ [] }, ok id)

-- What follows checks that have changed nothing.
abbrev pub after_checks : Practice → Result PracticeError (Unit {0}) → Created → Created
after_checks s (err e) next = (s, err e)
after_checks s (ok _) next = next

-- The rest of a creation, after its checks: the risk logs, the code and the row.
unfoldable pub insert_room : Practice → ℕ → RoomInput → Limits → Fresh → (List ℕ → Room) → Created
insert_room s user input limits fresh row =
    let (logged, risk) =
      write_create_room_risk_logs s user input.initial_practice_chips input.note limits fresh.now in
    insert_row logged fresh.id row (risk >> generate_unique_room_code fresh.draw logged.rooms)

unfoldable pub friends_room : ℕ → RoomInput → Fresh → List ℕ → Room
friends_room user input fresh code =
    new_room fresh code user friends input waiting
      (new_player user 1 input.initial_practice_chips ∷ [])

unfoldable pub create_friends_room : Practice → ℕ → RoomInput → Limits → Fresh → Created
create_friends_room s user input limits fresh =
    after_checks s
      (assert_user_can_use_practice s.users user
        >> throw_if (is_other_mode input.mode) mode_not_friends
        >> throw_if (leb input.big_blind input.small_blind) big_blind_not_greater)
      (insert_room s user input limits fresh (friends_room user input fresh))

abbrev pub solo_player : Option ℕ → ℕ → ℕ → Bool → Option BotLevel → RoomPlayer
solo_player user seat chips bot level = record {
  user_id = user;
  seat_no = seat;
  chips = chips;
  ready_status = true;
  initial_chips_confirmed = true;
  chips_set_by_player = false;
  is_bot = bot;
  bot_level = level;
}

-- So many bots, at the seats from one on.
unfoldable pub bots : ℕ → ℕ → ℕ → BotLevel → List RoomPlayer
bots zero seat chips level = []
bots (suc n) seat chips level =
    solo_player none seat chips true (some level) ∷ bots n (suc seat) chips level

unfoldable pub solo_room : ℕ → RoomInput → ℕ → BotLevel → Fresh → List ℕ → Room
unfolding bots
solo_room user input bot_count level fresh code =
    new_room fresh code user solo (record input { player_count = bot_count + 1 }) ready
      (solo_player (some user) 1 input.initial_practice_chips false none
        ∷ bots bot_count 2 input.initial_practice_chips level)

-- A solo room's input has no mode, no note and no number of players of its own.
unfoldable pub create_solo_room : Practice → ℕ → RoomInput → ℕ → BotLevel → Limits → Fresh → Created
create_solo_room s user input bot_count level limits fresh =
    after_checks s
      (assert_user_can_use_practice s.users user
        >> throw_if (leb input.big_blind input.small_blind) big_blind_not_greater)
      (insert_room s user (record input { note = none }) limits fresh
        (solo_room user input bot_count level fresh))
