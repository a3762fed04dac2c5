-- ===== src/PracticeRoom.antt =====
-- apps/api/src/practice-room/practice-room.service.ts: rooms, their players, and the calls that take a
-- room from its creation to its start. The tables are lists, the players of a room are held in it,
-- times are milliseconds, and what the database makes (identifiers, the clock) are arguments.
pub mod Create
pub mod Codes
pub mod Hands
pub mod Refresh
pub mod Tables
pub mod Sound
pub mod Changes
pub mod Start
use Prim.Native.String.{String}
use allinle.Prelude.{
  ℕ, zero, suc, ◌+◌, Bool, true, false, ◌&&◌, ◌||◌, not, List, [], ◌∷◌, ◌++◌, map, Option, none,
  some, find, filter, every, any, contains, ltb, leb, ◌==◌, if◌then◌else◌, length, sort_by, Result,
  ok, err, throw_if, or_throw, ◌>>=◌, ◌>>◌,
}
use allinle.Prelude.Text.{same_text}
use allinle.Risk.{RiskLog}

pub data UserStatus : Type 0 where
  normal limited banned : UserStatus

pub data PracticeRoomMode : Type 0 where
  friends solo : PracticeRoomMode

pub data PracticeRoomStatus : Type 0 where
  waiting ready playing finished closed : PracticeRoomStatus

pub data BotLevel : Type 0 where
  beginner normal advanced : BotLevel

pub record User : Type 0 where
  pub id : ℕ
  pub nickname : Option String
  pub status : UserStatus

pub record RoomPlayer : Type 0 where
  pub user_id : Option ℕ
  pub seat_no : ℕ
  pub chips : ℕ
  pub ready_status : Bool
  pub initial_chips_confirmed : Bool
  pub chips_set_by_player : Bool
  pub is_bot : Bool
  pub bot_level : Option BotLevel

pub record Room : Type 0 where
  pub id : ℕ
  pub room_code : List ℕ
  pub owner_user_id : ℕ
  pub mode : PracticeRoomMode
  pub player_count : ℕ
  pub small_blind : ℕ
  pub big_blind : ℕ
  pub initial_practice_chips : ℕ
  pub status : PracticeRoomStatus
  pub ended_at : Option ℕ
  pub created_at : ℕ
  pub updated_at : ℕ
  pub players : List RoomPlayer

pub record Practice : Type 0 where
  pub users : List User
  pub rooms : List Room
  pub risk_logs : List RiskLog

pub data PracticeError : Type 0 where
  user_not_found user_banned room_not_found mode_not_friends big_blind_not_greater : PracticeError
  mode_not_joinable room_not_joinable room_full no_free_seat : PracticeError
  status_not_waiting not_a_room_player chips_not_set_by_all : PracticeError
  not_the_owner not_all_ready too_many_initial_chips no_room_code solo_not_allowed : PracticeError
  room_not_startable too_few_players too_many_players players_not_ready : PracticeError
  player_without_chips : PracticeError

abbrev pub has_user_id : ℕ → User → Bool
has_user_id id u = u.id == id

abbrev pub is_banned : UserStatus → Bool
is_banned banned = true
is_banned _ = false

unfoldable pub assert_user_can_use_practice : List User → ℕ → Result PracticeError (Unit {0})
assert_user_can_use_practice users id = do
  user ← or_throw (find (has_user_id id) users) user_not_found
  throw_if (is_banned user.status) user_banned

-- Lookups by the two unique keys of a room, and a write to the row with an identifier.
abbrev pub has_id : ℕ → Room → Bool
has_id id r = r.id == id

abbrev pub has_code : List ℕ → Room → Bool
has_code code r = same_text r.room_code code

unfoldable pub get_by_room_code : List Room → List ℕ → Result PracticeError Room
get_by_room_code rooms code = or_throw (find (has_code code) rooms) room_not_found

unfoldable pub write_room : ℕ → (Room → Room) → List Room → List Room
write_room id f [] = []
write_room id f (r ∷ rs) = if has_id id r then f r ∷ rs else r ∷ write_room id f rs

-- Closed, finished or playing.
abbrev pub is_over_or_playing : PracticeRoomStatus → Bool
is_over_or_playing waiting = false
is_over_or_playing ready = false
is_over_or_playing playing = true
is_over_or_playing finished = true
is_over_or_playing closed = true

unfoldable pub assert_room_can_change_waiting_state :
    PracticeRoomStatus → Result PracticeError (Unit {0})
assert_room_can_change_waiting_state status =
    throw_if (is_over_or_playing status) status_not_waiting

abbrev pub of_user : ℕ → RoomPlayer → Bool
of_user user p = elim p.user_id [ none ↦ false | some u ↦ u == user ]

unfoldable pub assert_room_player : Room → ℕ → Result PracticeError RoomPlayer
assert_room_player room user = or_throw (find (of_user user) room.players) not_a_room_player

-- Closed or playing.
abbrev pub keeps_status : PracticeRoomStatus → Bool
keeps_status closed = true
keeps_status playing = true
keeps_status _ = false

abbrev pub all_confirmed : List RoomPlayer → Bool
all_confirmed players = every (λ (p : RoomPlayer). p.initial_chips_confirmed) players

unfoldable pub refresh_ready_status : Room → Room
refresh_ready_status room = if keeps_status room.status then room else record room {
  status = if ltb 0 (length room.players) && all_confirmed room.players then ready else waiting;
}

abbrev pub is_friends : PracticeRoomMode → Bool
is_friends friends = true
is_friends solo = false

-- The first of the seats that is not occupied, of so many from `seat` on.
unfoldable pub first_free : ℕ → ℕ → List ℕ → Option ℕ
first_free zero seat occupied = none
first_free (suc n) seat occupied =
    let rest = first_free n (suc seat) occupied in
    if contains seat occupied then rest else some seat

abbrev pub seats_of : Room → List ℕ
seats_of room = map (λ p. p.seat_no) room.players

abbrev pub new_player : ℕ → ℕ → ℕ → RoomPlayer
new_player user seat chips = record {
  user_id = some user;
  seat_no = seat;
  chips = chips;
  ready_status = false;
  initial_chips_confirmed = false;
  chips_set_by_player = false;
  is_bot = false;
  bot_level = none;
}

abbrev pub seated : Room → RoomPlayer → Room
seated room p = record room { players = room.players ++ p ∷ [] }

-- The new row of a member who joins, from the room that was read.
unfoldable pub take_seat : Room → ℕ → Result PracticeError RoomPlayer
unfolding first_free
take_seat room user = do
  throw_if (leb room.player_count (length room.players)) room_full
  seat ← or_throw (first_free room.player_count 1 (seats_of room)) no_free_seat
  ok (new_player user seat room.initial_practice_chips)

unfoldable pub join_room : Practice → ℕ → List ℕ → Result PracticeError Practice
join_room s user code = do
  assert_user_can_use_practice s.users user
  room ← get_by_room_code s.rooms code
  throw_if (not (is_friends room.mode)) mode_not_joinable
  throw_if (is_over_or_playing room.status) room_not_joinable
  if any (of_user user) room.players
      then ok s
      else take_seat room user >>= λ p.
          ok (record s {
            rooms = write_room room.id (λ r. refresh_ready_status (seated r p)) s.rooms;
          })

-- `updateMany` on the players of a room.
abbrev pub update_players : (RoomPlayer → Bool) → (RoomPlayer → RoomPlayer) → Room → Room
update_players test f room = record room {
  players = map (λ p. if test p then f p else p) room.players;
}

abbrev pub confirm : RoomPlayer → RoomPlayer
confirm p = record p { initial_chips_confirmed = true; ready_status = true }

-- The checks that the calls on a waiting room share.
unfoldable pub waiting_room_of : Practice → ℕ → List ℕ → Result PracticeError Room
waiting_room_of s user code = do
  assert_user_can_use_practice s.users user
  room ← get_by_room_code s.rooms code
  assert_room_can_change_waiting_state room.status
  _ ← assert_room_player room user
  ok room

abbrev pub all_set_chips : List RoomPlayer → Bool
all_set_chips players = every (λ (p : RoomPlayer). p.chips_set_by_player) players

unfoldable pub confirm_initial_chips : Practice → ℕ → List ℕ → Result PracticeError Practice
confirm_initial_chips s user code = do
  room ← waiting_room_of s user code
  throw_if (not (all_set_chips room.players)) chips_not_set_by_all
  ok (record s {
    rooms =
        write_room room.id (λ r. refresh_ready_status (update_players (of_user user) confirm r))
          s.rooms;
  })

abbrev pub unconfirm : RoomPlayer → RoomPlayer
unconfirm p = record p { initial_chips_confirmed = false; ready_status = false }

abbrev pub bring : ℕ → RoomPlayer → RoomPlayer
bring chips p = record p { chips = chips; chips_set_by_player = true }

-- The transaction of `setInitialChips`.
abbrev pub with_chips : ℕ → ℕ → Room → Room
with_chips user chips room =
    update_players (of_user user) (bring chips) (update_players (λ _. true) unconfirm room)

unfoldable pub set_initial_chips : Practice → ℕ → List ℕ → ℕ → Result PracticeError Practice
set_initial_chips s user code chips = do
  room ← waiting_room_of s user code
  ok (record s {
    rooms = write_room room.id (λ r. refresh_ready_status (with_chips user chips r)) s.rooms;
  })

abbrev pub with_ready : Bool → RoomPlayer → RoomPlayer
with_ready st p = record p { ready_status = st }

unfoldable pub set_ready : Practice → ℕ → List ℕ → Bool → Result PracticeError Practice
set_ready s user code st = do
  room ← waiting_room_of s user code
  ok (record s {
    rooms =
        write_room room.id
          (λ r. refresh_ready_status (update_players (of_user user) (with_ready st) r)) s.rooms;
  })

-- What a client is shown of a player.
pub record PlayerView : Type 0 where
  pub player : RoomPlayer
  pub nickname : Option String

abbrev pub bot_name : Option BotLevel → String
bot_name none = "机器人"
bot_name (some beginner) = "入门机器人"
bot_name (some BotLevel.normal) = "普通机器人"
bot_name (some advanced) = "进阶机器人"

abbrev pub user_nickname : List User → Option ℕ → Option String
user_nickname users none = none
user_nickname users (some id) = elim (find (has_user_id id) users) [
  | none ↦ none
  | some u ↦ u.nickname
]

-- `user?.nickname || (isBot ? botName : null)`
abbrev pub shown_name : Option String → Bool → Option BotLevel → Option String
shown_name none false level = none
shown_name (some String.[]) false level = none
shown_name none true level = some (bot_name level)
shown_name (some String.[]) true level = some (bot_name level)
shown_name (some name) bot level = some name

abbrev pub by_seat : RoomPlayer → RoomPlayer → Bool
by_seat a b = leb a.seat_no b.seat_no

unfoldable pub serialize_players : List User → List RoomPlayer → List PlayerView
unfolding sort_by
serialize_players users players =
    map
      (λ p. record {
        player = p;
        nickname = shown_name (user_nickname users p.user_id) p.is_bot p.bot_level;
      })
      (sort_by by_seat players)

abbrev pub is_ready : PracticeRoomStatus → Bool
is_ready ready = true
is_ready _ = false

abbrev pub with_status : PracticeRoomStatus → Room → Room
with_status st r = record r { status = st }

abbrev pub cannot_start : PracticeRoomStatus → List PlayerView → Bool
cannot_start status players =
    not (is_ready status)
    || not (every (λ (v : PlayerView). v.player.initial_chips_confirmed) players)
    || not (every (λ (v : PlayerView). v.player.ready_status) players)

unfoldable pub start_room : Practice → ℕ → List ℕ → Result PracticeError Practice
start_room s user code = do
  assert_user_can_use_practice s.users user
  room ← get_by_room_code s.rooms code
  throw_if (not (room.owner_user_id == user)) not_the_owner
  let players = serialize_players s.users room.players
  throw_if (cannot_start room.status players) not_all_ready
  ok (record s { rooms = write_room room.id (with_status playing) s.rooms })

abbrev pub shut : ℕ → Room → Room
shut now r = record r { status = closed; ended_at = some now }

unfoldable pub close_room : Practice → ℕ → List ℕ → ℕ → Result PracticeError Practice
close_room s user code now = do
  room ← get_by_room_code s.rooms code
  throw_if (not (room.owner_user_id == user)) not_the_owner
  ok (record s { rooms = write_room room.id (shut now) s.rooms })

-- An update of a row that is not there throws.
unfoldable pub admin_close_room : Practice → ℕ → ℕ → Result PracticeError Practice
admin_close_room s id now = do
  room ← or_throw (find (has_id id) s.rooms) room_not_found
  ok (record s { rooms = write_room room.id (shut now) s.rooms })

unfoldable pub get_solo_room : Practice → ℕ → ℕ → Result PracticeError Room
get_solo_room s user id = do
  room ← or_throw (find (has_id id) s.rooms) room_not_found
  throw_if (not (room.owner_user_id == user) || is_friends room.mode) solo_not_allowed
  ok room

abbrev pub is_live : PracticeRoomStatus → Bool
is_live waiting = true
is_live ready = true
is_live playing = true
is_live _ = false

abbrev pub touch : List (List ℕ) → ℕ → Room → Room
touch room_codes now r =
    if any (same_text r.room_code) room_codes && is_live r.status
    then record r { updated_at = now }
    else r

unfoldable pub touch_rooms : Practice → List (List ℕ) → ℕ → Practice
touch_rooms s room_codes now = record s { rooms = map (touch room_codes now) s.rooms }
