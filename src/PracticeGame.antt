-- ===== src/PracticeGame.antt =====
-- apps/api/src/practice-game/practice-game.service.ts: the hands of a practice room. The rows of rooms
-- and hands are lists, with the rows that refer to them held in them; the states that Redis keeps are a
-- list of pairs of a key and a state. The clock, the identifiers that the database makes and the random
-- numbers of the shuffle are arguments.
pub mod Hands
pub mod Calls
pub mod Views
pub mod Chips
pub mod Privacy
pub mod Due
pub mod Played
pub mod Turns
use Prim.Native.String.{String}
use text.Mathlib.Text.{◌==◌ as str_eq}
use allinle.Prelude.{
  ℕ, suc, zero, ◌+◌, Bool, true, false, ◌&&◌, ◌||◌, not, List, [], ◌∷◌, ◌++◌, map, Option, none,
  some, find, filter, every, any, ltb, ◌==◌, if◌then◌else◌, length, Result, ok, err, throw_if,
  or_throw, ◌>>=◌, ◌>>◌,
}
use allinle.Prelude.Int.{ℤ}
use allinle.Cards.{Card}
use allinle.HandRank.{HandRankCategory}
use allinle.Errors.{PokerError}
use allinle.Types.{GameState, GameAction, PlayerStatus, WinnerInfo}
use allinle.Game.Views.{is_user}
use allinle.PracticeRoom.{PracticeRoomMode, PracticeRoomStatus, BotLevel}

-- A player of a room, with the nickname of the user.
pub record RoomSeat : Type 0 where
  pub user_id : Option String
  pub seat_no : ℕ
  pub user_nickname : Option String
  pub is_bot : Bool
  pub bot_level : Option BotLevel
  pub chips : ℕ
  pub ready_status : Bool
  pub initial_chips_confirmed : Bool

pub record RoomForGame : Type 0 where
  pub id : String
  pub room_code : String
  pub owner_user_id : String
  pub mode : PracticeRoomMode
  pub player_count : ℕ
  pub small_blind : ℕ
  pub big_blind : ℕ
  pub status : PracticeRoomStatus
  pub started_at : Option String
  pub ended_at : Option String
  pub players : List RoomSeat

pub data PracticeHandStatus : Type 0 where
  playing finished : PracticeHandStatus

-- The texts of the column `finalStatus`.
pub data FinalStatus : Type 0 where
  winner lost room_ended : FinalStatus
  still : PlayerStatus → FinalStatus

pub record HandPlayer : Type 0 where
  pub user_id : Option String
  pub seat_no : ℕ
  pub nickname : Option String
  pub is_bot : Bool
  pub bot_level : Option BotLevel
  pub hole_cards : List Card
  pub start_chips : ℕ
  pub end_chips : Option ℕ
  pub invested : ℕ
  pub net_result : Option ℤ
  pub final_status : FinalStatus
  pub showdown : Bool
  pub hand_rank_category : Option HandRankCategory
  pub hand_rank_description : Option String
  pub best_five_cards : List Card

-- The column `winnerInfo`: the engine's, or the reason that the room ended with the board and the pot.
pub data HandOutcome : Type 0 where
  won : Option WinnerInfo → HandOutcome
  ended : List Card → ℕ → HandOutcome

pub record PracticeHand : Type 0 where
  pub id : String
  pub room_id : String
  pub hand_no : ℕ
  pub dealer_seat : ℕ
  pub small_blind_seat : ℕ
  pub big_blind_seat : ℕ
  pub board_cards : List Card
  pub pot_size : ℕ
  pub winner_info : Option HandOutcome
  pub status : PracticeHandStatus
  pub ended_at : Option String
  pub players : List HandPlayer
  pub actions : List GameAction

-- `bot_timers` has the rooms for which a turn of a bot is scheduled.
pub record Games : Type 0 where
  pub rooms : List RoomForGame
  pub hands : List PracticeHand
  pub states : List (String × GameState)
  pub bot_timers : List String

pub data GameError : Type 0 where
  room_not_found not_the_owner not_a_member no_state not_your_turn not_this_seat not_a_bot :
      GameError
  hand_not_finished room_not_startable too_few_members too_many_members not_all_ready no_chips :
      GameError
  row_not_found hand_not_found no_replay no_hole_cards : GameError
  illegal_action engine_error : PokerError → GameError

-- An error of the engine, passed on.
abbrev pub from_engine {ℓ} :
    {A : Type ℓ} → (PokerError → GameError) → Result PokerError A → Result GameError A
from_engine f (ok a) = ok a
from_engine f (err e) = err (f e)

-- A write to the first row that the test finds; the database throws if there is none.
unfoldable pub update_row {ℓ} :
    {A : Type ℓ} → (A → Bool) → (A → A) → List A → Result GameError (List A)
update_row test f [] = err row_not_found
update_row test f (x ∷ xs) =
    let rest = update_row test f xs in if test x then ok (f x ∷ xs) else rest >>= λ ys. ok (x ∷ ys)

abbrev pub has_room_id : String → RoomForGame → Bool
has_room_id id r = str_eq r.id id

abbrev pub has_room_code : String → RoomForGame → Bool
has_room_code code r = str_eq r.room_code code

abbrev pub has_hand_id : String → PracticeHand → Bool
has_hand_id id h = str_eq h.id id

abbrev pub is_at : ℕ → RoomSeat → Bool
is_at seat p = p.seat_no == seat

unfoldable pub get_room : Games → String → Result GameError RoomForGame
get_room s code = or_throw (find (has_room_code code) s.rooms) room_not_found

unfoldable pub assert_room_owner : RoomForGame → String → Result GameError (Unit {0})
assert_room_owner room user = throw_if (not (str_eq room.owner_user_id user)) not_the_owner

unfoldable pub assert_room_member : RoomForGame → String → Result GameError RoomSeat
assert_room_member room user =
    or_throw (find (λ (p : RoomSeat). is_user user p.user_id) room.players) not_a_member

abbrev pub is_waiting_or_ready : PracticeRoomStatus → Bool
is_waiting_or_ready PracticeRoomStatus.waiting = true
is_waiting_or_ready PracticeRoomStatus.ready = true
is_waiting_or_ready _ = false

unfoldable pub assert_room_ready_to_start : RoomForGame → Result GameError (Unit {0})
assert_room_ready_to_start room = do
  throw_if (not (is_waiting_or_ready room.status)) room_not_startable
  throw_if (ltb (length room.players) 2) too_few_members
  throw_if (ltb room.player_count (length room.players)) too_many_members
  throw_if
      (not (every (λ (p : RoomSeat). p.initial_chips_confirmed && p.ready_status) room.players))
      not_all_ready
  throw_if (not (every (λ (p : RoomSeat). ltb 0 p.chips) room.players)) no_chips

-- The states by the code of their room.
abbrev pub has_key : String → String × GameState → Bool
has_key code e = str_eq (e.0) code

unfoldable pub get_state : List (String × GameState) → String → Option GameState
get_state [] code = none
get_state (e ∷ es) code = if has_key code e then some (e.1) else get_state es code

unfoldable pub require_state : Games → String → Result GameError GameState
require_state s code = or_throw (get_state s.states code) no_state

unfoldable pub save_state : Games → GameState → Games
save_state s state = record s { states = (state.room_code, state) ∷ s.states }

unfoldable pub delete_state : Games → String → Games
delete_state s code = record s { states = filter (λ e. not (has_key code e)) s.states }

unfoldable pub clear_bot_timer : Games → String → Games
clear_bot_timer s code = record s { bot_timers = filter (λ c. not (str_eq c code)) s.bot_timers }

unfoldable pub schedule_bot_turn : Games → String → Games
schedule_bot_turn s code = record s { bot_timers = code ∷ (clear_bot_timer s code).bot_timers }
