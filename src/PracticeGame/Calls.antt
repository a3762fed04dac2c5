-- ===== src/PracticeGame/Calls.antt =====
-- The calls of the service that change a hand.
use Prim.Native.String.{String}
use text.Mathlib.Text.{◌==◌ as str_eq}
use allinle.Prelude.{
  ℕ, suc, ◌+◌, Bool, true, false, ◌||◌, not, List, [], ◌∷◌, map, Option, none, some, find, filter,
  any, ltb, leb, ◌==◌, if◌then◌else◌, length, get_or, sort_by, max, Result, ok, err, throw_if,
  or_throw, ◌>>=◌, ◌>>◌,
}
use allinle.Types.{Player, GameState, GameStatus, ActionType, is_playing}
use allinle.Game.Legal.{is_turn}
use allinle.Game.Seats.{next_dealer_seat}
use allinle.Game.Bets.{Amount, Choice}
use allinle.Game.Rounds.{Event, ActionResult, apply_game_action}
use allinle.Game.Views.{is_user}
use allinle.PracticeRoom.{PracticeRoomStatus}
use allinle.PracticeGame.{
  RoomSeat, RoomForGame, PracticeHand, Games, GameError, not_your_turn, not_this_seat, not_a_bot,
  illegal_action, hand_not_finished, from_engine, update_row, has_room_id, get_room,
  assert_room_owner, assert_room_member, assert_room_ready_to_start, get_state, require_state,
  save_state, delete_state, clear_bot_timer, schedule_bot_turn,
}
use allinle.PracticeGame.Hands.{
  Dealing, persist_actions, system_action, is_finished, is_street_changed, persist_finished_hand,
  persist_aborted_hand, create_and_persist_hand,
}

-- The player whose turn it is, if there is one and it is this seat's.
unfoldable pub current_player : GameState → ℕ → GameError → Result GameError Player
current_player state seat e = do
  p ← or_throw (find (λ (p : Player). is_turn state.current_turn_seat p.seat_no) state.players) e
  throw_if (not (p.seat_no == seat)) e
  ok p

-- `currentPlayer.userId || actorUserId || null`; a user's identifier is not empty.
abbrev pub actor_of : Option String → Option String → Option String
actor_of none actor = actor
actor_of (some String.[]) actor = actor
actor_of user actor = user

-- A user acts for himself, and nobody acts for a bot only.
abbrev pub wrong_actor : Option String → Player → Option GameError
wrong_actor (some actor) p = if is_user actor p.user_id then none else some not_your_turn
wrong_actor none p = if p.is_bot then none else some not_a_bot

abbrev pub assert_actor : Option String → Player → Result GameError (Unit {0})
assert_actor actor p = elim (wrong_actor actor p) [ none ↦ ok tt | some e ↦ err e ]

unfoldable pub persist_system_actions_for_events :
    Games → GameState → List Event → String → Result GameError Games
persist_system_actions_for_events s state events now =
    if not (any is_street_changed events) || is_finished state.status
    then ok s
    else persist_actions s state.hand_id
        (system_action ActionType.deal (length state.board_cards) state.street now ∷ [])

-- What follows a hand's new state: the rows of a finished hand, or the turn of a bot.
unfoldable pub after_action : Games → String → GameState → String → Result GameError Games
after_action s code state now =
    if is_finished state.status
    then (persist_finished_hand s state now >>= λ t. ok (clear_bot_timer t code))
    else (if is_playing state.status then ok (schedule_bot_turn s code) else ok s)

unfoldable pub apply_seat_action :
    Games
    → String
    → ℕ
    → Choice
    → Amount
    → Option String
    → String
    → Result GameError (Games × ActionResult)
apply_seat_action s code seat type amount actor now = do
  state ← require_state s code
  p ← current_player state seat not_this_seat
  assert_actor actor p
  result ← from_engine illegal_action (
      apply_game_action state
        (record {
          seat_no = seat;
          user_id = actor_of p.user_id actor;
          action_type = type;
          amount = amount;
        })
        now)
  logged ← persist_actions s result.state.hand_id (result.applied_action ∷ [])
  dealt ← persist_system_actions_for_events logged result.state result.events now
  t ← after_action dealt code result.state now
  ok (save_state t result.state, result)

unfoldable pub apply_action :
    Games → String → String → Choice → Amount → String → Result GameError (Games × ActionResult)
apply_action s user code type amount now = do
  room ← get_room s code
  seat ← assert_room_member room user
  state ← require_state s code
  _ ← current_player state seat.seat_no not_your_turn
  apply_seat_action s code seat.seat_no type amount (some user) now

unfoldable pub next_hand_no : List PracticeHand → String → ℕ
next_hand_no [] id = 1
next_hand_no (h ∷ hs) id =
    let rest = next_hand_no hs id in if str_eq h.room_id id then max (suc h.hand_no) rest else rest

abbrev pub begins : String → RoomForGame → RoomForGame
begins now r = record r {
  status = PracticeRoomStatus.playing;
  started_at = elim r.started_at [ none ↦ some now | some t ↦ some t ];
}

-- A state whose hand is played or finished.
abbrev pub is_going_on : GameStatus → Bool
is_going_on GameStatus.room_finished = false
is_going_on _ = true

abbrev pub going_on : Option GameState → Bool
going_on none = false
going_on (some g) = is_going_on g.status

abbrev pub first_seat : RoomForGame → ℕ
first_seat room =
    get_or
      (sort_by leb (map (λ (p : RoomSeat). p.seat_no) (filter (λ p. ltb 0 p.chips) room.players))) 0
      0

-- A hand that is played or finished is shown to the members; else the owner starts the first.
unfoldable pub start_first_hand : Games → String → String → Dealing → Result GameError Games
unfolding sort_by
start_first_hand s user code dealing =
    if going_on (get_state s.states code)
    then (get_room s code >>= λ room. assert_room_member room user >>= λ _. ok s)
    else (do
      room ← get_room s code
      assert_room_owner room user
      assert_room_ready_to_start room
      dealt ←
          create_and_persist_hand s room (next_hand_no s.hands room.id) (first_seat room) dealing
      rooms ← update_row (has_room_id room.id) (begins dealing.now) dealt.0.rooms
      ok (schedule_bot_turn (save_state (record (dealt.0) { rooms = rooms }) (dealt.1)) code))

abbrev pub finishes : String → RoomForGame → RoomForGame
finishes now r = record r { status = PracticeRoomStatus.finished; ended_at = some now }

abbrev pub closed_state : GameState → String → GameState
closed_state g now = record g {
  status = GameStatus.room_finished;
  current_turn_seat = none;
  updated_at = now;
}

-- `nextPlayer?.chips ?? roomPlayer.chips`
abbrev pub refreshed_seat : List Player → RoomSeat → RoomSeat
refreshed_seat players seat = elim (find (λ (p : Player). p.seat_no == seat.seat_no) players) [
  | none ↦ seat
  | some p ↦ record seat { chips = p.chips }
]

unfoldable pub next_hand : Games → String → String → Dealing → Result GameError Games
next_hand s user code dealing = do
  room ← get_room s code
  assert_room_owner room user
  previous ← require_state s code
  throw_if (not (is_finished previous.status)) hand_not_finished
  elim (next_dealer_seat previous.players previous.dealer_seat) [
    | none ↦ update_row (has_room_id room.id) (finishes dealing.now) s.rooms >>= λ rooms. ok (
        clear_bot_timer
          (save_state (record s { rooms = rooms }) (closed_state previous dealing.now)) code)
    | some dealer ↦
        create_and_persist_hand s
          (record room { players = map (refreshed_seat previous.players) room.players })
          (previous.hand_no + 1) dealer dealing
        >>= λ dealt.
            update_row (has_room_id room.id) (λ r. record r { status = PracticeRoomStatus.playing })
              dealt.0.rooms
            >>= λ rooms.
                ok (
                  schedule_bot_turn (save_state (record (dealt.0) { rooms = rooms }) (dealt.1))
                    code)
  ]

-- The hand in play, if there is one, is given up.
unfoldable pub abort_hand : Games → Option GameState → String → Result GameError Games
abort_hand s none now = ok s
abort_hand s (some g) now = if is_playing g.status then persist_aborted_hand s g now else ok s

unfoldable pub end_room : Games → String → String → String → Result GameError Games
end_room s user code now = do
  room ← get_room s code
  assert_room_owner room user
  aborted ← abort_hand s (get_state s.states code) now
  rooms ← update_row (has_room_id room.id) (finishes now) aborted.rooms
  ok (delete_state (clear_bot_timer (record aborted { rooms = rooms }) code) code)
