-- ===== src/PracticeGame/Views.antt =====
-- What the service shows of the hands that it has stored.
use Prim.Native.String.{String}
use text.Mathlib.Text.{◌==◌ as str_eq}
use allinle.Prelude.{
  ℕ, suc, Bool, true, false, ◌||◌, List, [], ◌∷◌, map, Option, none, some, find, filter, leb, ◌==◌,
  if◌then◌else◌, sort_by, take, Result, ok, or_throw, ◌>>=◌,
}
use allinle.Cards.{Card}
use allinle.Types.{GameState, GameAction}
use allinle.Game.Views.{
  PublicGameState, PrivateHandState, is_user, to_public_game_state, to_private_hand_state,
}
use allinle.PracticeRoom.{PracticeRoomMode, bot_name}
use allinle.PracticeGame.{
  RoomForGame, PracticeHand, PracticeHandStatus, finished, HandPlayer, HandOutcome, Games,
  GameError, hand_not_found, no_replay, room_not_found, has_room_id, has_hand_id, get_room,
  assert_room_member, get_state,
}

-- The rows of a hand are read by seats.
abbrev pub in_order : List HandPlayer → List HandPlayer
in_order rows = sort_by (λ (a b : HandPlayer). leb a.seat_no b.seat_no) rows

-- The last hands of a room first, a hundred at most.
unfoldable pub list_hands : Games → String → String → Result GameError (List PracticeHand)
unfolding sort_by
list_hands s user code = do
  room ← get_room s code
  _ ← assert_room_member room user
  ok (
      map (λ (h : PracticeHand). record h { players = in_order h.players })
        (take 100 (
          sort_by (λ (a b : PracticeHand). leb b.hand_no a.hand_no)
            (filter (λ (h : PracticeHand). str_eq h.room_id room.id) s.hands))))

abbrev pub is_done : PracticeHandStatus → Bool
is_done finished = true
is_done PracticeHandStatus.playing = false

-- While a hand is played, a viewer sees his own cards only.
abbrev pub hide_unless_own : String → HandPlayer → HandPlayer
hide_unless_own user p = if is_user user p.user_id then p else record p { hole_cards = [] }

abbrev pub shown_players : String → PracticeHandStatus → List HandPlayer → List HandPlayer
shown_players user st rows = if is_done st then rows else map (hide_unless_own user) rows

unfoldable pub get_hand : Games → String → String → Result GameError PracticeHand
unfolding sort_by
get_hand s user hand_id = do
  hand ← or_throw (find (has_hand_id hand_id) s.hands) hand_not_found
  room ← or_throw (find (has_room_id hand.room_id) s.rooms) room_not_found
  _ ← assert_room_member room user
  ok (record hand { players = shown_players user hand.status (in_order hand.players) })

pub record ReplayPlayer : Type 0 where
  pub row : HandPlayer
  pub hole_cards_hidden : Bool

pub record ReplayAction : Type 0 where
  pub index : ℕ
  pub nickname : String
  pub action : GameAction

pub record Replay : Type 0 where
  pub hand_id : String
  pub room_code : String
  pub mode : PracticeRoomMode
  pub hand_no : ℕ
  pub status : PracticeHandStatus
  pub small_blind : ℕ
  pub big_blind : ℕ
  pub dealer_seat : ℕ
  pub small_blind_seat : ℕ
  pub big_blind_seat : ℕ
  pub board_cards : List Card
  pub pot_size : ℕ
  pub winner_info : Option HandOutcome
  pub ended_at : Option String
  pub players : List ReplayPlayer
  pub actions : List ReplayAction

-- `revealAll || player.userId === viewerUserId || player.showdown`
abbrev pub is_revealed : String → Bool → HandPlayer → Bool
is_revealed viewer all p = all || is_user viewer p.user_id || p.showdown

-- The text of a seat that has no name; `seat_text` writes the number.
abbrev pub name_of : (ℕ → String) → HandPlayer → String
name_of seat_text p = elim p.nickname [
  | none ↦ if p.is_bot then bot_name p.bot_level else seat_text p.seat_no
  | some String.[] ↦ if p.is_bot then bot_name p.bot_level else seat_text p.seat_no
  | some name ↦ name
]

-- `nameBySeat`: the last row of a seat counts.
unfoldable pub name_by_seat : (ℕ → String) → List HandPlayer → ℕ → Option String
name_by_seat seat_text [] seat = none
name_by_seat seat_text (p ∷ ps) seat =
    let later = name_by_seat seat_text ps seat in
    elim later [
      | some name ↦ some name
      | none ↦ if p.seat_no == seat then some (name_of seat_text p) else none
    ]

-- `a || b`, where an empty text counts as absent.
abbrev pub or_name : Option String → Option String → Option String
or_name none b = b
or_name (some String.[]) b = b
or_name a b = a

abbrev pub or_member : Option String → String
or_member none = "成员"
or_member (some String.[]) = "成员"
or_member (some name) = name

unfoldable pub replay_player : String → Bool → (ℕ → Option String) → HandPlayer → ReplayPlayer
replay_player viewer all names p =
    let named : HandPlayer = record p { nickname = or_name p.nickname (names p.seat_no) } in
    if is_revealed viewer all p
    then record { row = named; hole_cards_hidden = false }
    else record { row = record named { hole_cards = [] }; hole_cards_hidden = true }

-- The name of who acted: the system has seat 0, and `user_name` is the nickname of the action's user.
abbrev pub actor_name : (ℕ → Option String) → (Option String → Option String) → GameAction → String
actor_name names user_name a =
    if a.seat_no == 0 then "系统" else or_member (or_name (names a.seat_no) (user_name a.user_id))

unfoldable pub replay_actions :
    (ℕ → Option String) → (Option String → Option String) → ℕ → List GameAction → List ReplayAction
replay_actions names user_name index [] = []
replay_actions names user_name index (a ∷ as') =
    record { index = index; nickname = actor_name names user_name a; action = a }
    ∷ replay_actions names user_name (suc index) as'

-- Names that are not in the row of the hand: of seats, and of users.
pub record Names : Type 0 where
  pub seat_text : ℕ → String
  pub user_name : Option String → Option String

unfoldable pub serialize_hand_replay : Names → RoomForGame → PracticeHand → String → Bool → Replay
unfolding name_by_seat replay_player replay_actions
serialize_hand_replay names room h viewer all = record {
  hand_id = h.id;
  room_code = room.room_code;
  mode = room.mode;
  hand_no = h.hand_no;
  status = h.status;
  small_blind = room.small_blind;
  big_blind = room.big_blind;
  dealer_seat = h.dealer_seat;
  small_blind_seat = h.small_blind_seat;
  big_blind_seat = h.big_blind_seat;
  board_cards = h.board_cards;
  pot_size = h.pot_size;
  winner_info = h.winner_info;
  ended_at = h.ended_at;
  players = map (replay_player viewer all (name_by_seat names.seat_text h.players)) h.players;
  actions = replay_actions (name_by_seat names.seat_text h.players) names.user_name 1 h.actions;
}

unfoldable pub get_hand_replay : Games → Names → String → String → Result GameError Replay
unfolding sort_by
get_hand_replay s names user hand_id = do
  hand ← or_throw (find (has_hand_id hand_id) s.hands) hand_not_found
  room ← or_throw (find (has_room_id hand.room_id) s.rooms) room_not_found
  _ ← assert_room_member room user
  ok (serialize_hand_replay names room (record hand { players = in_order hand.players }) user false)

-- The finished hand of a room with the greatest number.
unfoldable pub latest_finished : List PracticeHand → String → Option PracticeHand
unfolding sort_by
latest_finished hands id =
    find (λ (h : PracticeHand). is_done h.status)
      (sort_by (λ (a b : PracticeHand). leb b.hand_no a.hand_no)
        (filter (λ (h : PracticeHand). str_eq h.room_id id) hands))

unfoldable pub get_latest_hand_replay : Games → Names → String → String → Result GameError Replay
unfolding sort_by
get_latest_hand_replay s names user code = do
  room ← get_room s code
  _ ← assert_room_member room user
  hand ← or_throw (latest_finished s.hands room.id) no_replay
  ok (serialize_hand_replay names room (record hand { players = in_order hand.players }) user false)

-- What a member is shown of the state.
pub record UserView : Type 0 where
  pub public_state : Option PublicGameState
  pub private_state : Option PrivateHandState

unfoldable pub build_user_game_view : String → GameState → UserView
build_user_game_view user state = record {
  public_state = some (to_public_game_state state);
  private_state = to_private_hand_state state user;
}

abbrev pub view_of : String → Option GameState → UserView
view_of user none = record { public_state = none; private_state = none }
view_of user (some g) = build_user_game_view user g

unfoldable pub get_game_state : Games → String → String → Result GameError UserView
get_game_state s user code = do
  room ← get_room s code
  _ ← assert_room_member room user
  ok (view_of user (get_state s.states code))
