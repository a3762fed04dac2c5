-- ===== src/Game/Views.antt =====
-- What players are shown of a hand: `toPublicGameState`, `toPrivateHandState` and
-- `getAllPrivateHandStates` of state-machine.ts.
pub mod Hidden
use Prim.Native.String.{String}
use text.Mathlib.Text.{◌==◌ as str_eq}
use allinle.Prelude.{ℕ, Bool, true, false, List, [], map, Option, none, some, filter, find}
use allinle.Cards.{Card}
use allinle.Types.{Player, GameState, GameStatus, PlayerStatus, Street, GameAction, WinnerInfo}
use allinle.Game.Legal.{LegalAction, get_legal_actions}

pub record PublicGameState : Type 0 where
  pub room_id : String
  pub room_code : String
  pub hand_id : String
  pub hand_no : ℕ
  pub status : GameStatus
  pub street : Street
  pub board_cards : List Card
  pub pot : ℕ
  pub current_bet : ℕ
  pub min_raise : ℕ
  pub dealer_seat : ℕ
  pub small_blind_seat : ℕ
  pub big_blind_seat : ℕ
  pub small_blind : ℕ
  pub big_blind : ℕ
  pub current_turn_seat : Option ℕ
  pub last_aggressor_seat : Option ℕ
  pub players : List Player
  pub action_history : List GameAction
  pub winner_info : Option WinnerInfo
  pub created_at : String
  pub updated_at : String

pub record PrivateHandState : Type 0 where
  pub room_code : String
  pub hand_id : String
  pub hand_no : ℕ
  pub seat_no : ℕ
  pub user_id : Option String
  pub hole_cards : List Card
  pub status : PlayerStatus
  pub chips : ℕ
  pub invested_this_hand : ℕ
  pub invested_this_street : ℕ
  pub legal_actions : List LegalAction

abbrev pub hide_cards : Player → Player
hide_cards p = record p { hole_cards = [] }

unfoldable pub to_public_game_state : GameState → PublicGameState
to_public_game_state s = record {
  room_id = s.room_id;
  room_code = s.room_code;
  hand_id = s.hand_id;
  hand_no = s.hand_no;
  status = s.status;
  street = s.street;
  board_cards = s.board_cards;
  pot = s.pot;
  current_bet = s.current_bet;
  min_raise = s.min_raise;
  dealer_seat = s.dealer_seat;
  small_blind_seat = s.small_blind_seat;
  big_blind_seat = s.big_blind_seat;
  small_blind = s.small_blind;
  big_blind = s.big_blind;
  current_turn_seat = s.current_turn_seat;
  last_aggressor_seat = s.last_aggressor_seat;
  players = map hide_cards s.players;
  action_history = s.action_history;
  winner_info = s.winner_info;
  created_at = s.created_at;
  updated_at = s.updated_at;
}

unfoldable pub private_hand : GameState → Player → PrivateHandState
unfolding get_legal_actions
private_hand s p = record {
  room_code = s.room_code;
  hand_id = s.hand_id;
  hand_no = s.hand_no;
  seat_no = p.seat_no;
  user_id = p.user_id;
  hole_cards = p.hole_cards;
  status = p.status;
  chips = p.chips;
  invested_this_hand = p.invested_this_hand;
  invested_this_street = p.invested_this_street;
  legal_actions = get_legal_actions s p.seat_no;
}

-- `candidate.userId === userId`
abbrev pub is_user : String → Option String → Bool
is_user u none = false
is_user u (some v) = str_eq v u

unfoldable pub to_private_hand_state : GameState → String → Option PrivateHandState
unfolding private_hand
to_private_hand_state s user = elim (find (λ (p : Player). is_user user p.user_id) s.players) [
  | none ↦ none
  | some p ↦ some (private_hand s p)
]

-- A text that is not empty.
abbrev pub has_user : Option String → Bool
has_user none = false
has_user (some String.[]) = false
has_user (some u) = true

unfoldable pub get_all_private_hand_states : GameState → List PrivateHandState
unfolding private_hand
get_all_private_hand_states s =
    map (private_hand s) (filter (λ (p : Player). has_user p.user_id) s.players)
