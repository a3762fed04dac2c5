-- ===== src/Types.antt =====
-- packages/shared/src/poker/poker-types.ts: the records of a hand in play.
use Prim.Native.String.{String}
use allinle.Prelude.{ℕ, Bool, true, false, List, Option}
use allinle.Cards.{Card}
use allinle.HandRank.{HandRankCategory}

pub data Street : Type 0 where
  preflop flop turn river showdown : Street

pub data GameStatus : Type 0 where
  playing hand_finished room_finished : GameStatus

pub data PlayerStatus : Type 0 where
  active folded all_in out sitting_out : PlayerStatus

pub data ActionType : Type 0 where
  fold check call bet raise all_in small_blind big_blind deal showdown win : ActionType

pub record GameAction : Type 0 where
  pub seat_no : ℕ
  pub user_id : Option String
  pub action_type : ActionType
  pub amount : ℕ
  pub street : Street
  pub created_at : String

pub record Player : Type 0 where
  pub user_id : Option String
  pub seat_no : ℕ
  pub nickname : String
  pub is_bot : Bool
  pub bot_level : Option String
  pub hole_cards : List Card
  pub chips : ℕ
  pub start_hand_chips : ℕ
  pub invested_this_hand : ℕ
  pub invested_this_street : ℕ
  pub status : PlayerStatus
  pub has_acted_this_street : Bool

pub record SidePot : Type 0 where
  pub amount : ℕ
  pub eligible_seat_nos : List ℕ

-- `payouts` is an object keyed by seats, in insertion order.
pub record PotAllocation : Type 0 where
  pub pot : SidePot
  pub winner_seat_nos : List ℕ
  pub payouts : List (ℕ × ℕ)

pub data WinReason : Type 0 where
  all_others_folded by_showdown : WinReason

pub record PotWinner : Type 0 where
  pub seat_no : ℕ
  pub user_id : Option String
  pub amount_won : ℕ
  pub rank_category : Option HandRankCategory
  pub best_five_cards : Option (List Card)
  pub description : Option String

pub record PotResult : Type 0 where
  pub amount : ℕ
  pub eligible_seat_nos : List ℕ
  pub winners : List PotWinner

pub record WinnerInfo : Type 0 where
  pub reason : WinReason
  pub board_cards : List Card
  pub total_pot : ℕ
  pub pots : List PotResult

pub record GameState : Type 0 where
  pub room_id : String
  pub room_code : String
  pub hand_id : String
  pub hand_no : ℕ
  pub status : GameStatus
  pub street : Street
  pub deck : List Card
  pub board_cards : List Card
  pub pot : ℕ
  pub current_bet : ℕ
  pub min_raise : ℕ
  pub dealer_seat : ℕ
  pub small_blind_seat : ℕ
  pub big_blind_seat : ℕ
  pub small_blind : ℕ
  pub big_blind : ℕ
  pub current_turn_seat : Option ℕ
  pub last_aggressor_seat : Option ℕ
  pub players : List Player
  pub action_history : List GameAction
  pub winner_info : Option WinnerInfo
  pub created_at : String
  pub updated_at : String

abbrev pub is_playing : GameStatus → Bool
is_playing playing = true
is_playing _ = false

abbrev pub is_active : PlayerStatus → Bool
is_active active = true
is_active _ = false

abbrev pub is_out : PlayerStatus → Bool
is_out out = true
is_out _ = false

-- A status with which a player takes part in the showdown.
abbrev pub is_contender_status : PlayerStatus → Bool
is_contender_status active = true
is_contender_status PlayerStatus.all_in = true
is_contender_status folded = false
is_contender_status out = false
is_contender_status sitting_out = false
