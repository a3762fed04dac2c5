-- ===== src/PracticeGame/Hands/Results.antt =====
-- The rows of a hand's players: `handPlayerResult`, `finalStatus`, and what is written when a hand starts or
-- its room ends.
use Prim.Native.String.{String}
use text.Mathlib.Text.{◌==◌ as str_eq}
use allinle.Prelude.{
  Bool, true, false, ◌&&◌, not, List, [], ◌++◌, map, flat_map, Option, none, some, contains, ◌==◌,
  if◌then◌else◌, length, Result, ok, ◌>>=◌,
}
use allinle.Prelude.Int.{ℤ, pos, ◌-ℤ◌, ltb_ℤ}
use allinle.Cards.{Card}
use allinle.Types.{Player, GameState, PlayerStatus, by_showdown, WinnerInfo, PotResult, PotWinner}
use allinle.Evaluator.{EvaluatedHand, evaluate_seven_cards}
use allinle.PracticeRoom.{BotLevel, beginner, advanced}
use allinle.PracticeGame.{
  HandPlayer, FinalStatus, winner, lost, room_ended, still, GameError, engine_error, from_engine,
}

unfoldable pub to_bot_level : Option String → Option BotLevel
to_bot_level none = none
to_bot_level (some level) =
    if str_eq level "BEGINNER"
    then some beginner
    else if str_eq level "NORMAL"
    then some BotLevel.normal
    else if str_eq level "ADVANCED"
    then some advanced
    else none

abbrev pub level_text : BotLevel → String
level_text beginner = "BEGINNER"
level_text BotLevel.normal = "NORMAL"
level_text advanced = "ADVANCED"

abbrev pub level_texts : Option BotLevel → Option String
level_texts none = none
level_texts (some level) = some (level_text level)

-- A text that is empty counts as absent.
abbrev pub text_or_none : Option String → Option String
text_or_none none = none
text_or_none (some String.[]) = none
text_or_none (some t) = some t

abbrev pub pots_of : Option WinnerInfo → List PotResult
pots_of none = []
pots_of (some w) = w.pots

abbrev pub has_folded : PlayerStatus → Bool
has_folded PlayerStatus.folded = true
has_folded _ = false

abbrev pub is_all_in : PlayerStatus → Bool
is_all_in PlayerStatus.all_in = true
is_all_in _ = false

abbrev pub net : Player → ℤ
net p = pos p.chips -ℤ pos p.start_hand_chips

unfoldable pub final_status : Player → GameState → FinalStatus
unfolding flat_map
final_status p state =
    if contains p.seat_no (
      flat_map (λ (pot : PotResult). map (λ (w : PotWinner). w.seat_no) pot.winners)
        (pots_of state.winner_info))
    then winner
    else if has_folded p.status
    then still PlayerStatus.folded
    else if is_all_in p.status && p.chips == 0
    then still PlayerStatus.all_in
    else if ltb_ℤ (net p) (pos 0)
    then lost
    else still p.status

abbrev pub is_by_showdown : Option WinnerInfo → Bool
is_by_showdown none = false
is_by_showdown (some w) = elim w.reason [ by_showdown ↦ true | _ ↦ false ]

-- The best hand of a player who shows it, if the cards are complete.
unfoldable pub shown_hand : Bool → Player → GameState → Result GameError (Option EvaluatedHand)
shown_hand showdown p state =
    if showdown && (length state.board_cards == 5) && (length p.hole_cards == 2)
    then (from_engine engine_error (evaluate_seven_cards (p.hole_cards ++ state.board_cards))
        >>= λ h. ok (some h))
    else ok none

abbrev pub best_cards : Option EvaluatedHand → List Card
best_cards none = []
best_cards (some h) = h.best_five_cards

-- The row of a player when the hand is finished.
unfoldable pub hand_player_result : Player → GameState → Result GameError HandPlayer
hand_player_result p state =
    let showdown = is_by_showdown state.winner_info && not (has_folded p.status) in
    shown_hand showdown p state >>= λ evaluated. ok (record {
      user_id = text_or_none p.user_id;
      seat_no = p.seat_no;
      nickname = some p.nickname;
      is_bot = p.is_bot;
      bot_level = to_bot_level p.bot_level;
      hole_cards = p.hole_cards;
      start_chips = p.start_hand_chips;
      end_chips = some p.chips;
      invested = p.invested_this_hand;
      net_result = some (net p);
      final_status = final_status p state;
      showdown = showdown;
      hand_rank_category = elim evaluated [ none ↦ none | some h ↦ some h.rank_category ];
      hand_rank_description = elim evaluated [
        | none ↦ none
        | some h ↦ text_or_none (some h.description)
      ];
      best_five_cards = best_cards evaluated;
    })

-- The row of a player when the room ends in the middle of a hand.
unfoldable pub hand_player_aborted : Player → HandPlayer
unfolding to_bot_level
hand_player_aborted p = record {
  user_id = text_or_none p.user_id;
  seat_no = p.seat_no;
  nickname = some p.nickname;
  is_bot = p.is_bot;
  bot_level = to_bot_level p.bot_level;
  hole_cards = p.hole_cards;
  start_chips = p.start_hand_chips;
  end_chips = some p.chips;
  invested = p.invested_this_hand;
  net_result = some (net p);
  final_status = room_ended;
  showdown = false;
  hand_rank_category = none;
  hand_rank_description = none;
  best_five_cards = [];
}

-- The row of a player when the hand starts.
abbrev pub hand_player_dealt : Player → HandPlayer
hand_player_dealt p = record {
  user_id = text_or_none p.user_id;
  seat_no = p.seat_no;
  nickname = some p.nickname;
  is_bot = p.is_bot;
  bot_level = to_bot_level p.bot_level;
  hole_cards = p.hole_cards;
  start_chips = p.start_hand_chips;
  end_chips = none;
  invested = 0;
  net_result = none;
  final_status = still p.status;
  showdown = false;
  hand_rank_category = none;
  hand_rank_description = none;
  best_five_cards = [];
}
