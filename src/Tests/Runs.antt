-- ===== src/Tests/Runs.antt =====
-- Runs of the engine on a few inputs: a royal flush, a wheel and a start of two players as in the tests
-- of packages/shared/src/poker, and hands of our own.
use allinle.Bot.{Double}
use allinle.Prelude.{
  ◌+◌, ◌-◌, ◌*◌, ◌/◌, min, max, ltb, sort_by, ℕ, ◌≡◌, refl, false, List, [], ◌∷◌, Option, none,
  some, length, Result, ok, err, ◌>>=◌, sum_of,
}
use allinle.Prelude.Int.{pos}
use allinle.Errors.{PokerError}
use allinle.Cards.{
  Card, Rank, Suit, spades, hearts, diamonds, clubs, two, three, four, five, nine, ten, jack, queen,
  king, ace,
}
use allinle.Deck.{create_deck, shuffle_deck, deal_cards}
use allinle.HandRank.{HandRankCategory, royal_flush, straight}
use allinle.Evaluator.{
  EvaluatedHand, hand, encode_rank, sort_straight_cards, cards_for_ranks, four_hand, pair_hand,
  lower_hand, group_ranks, get_straight_high, evaluate_five_cards, combinations, compare_hands,
  evaluate_seven_cards,
}
use allinle.Types.{Street, GameState, GameStatus, hand_finished, flop}
use allinle.Pot.{build_side_pots, allocate_side_pots}
use allinle.Game.Bets.{
  normalize_positive_amount, make_action, invested, invest_chips, put_player, clear_acted,
  mark_full_aggression, refresh_pot, apply_fold, apply_check, apply_call, apply_bet,
  settle_aggression, apply_raise, apply_all_in, apply_action_mutation, Choice, Amount, missing,
  integer,
}
use allinle.Game.Rounds.{
  push_once, finish_by_fold, deal_board, deal_board_to_five, evaluate_player, pay_players,
  pay_allocations, winner_row, pot_row, settle, finish_by_showdown, advance_street,
  is_betting_round_complete, close_round, run_out, normalize_with, normalize_after_action,
  apply_game_action,
}
use allinle.Game.Start.{
  PlayerInput, GameInput, seat_player, deal_round, post_blind, seats_in_play, deal_hand,
  create_initial_game_state,
}
use allinle.Game.Seats.{
  find_player, update_player, total_invested, first_actionable_seat_after, resolve_blind_seats,
  normalize_dealer_seat,
}

abbrev pub card : Rank → Suit → Card
card r s = record { rank = r; suit = s }

abbrev pub royal_cards : List Card
royal_cards =
    card ace spades
    ∷ card king spades
    ∷ card queen spades
    ∷ card jack spades
    ∷ card ten spades
    ∷ card two clubs
    ∷ card three diamonds
    ∷ []

abbrev pub wheel_cards : List Card
wheel_cards =
    card ace spades
    ∷ card two diamonds
    ∷ card three clubs
    ∷ card four hearts
    ∷ card five spades
    ∷ card king diamonds
    ∷ card nine clubs
    ∷ []

abbrev pub value_of : EvaluatedHand → HandRankCategory × List ℕ
value_of h = (h.rank_category, h.tiebreakers)

abbrev pub opening_of : GameState → ℕ × ℕ × Option ℕ × ℕ
opening_of s = (s.small_blind_seat, s.big_blind_seat, s.current_turn_seat, s.pot)

abbrev pub board_of : GameState → Street × ℕ × Option ℕ
board_of s = (s.street, length s.board_cards, s.current_turn_seat)

abbrev pub chips_of : GameState → GameStatus × ℕ × ℕ
chips_of s = (s.status, s.pot, sum_of (λ p. p.chips) s.players)

royal_run : (evaluate_seven_cards royal_cards >>= λ h. ok h.rank_category) ≡ ok royal_flush
unfolding hand encode_rank sort_straight_cards cards_for_ranks four_hand pair_hand lower_hand
    group_ranks get_straight_high evaluate_five_cards combinations compare_hands
    evaluate_seven_cards sort_by
royal_run = refl

wheel_run : (evaluate_seven_cards wheel_cards >>= λ h. ok (value_of h)) ≡ ok (straight, 5 ∷ [])
unfolding hand encode_rank sort_straight_cards cards_for_ranks four_hand pair_hand lower_hand
    group_ranks get_straight_high evaluate_five_cards combinations compare_hands
    evaluate_seven_cards sort_by
wheel_run = refl

abbrev pub seat_input : ℕ → ℕ → PlayerInput
seat_input seat chips = record {
  user_id = none;
  seat_no = seat;
  nickname = none;
  is_bot = false;
  bot_level = none;
  chips = chips;
}

unfoldable pub two_players : GameInput
unfolding create_deck
two_players = record {
  room_id = "room";
  room_code = "ABC123";
  hand_id = "hand";
  hand_no = 1;
  small_blind = 50;
  big_blind = 100;
  players = seat_input 1 1000 ∷ seat_input 2 1000 ∷ [];
  dealer_seat = some 1;
  deck = some create_deck;
}

unfoldable pub act : ℕ → Choice → Amount → GameState → Result PokerError GameState
unfolding normalize_positive_amount make_action invested invest_chips put_player clear_acted
    mark_full_aggression refresh_pot apply_fold apply_check apply_call apply_bet settle_aggression
    apply_raise apply_all_in apply_action_mutation push_once finish_by_fold deal_board
    deal_board_to_five evaluate_player pay_players pay_allocations winner_row pot_row settle
    finish_by_showdown advance_street is_betting_round_complete close_round run_out normalize_with
    normalize_after_action apply_game_action find_player update_player total_invested
    first_actionable_seat_after deal_cards hand encode_rank sort_straight_cards cards_for_ranks
    four_hand pair_hand lower_hand group_ranks get_straight_high evaluate_five_cards combinations
    compare_hands evaluate_seven_cards build_side_pots allocate_side_pots sort_by
act seat c a s =
    apply_game_action s (record { seat_no = seat; user_id = none; action_type = c; amount = a })
      "now"
    >>= λ r. ok r.state

unfoldable pub start : GameInput → Result PokerError GameState
unfolding act seat_player deal_round post_blind seats_in_play deal_hand create_initial_game_state
    resolve_blind_seats normalize_dealer_seat create_deck shuffle_deck sort_by
start input = create_initial_game_state input (λ i. 0) "now"

abbrev pub no_hand : GameState
no_hand = record {
  room_id = "";
  room_code = "";
  hand_id = "";
  hand_no = 0;
  status = hand_finished;
  street = Street.showdown;
  deck = [];
  board_cards = [];
  pot = 0;
  current_bet = 0;
  min_raise = 0;
  dealer_seat = 0;
  small_blind_seat = 0;
  big_blind_seat = 0;
  small_blind = 0;
  big_blind = 0;
  current_turn_seat = none;
  last_aggressor_seat = none;
  players = [];
  action_history = [];
  winner_info = none;
  created_at = "";
  updated_at = "";
}

abbrev pub state_of : Result PokerError GameState → GameState
state_of (ok s) = s
state_of (err e) = no_hand

heads_up_run : (start two_players >>= λ s. ok (opening_of s)) ≡ ok (1, 2, some 1, 150)
unfolding start two_players
heads_up_run = refl

flop_run :
    (start two_players >>= act 1 Choice.call missing >>= act 2 Choice.check missing >>= λ s.
    ok (board_of s))
    ≡ ok (flop, 3, some 2)
unfolding start two_players
flop_run = refl

-- Three players: seat 1 raises to 100, the others go all in for 50 and 40, and seat 1 folds when the
-- flop asks it to act.
unfoldable pub three_players : GameInput
unfolding create_deck
three_players = record {
  room_id = "room";
  room_code = "ABC123";
  hand_id = "hand";
  hand_no = 1;
  small_blind = 5;
  big_blind = 10;
  players = seat_input 1 1000 ∷ seat_input 2 50 ∷ seat_input 3 40 ∷ [];
  dealer_seat = some 1;
  deck = some create_deck;
}

lost_chips_run :
    (start three_players
      >>= act 1 Choice.raise (integer (pos 100))
      >>= act 2 Choice.all_in missing
      >>= act 3 Choice.all_in missing
      >>= act 1 Choice.fold missing
      >>= λ s. ok (chips_of s))
    ≡ ok (hand_finished, 190, 1040)
unfolding start three_players
lost_chips_run = refl

-- Numbers in thousandths, cut off at 0.
instance abbrev pub thousandths : Double ℕ
thousandths = record {
  of = λ n. n * 1000;
  over = λ n e. n * 1000 / e;
  plus = λ a b. a + b;
  minus = λ a b. a - b;
  times = λ a b. a * b / 1000;
  divided = λ a b. a * 1000 / b;
  greatest = max;
  least = min;
  less = ltb;
  round = λ a. pos ((a + 500) / 1000);
}
