-- ===== src/Tests/Witnesses.antt =====
-- The theorems at concrete inputs: a hand between two players, its side pots and its deck.
use mathlib.Core.List.{Perm}
use allinle.Bot.Decision.{
  BotDecisionInput, late, decide_bot_action, sized, adjusted_strength, profile_for, value_raise,
  choose_raise_amount, clip, find_action,
}
use allinle.Bot.Strength.{preflop_strength, postflop_strength}
use allinle.Bot.Legal.{decide_bot_action-Accepted}
use allinle.PracticeRoom.{advanced}
use allinle.Tests.Runs.{thousandths}
use allinle.Prelude.{
  ℕ, if◌then◌else◌, ◌-◌, ◌==◌, Bool-cases, ◌≤◌, ◌≡◌, ◌≢◌, ◌↔◌, refl, true, false, List, [], ◌∷◌,
  ◌++◌, min, none, some, length, contains, sum_of, inl, inr, Result, ok, err, arith,
}
use allinle.Prelude.Int.{pos}
use allinle.Errors.{PokerError, out_of_fuel}
use allinle.Cards.{Card, ace, spades, hearts}
use allinle.Cards.Text.{
  parse_card, validate_card, card_codes, parse_card-card_codes, validate_card_iff,
}
use allinle.Deck.{create_deck, shuffle_deck, deal_cards, Dealt}
use allinle.Deck.Laws.{shuffle_deck-perm, deal_cards-splits}
use allinle.HandRank.{one_pair}
use allinle.Evaluator.{hand, compare_hands}
use allinle.Evaluator.Compare.{Agrees, compare_hands-Agrees}
use allinle.Types.{Player, active, folded, GameState, SidePot, Street}
use allinle.Pot.{PotPlayer, build_side_pots, allocate_pot, allocate_side_pots, winner_seats, lookup}
use allinle.Pot.Levels.{contender_top, sum_of-build_side_pots}
use allinle.Pot.Payouts.{paid_out, sum-allocate_pot, winner_seats_iff}
use allinle.Game.Seats.Players.{stakes}
use allinle.Game.Legal.{player_actions, check_or_call, bet_or_raise}
use allinle.Game.Bets.{ActionInput, Choice, missing, integer, apply_action_mutation}
use allinle.Game.Bets.Kept.{KeptBy, apply_action_mutation-Kept}
use allinle.Game.Bets.Accepts.{
  Accepted, Offers, type_of, MayAct, offered-Accepted, Accepted-offered,
}
use allinle.Game.Rounds.{ActionResult, apply_game_action}
use allinle.Game.Rounds.Payout.{sum-payouts}
use allinle.Game.Rounds.Conserve.{accounted, apply_game_action-accounted}
use allinle.Game.Rounds.Turns.{TurnIsDue, apply_game_action-TurnIsDue}
use allinle.Game.Rounds.Total.{apply_game_action-ends}
use allinle.Game.Rounds.Deals.{SameCards, apply_game_action-SameCards}
use allinle.Game.Start.Opening.{chips_brought, create_initial_game_state-accounted}
use allinle.Game.Views.{is_user, to_public_game_state, to_private_hand_state}
use allinle.Game.Views.Hidden.{redealt, to_public_game_state-redealt, to_private_hand_state-redealt}
use allinle.Tests.Runs.{start, two_players, no_hand, state_of}

abbrev opening : GameState
unfolding start two_players
opening = state_of (start two_players)

abbrev call_input : ActionInput
call_input = record { seat_no = 1; user_id = none; action_type = Choice.call; amount = missing }

abbrev result_of : Result PokerError ActionResult → ActionResult
result_of (ok r) = r
result_of (err e) = record {
  state = no_hand;
  applied_action = record {
    seat_no = 0;
    user_id = none;
    action_type = type_of Choice.fold;
    amount = 0;
    street = no_hand.street;
    created_at = "";
  };
  events = [];
}

abbrev called : ActionResult
unfolding start two_players
called = result_of (apply_game_action opening call_input "now")

apply_game_action-accounted_example : accounted called.state ≡ stakes opening.players
unfolding start two_players
apply_game_action-accounted_example =
    apply_game_action-accounted opening call_input "now" called (refl, (refl, tt)) refl

apply_game_action-ends_example : apply_game_action opening call_input "now" ≢ err out_of_fuel
unfolding start two_players
apply_game_action-ends_example = apply_game_action-ends opening call_input "now" (λ e. cc)

abbrev ace_card : Card
ace_card = record { rank = ace; suit = spades }

abbrev pub empty_player : Player
empty_player = record {
  user_id = none;
  seat_no = 0;
  nickname = "";
  is_bot = false;
  bot_level = none;
  hole_cards = [];
  chips = 0;
  start_hand_chips = 0;
  invested_this_hand = 0;
  invested_this_street = 0;
  status = folded;
  has_acted_this_street = false;
}

abbrev first_player : Player
unfolding start two_players
first_player = player_of opening.players
  where
    player_of : List Player → Player
    player_of (p ∷ _) = p
    player_of [] = empty_player

apply_action_mutation-Kept_example :
    KeptBy opening (apply_action_mutation opening first_player call_input "now")
unfolding start two_players
apply_action_mutation-Kept_example =
    apply_action_mutation-Kept opening first_player "now" refl call_input

abbrev first_may_act : MayAct opening first_player
unfolding start two_players
first_may_act = record {
  found = refl;
  has_chips = omega arith;
  within_bet = omega arith;
  blind_positive = omega arith;
  raise_positive = omega arith;
}

offered-Accepted_example : Accepted (
    apply_action_mutation opening first_player
      (record {
        seat_no = first_player.seat_no;
        user_id = none;
        action_type = Choice.raise;
        amount = integer (pos 300);
      })
      "now")
unfolding start two_players player_actions
offered-Accepted_example =
    offered-Accepted opening first_player "now" first_may_act Choice.raise 300 none
      (inr (inr (inr (inl (refl, (omega arith, omega arith))))))

Accepted-offered_example :
    (n : ℕ) × Offers (player_actions opening first_player) (type_of Choice.call) n
unfolding start two_players
Accepted-offered_example = Accepted-offered opening first_player "now" Choice.call missing none tt

-- A contender with 50, one with 80, and a folded player with 100.
abbrev three_stakes : List PotPlayer
three_stakes =
    record { seat_no = 1; invested_this_hand = 50; status = active }
    ∷ record { seat_no = 2; invested_this_hand = 80; status = active }
    ∷ record { seat_no = 3; invested_this_hand = 100; status = folded }
    ∷ []

abbrev three_ranks : List (ℕ × ℕ)
three_ranks = (1, 900) ∷ (2, 700) ∷ []

sum_of-build_side_pots_example :
    sum_of (λ p. p.amount) (build_side_pots three_stakes)
    ≡ sum_of (λ p. min p.invested_this_hand (contender_top three_stakes)) three_stakes
sum_of-build_side_pots_example = sum_of-build_side_pots three_stakes

two_ranked : (s : ℕ) → contains s (1 ∷ 2 ∷ []) ≡ true → (r : ℕ) × (lookup s three_ranks ≡ some r)
two_ranked s h = elim (Bool-cases (1 == s)) [
  | inl e ↦ (900, ground arith)
  | inr e ↦ (700, ground arith)
]

sum-payouts_example :
    sum_of (λ a. paid_out a.payouts) (allocate_side_pots (build_side_pots three_stakes) three_ranks)
    ≡ sum_of (λ p. min p.invested_this_hand (contender_top three_stakes)) three_stakes
sum-payouts_example = sum-payouts three_ranks three_stakes (refl, (refl, (refl, tt))) two_ranked

abbrev odd_pot : SidePot
odd_pot = record { amount = 101; eligible_seat_nos = 1 ∷ 2 ∷ [] }

sum-allocate_pot_example :
    paid_out (allocate_pot ((1, 900) ∷ (2, 900) ∷ []) odd_pot).payouts ≡ odd_pot.amount
sum-allocate_pot_example =
    sum-allocate_pot ((1, 900) ∷ (2, 900) ∷ []) odd_pot (refl, (refl, tt)) (λ e. cc)

winner_seats_iff_example : (contains 1 (winner_seats three_ranks (1 ∷ 2 ∷ [])) ≡ true) ↔ (
    (contains 1 (1 ∷ 2 ∷ []) ≡ true)
    × (r : ℕ) × (lookup 1 three_ranks ≡ some r)
    × ((t q : ℕ) → contains t (1 ∷ 2 ∷ []) ≡ true → lookup t three_ranks ≡ some q → q ≤ r))
winner_seats_iff_example = winner_seats_iff three_ranks (1 ∷ 2 ∷ []) 1

shuffle_deck-perm_example : Perm (shuffle_deck (λ i. i - 1) create_deck) create_deck
shuffle_deck-perm_example = shuffle_deck-perm (λ i. i - 1) create_deck

abbrev top_two : Dealt
unfolding create_deck
top_two = dealt (deal_cards create_deck 2)
  where
    dealt : Result PokerError Dealt → Dealt
    dealt (ok d) = d
    dealt (err e) = record { cards = []; deck = [] }

deal_cards-splits_example :
    (top_two.cards ++ top_two.deck ≡ create_deck) × (length top_two.cards ≡ 2)
unfolding create_deck deal_cards
deal_cards-splits_example = deal_cards-splits create_deck 2 top_two refl

parse_card-card_codes_example :
    parse_card (card_codes (record { rank = ace; suit = spades }))
    ≡ ok (record { rank = ace; suit = spades })
parse_card-card_codes_example = parse_card-card_codes (record { rank = ace; suit = spades })

validate_card_iff_example :
    (validate_card (b'A' ∷ b'S' ∷ []) ≡ true) ↔ ((c : Card) × (b'A' ∷ b'S' ∷ [] ≡ card_codes c))
validate_card_iff_example = validate_card_iff (b'A' ∷ b'S' ∷ [])

create_initial_game_state-accounted_example : accounted opening ≡ chips_brought two_players
unfolding start two_players
create_initial_game_state-accounted_example =
    create_initial_game_state-accounted two_players (λ i. 0) "now" opening (refl, (refl, tt)) refl

apply_game_action-SameCards_example : SameCards opening called.state
unfolding start two_players
apply_game_action-SameCards_example =
    apply_game_action-SameCards opening call_input "now" called refl

to_public_game_state-redealt_example :
    to_public_game_state (redealt opening [] (λ p. [])) ≡ to_public_game_state opening
to_public_game_state-redealt_example = to_public_game_state-redealt opening [] (λ p. [])

abbrev named_hand : GameState
named_hand = record no_hand {
  players =
      record empty_player { user_id = some "ann"; hole_cards = ace_card ∷ [] }
      ∷ record empty_player { user_id = some "bob"; seat_no = 1; hole_cards = ace_card ∷ [] }
      ∷ [];
}

-- Bob is dealt other cards, and Ann sees the same.
abbrev bob_redealt : Player → List Card
bob_redealt p = if is_user "ann" p.user_id then p.hole_cards else []

own_cards : (p : Player) → is_user "ann" p.user_id ≡ true → bob_redealt p ≡ p.hole_cards
own_cards p e = rw e

to_private_hand_state-redealt_example :
    to_private_hand_state (redealt named_hand [] bob_redealt) "ann"
    ≡ to_private_hand_state named_hand "ann"
to_private_hand_state-redealt_example =
    to_private_hand_state-redealt named_hand [] bob_redealt "ann" own_cards

-- A pair of nines against a pair of eights.
compare_hands-Agrees_example :
    Agrees
      (compare_hands
        (hand one_pair (9 ∷ 5 ∷ 4 ∷ 2 ∷ []) [])
        (hand one_pair (8 ∷ 14 ∷ 13 ∷ 12 ∷ []) []))
      (hand one_pair (9 ∷ 5 ∷ 4 ∷ 2 ∷ []) []).rank_value
      (hand one_pair (8 ∷ 14 ∷ 13 ∷ 12 ∷ []) []).rank_value
compare_hands-Agrees_example =
    compare_hands-Agrees one_pair one_pair (9 ∷ 5 ∷ 4 ∷ 2 ∷ []) (8 ∷ 14 ∷ 13 ∷ 12 ∷ []) [] []
      (omega arith) (omega arith) (omega arith, (omega arith, (omega arith, (omega arith, tt))))
      (omega arith, (omega arith, (omega arith, (omega arith, tt))))

apply_game_action-TurnIsDue_example : TurnIsDue called.state
unfolding start two_players
apply_game_action-TurnIsDue_example =
    apply_game_action-TurnIsDue opening call_input "now" called refl

abbrev bot_at_opening : BotDecisionInput ℕ
bot_at_opening = record {
  bot_level = advanced;
  first_card = ace_card;
  second_card = record { rank = ace; suit = hearts };
  board_cards = [];
  street = Street.preflop;
  pot = opening.pot;
  current_bet = opening.current_bet;
  invested_this_street = first_player.invested_this_street;
  chips = first_player.chips;
  min_raise = opening.min_raise;
  position_type = late;
  active_player_count = 2;
  legal_actions = player_actions opening first_player;
  random = λ i. 0;
}

-- A pair of aces raises.
bot_run : decide_bot_action bot_at_opening ≡ sized Choice.raise (pos 220)
unfolding start two_players player_actions check_or_call bet_or_raise decide_bot_action
    adjusted_strength preflop_strength postflop_strength profile_for value_raise choose_raise_amount
    clip find_action
bot_run = refl

decide_bot_action-Accepted_example : Accepted (
    apply_action_mutation opening first_player
      (record {
        seat_no = first_player.seat_no;
        user_id = none;
        action_type = (decide_bot_action bot_at_opening).action_type;
        amount = (decide_bot_action bot_at_opening).amount;
      })
      "now")
decide_bot_action-Accepted_example =
    decide_bot_action-Accepted opening first_player bot_at_opening "now" none first_may_act refl
