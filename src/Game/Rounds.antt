-- ===== src/Game/Rounds.antt =====
-- The course of a hand in state-machine.ts: the end of a betting round, the board, the showdown, and
-- an action from its guards to the next state.
pub mod Payout
pub mod Conserve
pub mod Ends
pub mod Total
pub mod Deals
pub mod Turns
use Prim.Native.String.{String}
use text.Mathlib.Text.{◌==◌ as str_eq}
use allinle.Prelude.{
  ℕ, zero, suc, ◌+◌, ◌-◌, Bool, true, false, ◌&&◌, ◌||◌, not, List, [], ◌∷◌, ◌++◌, map, Option,
  none, some, ltb, leb, ◌==◌, if◌then◌else◌, length, filter, every, find, Result, ok, err, throw_if,
  ◌>>=◌, ◌>>◌, map_result, or_throw,
}
use allinle.Errors.{
  PokerError, hand_not_playable, not_your_turn, identity_mismatch, player_cannot_act, out_of_fuel,
}
use allinle.Cards.{Card}
use allinle.Deck.{deal_cards}
use allinle.Evaluator.{EvaluatedHand, evaluate_seven_cards}
use allinle.Types.{
  Player, GameState, GameAction, PlayerStatus, Street, preflop, flop, turn, river, showdown,
  hand_finished, WinnerInfo, PotWinner, PotResult, PotAllocation, all_others_folded, by_showdown,
  is_active, is_playing,
}
use allinle.Pot.{PotPlayer, build_side_pots, allocate_side_pots}
use allinle.Pot
use allinle.Game.Seats.{
  find_player, update_player, total_invested, is_contender, can_act, first_actionable_seat_after,
}
use allinle.Game.Legal.{is_turn}
use allinle.Game.Bets.{ActionInput, apply_action_mutation, refresh_pot, put_player}

pub data Event : Type 0 where
  action_applied street_changed game_over : Event

-- `pushOnce` for the events; each is pushed at its own place in the order.
abbrev pub event_eq : Event → Event → Bool
event_eq action_applied action_applied = true
event_eq street_changed street_changed = true
event_eq game_over game_over = true
event_eq _ _ = false

abbrev pub has_event : Event → List Event → Bool
has_event e [] = false
has_event e (x ∷ xs) = event_eq x e || has_event e xs

unfoldable pub push_once : Event → List Event → List Event
push_once e events = if has_event e events then events else events ++ e ∷ []

abbrev pub give : ℕ → Player → Player
give amount p = record p { chips = p.chips + amount }

unfoldable pub finish_by_fold : GameState → Player → GameState
finish_by_fold state winner = record state {
  players = update_player winner.seat_no (give state.pot) state.players;
  status = hand_finished;
  street = showdown;
  current_bet = 0;
  current_turn_seat = none;
  winner_info = some (record {
    reason = all_others_folded;
    board_cards = state.board_cards;
    total_pot = state.pot;
    pots =
        record {
          amount = state.pot;
          eligible_seat_nos = winner.seat_no ∷ [];
          winners =
              record {
                seat_no = winner.seat_no;
                user_id = winner.user_id;
                amount_won = state.pot;
                rank_category = none;
                best_five_cards = none;
                description = none;
              }
              ∷ [];
        }
        ∷ [];
  });
}

-- The rounds of `while (boardCards.length < 5)`.
unfoldable pub deal_board : ℕ → GameState → Result PokerError GameState
deal_board zero state = ok state
deal_board (suc n) state = deal_cards state.deck 1 >>= λ d.
    deal_board n (record state { deck = d.deck; board_cards = state.board_cards ++ d.cards })

unfoldable pub deal_board_to_five : GameState → Result PokerError GameState
deal_board_to_five state = deal_board (5 - length state.board_cards) state

abbrev pub pot_player : Player → PotPlayer
pot_player p = record {
  seat_no = p.seat_no;
  invested_this_hand = p.invested_this_hand;
  status = p.status;
}

unfoldable pub evaluate_player : List Card → Player → Result PokerError (ℕ × EvaluatedHand)
evaluate_player board p = do h ← evaluate_seven_cards (p.hole_cards ++ board); ok (p.seat_no, h)

-- `findPlayer(state, seat).chips += amount` for each payout.
unfoldable pub pay_players : List (ℕ × ℕ) → List Player → Result PokerError (List Player)
pay_players [] players = ok players
pay_players ((seat, amount) ∷ payouts) players =
    find_player players seat >>= λ _. pay_players payouts (update_player seat (give amount) players)

unfoldable pub pay_allocations : List PotAllocation → List Player → Result PokerError (List Player)
pay_allocations [] players = ok players
pay_allocations (a ∷ as') players =
    pay_players a.payouts players >>= λ paid. pay_allocations as' paid

abbrev pub hand_of : ℕ → List (ℕ × EvaluatedHand) → Option EvaluatedHand
hand_of seat [] = none
hand_of seat ((s, h) ∷ hs) = if s == seat then some h else hand_of seat hs

abbrev pub map_option {ℓ κ} : {A : Type ℓ} {B : Type κ} → (A → B) → Option A → Option B
map_option f none = none
map_option f (some a) = some (f a)

-- Every winner has a payout, so the lookup finds one.
unfoldable pub winner_row :
    List Player → List (ℕ × EvaluatedHand) → PotAllocation → ℕ → Result PokerError PotWinner
winner_row players hands a seat = do
  w ← find_player players seat
  let h = hand_of seat hands
  ok (record {
    seat_no = seat;
    user_id = w.user_id;
    amount_won = elim (Pot.lookup seat a.payouts) [ none ↦ 0 | some n ↦ n ];
    rank_category = map_option (λ x. x.rank_category) h;
    best_five_cards = map_option (λ x. x.best_five_cards) h;
    description = map_option (λ x. x.description) h;
  })

unfoldable pub pot_row :
    List Player → List (ℕ × EvaluatedHand) → PotAllocation → Result PokerError PotResult
pot_row players hands a = do
  winners ← map_result (winner_row players hands a) a.winner_seat_nos
  ok (record {
    amount = a.pot.amount;
    eligible_seat_nos = a.pot.eligible_seat_nos;
    winners = winners;
  })

unfoldable pub settle : GameState → List (ℕ × EvaluatedHand) → Result PokerError GameState
settle state hands = do
  let pots = build_side_pots (map pot_player state.players)
  let ranks : List (ℕ × ℕ) = map (λ h. (h.0, h.1.rank_value)) hands
  let allocations = allocate_side_pots pots ranks
  players ← pay_allocations allocations state.players
  rows ← map_result (pot_row players hands) allocations
  ok (record state {
    players = players;
    status = hand_finished;
    street = showdown;
    current_bet = 0;
    current_turn_seat = none;
    winner_info = some (record {
      reason = by_showdown;
      board_cards = state.board_cards;
      total_pot = state.pot;
      pots = rows;
    });
  })

unfoldable pub finish_by_showdown : GameState → Result PokerError GameState
finish_by_showdown before = do
  state ← deal_board_to_five before
  hands ← map_result (evaluate_player state.board_cards) (filter is_contender state.players)
  settle state hands

abbrev pub street_cards : Street → ℕ
street_cards preflop = 3
street_cards flop = 1
street_cards turn = 1
street_cards river = 0
street_cards showdown = 0

abbrev pub next_street : Street → Street
next_street preflop = flop
next_street flop = turn
next_street turn = river
next_street river = showdown
next_street showdown = showdown

abbrev pub is_river : Street → Bool
is_river river = true
is_river _ = false

abbrev pub new_street : Player → Player
new_street p = record p { invested_this_street = 0; has_acted_this_street = false }

unfoldable pub advance_street : GameState → Result PokerError GameState
advance_street state = do
  dealt ← deal_cards state.deck (street_cards state.street)
  let moved : GameState = record state {
    deck = dealt.deck;
    board_cards = state.board_cards ++ dealt.cards;
    street = next_street state.street;
    current_bet = 0;
    min_raise = state.big_blind;
    last_aggressor_seat = none;
    players = map new_street state.players;
  }
  seat ← first_actionable_seat_after moved moved.dealer_seat
  ok (record moved { current_turn_seat = seat })

unfoldable pub is_betting_round_complete : GameState → Bool
is_betting_round_complete state =
    every (λ (p : Player). p.has_acted_this_street && (p.invested_this_street == state.current_bet))
      (filter can_act state.players)

abbrev pub is_all_in : PlayerStatus → Bool
is_all_in PlayerStatus.all_in = true
is_all_in _ = false

abbrev pub no_more_bets : Player → Bool
no_more_bets p = is_all_in p.status || (p.chips == 0)

abbrev pub Progress : Type 0
Progress = Result PokerError (GameState × List Event)

-- What is done with the contenders counted: a fold-out, a run-out of the board, a finished round, or
-- the next player to act.
unfoldable pub close_round :
    (GameState → List Event → Progress) → GameState → ℕ → List Event → Progress
close_round again state from_seat events =
    if is_betting_round_complete state
    then (if is_river state.street
        then (finish_by_showdown state >>= λ done. ok (done, push_once game_over events))
        else (advance_street state >>= λ next. elim next.current_turn_seat [
          | none ↦ again next (push_once street_changed events)
          | some _ ↦ ok (next, push_once street_changed events)
        ]))
    else (first_actionable_seat_after state from_seat >>= λ seat.
        ok (record state { current_turn_seat = seat }, events))

unfoldable pub run_out : GameState → List Event → Progress
run_out state events = do
  dealt ← deal_board_to_five state
  done ← finish_by_showdown dealt
  ok (done, push_once game_over (push_once street_changed events))

unfoldable pub normalize_with :
    (GameState → List Event → Progress) → GameState → ℕ → List Event → Progress
normalize_with again before from_seat events =
    let state = refresh_pot before in
    elim (filter is_contender state.players) [
      | [] ↦ close_round again state from_seat events
      | w ∷ [] ↦ ok (finish_by_fold state w, push_once game_over events)
      | w ∷ v ∷ ws ↦
          if every no_more_bets (w ∷ v ∷ ws)
          then run_out state events
          else close_round again state from_seat events
    ]

-- `normalizeAfterAction`, which calls itself after a street on which nobody is to act.
unfoldable pub normalize_after_action : ℕ → GameState → ℕ → List Event → Progress
normalize_after_action zero state from_seat events = err out_of_fuel
normalize_after_action (suc fuel) state from_seat events =
    normalize_with (λ s es. normalize_after_action fuel s from_seat es) state from_seat events

pub record ActionResult : Type 0 where
  pub state : GameState
  pub applied_action : GameAction
  pub events : List Event

-- An empty text counts as absent.
abbrev pub text_differs : String → String → Bool
text_differs String.[] b = false
text_differs a String.[] = false
text_differs a b = not (str_eq a b)

abbrev pub users_differ : Option String → Option String → Bool
users_differ (some a) (some b) = text_differs a b
users_differ _ _ = false

-- The fuel of a hand: a recursion for each street that is left, and one more.
abbrev pub street_fuel : ℕ
street_fuel = 5

unfoldable pub apply_game_action : GameState → ActionInput → String → Result PokerError ActionResult
apply_game_action state input now = do
  p ← find_player state.players input.seat_no
  throw_if (not (is_playing state.status)) hand_not_playable
  throw_if (not (is_turn state.current_turn_seat input.seat_no)) not_your_turn
  throw_if (users_differ p.user_id input.user_id) identity_mismatch
  throw_if (not (can_act p)) player_cannot_act
  done ← apply_action_mutation state p input now
  let changed : GameState = record (done.0) {
    action_history = done.0.action_history ++ done.1 ∷ [];
    updated_at = now;
  }
  final ← normalize_after_action street_fuel changed input.seat_no (action_applied ∷ [])
  ok (record { state = final.0; applied_action = done.1; events = final.1 })
