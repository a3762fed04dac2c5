-- ===== src/Game/Start.antt =====
-- `createInitialGameState` of state-machine.ts: the seats, the deal, the blinds, and the first turn.
-- The clock is the argument `now`, and the shuffle's random numbers are the argument `draw`.
pub mod Opening
use Prim.Native.String.{String}
use allinle.Prelude.{
  ℕ, min, max, Bool, false, List, [], ◌∷◌, ◌++◌, map, Option, none, some, ltb, leb, if◌then◌else◌,
  length, filter, get_or, sort_by, Result, ok, throw_if, ◌>>=◌, ◌>>◌,
}
use allinle.Errors.{PokerError, too_few_players}
use allinle.Cards.{Card}
use allinle.Deck.{create_deck, shuffle_deck, deal_cards}
use allinle.Types.{Player, GameState, ActionType, preflop, playing, active, out, is_out}
use allinle.Game.Seats.{
  resolve_blind_seats, normalize_dealer_seat, find_player, total_invested,
  first_actionable_seat_after,
}
use allinle.Game.Bets.{invest_chips, make_action, put_player}
use allinle.Game.Rounds.{normalize_after_action, street_fuel}

pub record PlayerInput : Type 0 where
  pub user_id : Option String
  pub seat_no : ℕ
  pub nickname : Option String
  pub is_bot : Bool
  pub bot_level : Option String
  pub chips : ℕ

pub record GameInput : Type 0 where
  pub room_id : String
  pub room_code : String
  pub hand_id : String
  pub hand_no : ℕ
  pub small_blind : ℕ
  pub big_blind : ℕ
  pub players : List PlayerInput
  pub dealer_seat : Option ℕ
  pub deck : Option (List Card)

-- `nickname || name`
abbrev pub name_or : Option String → String → String
name_or none d = d
name_or (some String.[]) d = d
name_or (some s) d = s

abbrev pub by_seat : PlayerInput → PlayerInput → Bool
by_seat a b = leb a.seat_no b.seat_no

unfoldable pub seat_player : PlayerInput → Player
seat_player p = record {
  user_id = p.user_id;
  seat_no = p.seat_no;
  nickname = name_or p.nickname (if p.is_bot then "机器人" else "成员");
  is_bot = p.is_bot;
  bot_level = p.bot_level;
  hole_cards = [];
  chips = p.chips;
  start_hand_chips = p.chips;
  invested_this_hand = 0;
  invested_this_street = 0;
  status = if ltb 0 p.chips then active else out;
  has_acted_this_street = false;
}

pub record Deal : Type 0 where
  pub players : List Player
  pub deck : List Card

-- One card to each player who is in the hand.
unfoldable pub deal_round : List Player → List Card → Result PokerError Deal
deal_round [] deck = ok (record { players = []; deck = deck })
deal_round (p ∷ ps) deck =
    if is_out p.status
    then (deal_round ps deck >>= λ d. ok (record { players = p ∷ d.players; deck = d.deck }))
    else (deal_cards deck 1 >>= λ top. deal_round ps top.deck >>= λ d. ok (record {
      players = record p { hole_cards = p.hole_cards ++ top.cards } ∷ d.players;
      deck = d.deck;
    }))

unfoldable pub post_blind : GameState → ℕ → ℕ → ActionType → String → Result PokerError GameState
post_blind state seat blind type now = do
  p ← find_player state.players seat
  let posted = min p.chips blind
  p' ← invest_chips p posted
  ok (record (put_player state p') {
    action_history = state.action_history ++ make_action p' type posted preflop now ∷ [];
  })

abbrev pub highest_bet : List Player → ℕ
highest_bet [] = 0
highest_bet (p ∷ ps) = max p.invested_this_street (highest_bet ps)

unfoldable pub seats_in_play : GameInput → List ℕ
unfolding sort_by
seats_in_play input =
    map (λ p. p.seat_no)
      (sort_by by_seat (filter (λ (p : PlayerInput). ltb 0 p.chips) input.players))

-- The state before the blinds.
unfoldable pub deal_hand : GameInput → (ℕ → ℕ) → String → Result PokerError GameState
deal_hand input draw now = do
  let seats = seats_in_play input
  throw_if (ltb (length seats) 2) too_few_players
  let dealer =
      normalize_dealer_seat (elim input.dealer_seat [ none ↦ get_or seats 0 0 | some d ↦ d ]) seats
  blinds ← resolve_blind_seats seats dealer
  let deck : List Card = elim input.deck [ none ↦ shuffle_deck draw create_deck | some d ↦ d ]
  first ← deal_round (map seat_player (sort_by by_seat input.players)) deck
  second ← deal_round first.players first.deck
  ok (record {
    room_id = input.room_id;
    room_code = input.room_code;
    hand_id = input.hand_id;
    hand_no = input.hand_no;
    status = playing;
    street = preflop;
    deck = second.deck;
    board_cards = [];
    pot = 0;
    current_bet = 0;
    min_raise = input.big_blind;
    dealer_seat = dealer;
    small_blind_seat = blinds.small_blind_seat;
    big_blind_seat = blinds.big_blind_seat;
    small_blind = input.small_blind;
    big_blind = input.big_blind;
    current_turn_seat = none;
    last_aggressor_seat = some blinds.big_blind_seat;
    players = second.players;
    action_history = [];
    winner_info = none;
    created_at = now;
    updated_at = now;
  })

unfoldable pub create_initial_game_state :
    GameInput → (ℕ → ℕ) → String → Result PokerError GameState
create_initial_game_state input draw now = do
  dealt ← deal_hand input draw now
  small ← post_blind dealt dealt.small_blind_seat input.small_blind ActionType.small_blind now
  both ← post_blind small small.big_blind_seat input.big_blind ActionType.big_blind now
  let ready : GameState = record both {
    current_bet = highest_bet both.players;
    pot = total_invested both.players;
  }
  seat ← first_actionable_seat_after ready ready.big_blind_seat
  final ←
      normalize_after_action street_fuel (record ready { current_turn_seat = seat })
        ready.big_blind_seat []
  ok final.0
