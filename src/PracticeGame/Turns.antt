-- ===== src/PracticeGame/Turns.antt =====
-- The turns that the service plays for bots.
use Prim.Native.String.{String}
use text.Mathlib.Text.{◌==◌ as str_eq}
use allinle.Prelude.{
  ℕ, suc, zero, ◌+◌, ◌-◌, max, Bool, true, false, ◌&&◌, ◌||◌, List, [], ◌∷◌, ◌++◌, map, Option,
  none, some, find, filter, ltb, leb, ◌==◌, if◌then◌else◌, length, sort_by, take, drop, Result, ok,
  err, ◌>>=◌,
}
use allinle.Cards.{Card}
use allinle.Types.{Player, GameState, PlayerStatus, Street, is_playing, is_active}
use allinle.Game.Legal.{is_turn, get_legal_actions}
use allinle.Bot.{Double}
use allinle.Bot.Decision.{
  BotDecisionInput, PositionType, early, middle, late, blinds, decide_bot_action,
}
use allinle.PracticeRoom.{BotLevel, beginner, advanced}
use allinle.PracticeGame.{Games, GameError, no_hole_cards, get_state}
use allinle.PracticeGame.Calls.{apply_seat_action}

-- `indexOf`
abbrev pub index_of : ℕ → List ℕ → Option ℕ
index_of k [] = none
index_of k (x ∷ xs) =
    let later = index_of k xs in
    if x == k then some zero else elim later [ none ↦ none | some i ↦ some (suc i) ]

abbrev pub sits_in : PlayerStatus → Bool
sits_in PlayerStatus.out = false
sits_in PlayerStatus.sitting_out = false
sits_in _ = true

-- The seats in play, from the one after the dealer's on.
unfoldable pub ordered_seats : GameState → List ℕ
unfolding sort_by
ordered_seats state =
    let seats =
      sort_by leb (
        map (λ (p : Player). p.seat_no)
          (filter (λ (p : Player). sits_in p.status) state.players)) in
    elim (index_of state.dealer_seat seats) [
      | none ↦ seats
      | some i ↦ drop (suc i) seats ++ take (suc i) seats
    ]

-- `(level || "BEGINNER")` of a level that the room stored.
unfoldable pub level_of : Option String → BotLevel
level_of none = beginner
level_of (some level) =
    if str_eq level "NORMAL"
    then BotLevel.normal
    else if str_eq level "ADVANCED"
    then advanced
    else beginner

abbrev pub before_showdown : Street → Street
before_showdown Street.showdown = Street.river
before_showdown street = street

abbrev pub is_in_hand : PlayerStatus → Bool
is_in_hand PlayerStatus.folded = false
is_in_hand PlayerStatus.out = false
is_in_hand _ = true

-- How many turns were played for bots in a hand, by the code of the room and the hand.
abbrev pub Counts : Type 0
Counts = List ((String × String) × ℕ)

abbrev pub is_hand : String → String → (String × String) × ℕ → Bool
is_hand code hand e = str_eq (e.0.0) code && str_eq (e.0.1) hand

abbrev pub count_for : Counts → String → String → ℕ
count_for counts code hand = elim (find (is_hand code hand) counts) [ none ↦ 0 | some e ↦ e.1 ]

abbrev pub position_by {ℓ} : {F : Type ℓ} ⦃d : Double F⦄ → F → PositionType
position_by ⦃d⦄ ratio =
    if d.less ratio (d.over 34 100)
    then early
    else if d.less ratio (d.over 67 100)
    then middle
    else late

unfoldable pub position_type {ℓ} : (F : Type ℓ) ⦃d : Double F⦄ → GameState → ℕ → PositionType
unfolding ordered_seats
position_type F ⦃d⦄ state seat =
    let ordered = ordered_seats state in
    if (seat == state.small_blind_seat) || (seat == state.big_blind_seat)
    then blinds
    else elim (index_of seat ordered) [
      | none ↦ middle
      | some i ↦
          if leb (length ordered) 3
          then middle
          else position_by (d.divided (d.of i) (d.of (max 1 (length ordered - 1))))
    ]

-- A bot whose turn it is, and which can act.
abbrev pub bot_to_act : GameState → Option Player
bot_to_act state =
    elim (find (λ (p : Player). is_turn state.current_turn_seat p.seat_no) state.players) [
      | none ↦ none
      | some p ↦
          if p.is_bot && is_active p.status && ltb 0 p.chips && is_playing state.status
          then some p
          else none
    ]

abbrev pub turn_of : Option GameState → Option (GameState × Player)
turn_of none = none
turn_of (some g) = elim (bot_to_act g) [ none ↦ none | some p ↦ some (g, p) ]

module _ {ℓ} {F : Type ℓ} ⦃d : Double F⦄ where
  unfoldable pub bot_input : GameState → Player → Card → Card → (ℕ → F) → BotDecisionInput F
  unfolding position_type level_of get_legal_actions
  bot_input state bot a b random = record {
    bot_level = level_of bot.bot_level;
    first_card = a;
    second_card = b;
    board_cards = state.board_cards;
    street = before_showdown state.street;
    pot = state.pot;
    current_bet = state.current_bet;
    invested_this_street = bot.invested_this_street;
    chips = bot.chips;
    min_raise = state.min_raise;
    position_type = position_type F state bot.seat_no;
    active_player_count = length (filter (λ (p : Player). is_in_hand p.status) state.players);
    legal_actions = get_legal_actions state bot.seat_no;
    random = random;
  }

  -- The decision of a bot that has actions to choose from, carried out for its seat. The source reads two
  -- hole cards, and throws if one is not there.
  unfoldable pub play_decision :
      Games → String → GameState → Player → (ℕ → F) → String → Result GameError Games
  unfolding bot_input get_legal_actions
  play_decision s code state bot random now = elim (get_legal_actions state bot.seat_no) [
    | [] ↦ ok s
    | _ ∷ _ ↦ elim bot.hole_cards [
      | a ∷ b ∷ _ ↦
          let decision = decide_bot_action (bot_input state bot a b random) in
          apply_seat_action s code bot.seat_no decision.action_type decision.amount none now
          >>= λ r. ok (r.0)
      | _ ↦ err no_hole_cards
    ]
  ]

  -- At most 300 turns in a hand.
  unfoldable pub play_bot_turn :
      Games → Counts → String → (ℕ → F) → String → Result GameError (Games × Counts)
  unfolding play_decision
  play_bot_turn s counts code random now = elim (turn_of (get_state s.states code)) [
    | none ↦ ok (s, counts)
    | some (state, bot) ↦
        let count = count_for counts code state.hand_id + 1 in
        let counted : Counts = ((code, state.hand_id), count) ∷ counts in
        if ltb 300 count
        then ok (s, counted)
        else (play_decision s code state bot random now >>= λ t. ok (t, counted))
  ]
