-- ===== src/Tests/Games.antt =====
-- The theorems on practice games at concrete inputs: a room of two users, from its first hand on.
use Prim.Native.String.{String}
use allinle.Prelude.{
  ℕ, ◌+◌, ◌≡◌, ◌⊎◌, refl, true, false, List, [], ◌∷◌, map, Option, none, some, find, Result, ok,
  err, if◌then◌else◌, get_or,
}
use allinle.Cards.{Card}
use allinle.Types.{GameState, PlayerStatus, GameAction, ActionType, Street}
use allinle.Game.Seats.{total_invested}
use allinle.Game.Seats.Players.{seats_of}
use allinle.Game.Bets.{Choice, missing}
use allinle.Game.Rounds.{ActionResult}
use allinle.PracticeRoom.{friends, PracticeRoomStatus}
use allinle.PracticeGame.{
  RoomSeat, RoomForGame, PracticeHand, PracticeHandStatus, HandPlayer, FinalStatus, still, Games,
  GameError, has_room_id, update_row, get_room, assert_room_owner, assert_room_member,
  assert_room_ready_to_start, get_state, require_state, save_state, delete_state, clear_bot_timer,
  schedule_bot_turn,
}
use allinle.PracticeGame.Hands.{
  Dealing, to_bot_level, persist_actions, persist_finished_hand, persist_aborted_hand,
  persist_chips, persist_players, upsert_player, write_seats, final_status, shown_hand,
  hand_player_result, hand_player_aborted, finished_system_actions, create_and_persist_hand,
}
use allinle.PracticeGame.Calls.{
  current_player, persist_system_actions_for_events, after_action, apply_seat_action, apply_action,
  next_hand_no, start_first_hand, abort_hand, end_room,
}
use allinle.PracticeGame.Chips.{chips_at_all}
use allinle.PracticeGame.Chips.Actions.{Holds, Actions, start, acted, Actions-Holds}
use allinle.PracticeGame.Chips.Rooms.{end_room-chips}
use allinle.PracticeGame.Chips.Starts.{start_first_hand-Holds}
use allinle.PracticeGame.Privacy.{
  HisTurn, redealt, apply_action-HisTurn, serialize_hand_replay-redealt,
}
use allinle.PracticeGame.Views.{Names, is_revealed, serialize_hand_replay}
use allinle.PracticeRoom.{advanced}
use allinle.Game.Legal.{get_legal_actions, player_actions, check_or_call, bet_or_raise}
use allinle.Bot.Strength.{preflop_strength, postflop_strength}
use allinle.Bot.Decision.{
  decide_bot_action, adjusted_strength, profile_for, value_raise, value_bet, bluff,
  choose_raise_amount, choose_bet_amount, clip, find_action, decide_passively, fallback,
}
use allinle.PracticeGame.Turns.{
  Counts, play_bot_turn, play_decision, bot_input, position_type, ordered_seats, level_of,
}
use allinle.PracticeGame.Played.{Played, play_bot_turn-Outcome}
use allinle.Tests.Runs.{thousandths, act, start as start_state, no_hand}

abbrev member : ℕ → String → ℕ → RoomSeat
member seat user chips = record {
  user_id = some user;
  seat_no = seat;
  user_nickname = some user;
  is_bot = false;
  bot_level = none;
  chips = chips;
  ready_status = true;
  initial_chips_confirmed = true;
}

abbrev table : RoomForGame
table = record {
  id = "r1";
  room_code = "ABC";
  owner_user_id = "ann";
  mode = friends;
  player_count = 6;
  small_blind = 5;
  big_blind = 10;
  status = PracticeRoomStatus.ready;
  started_at = none;
  ended_at = none;
  players = member 2 "ben" 900 ∷ member 1 "ann" 1000 ∷ [];
}

abbrev waiting_games : Games
waiting_games = record { rooms = table ∷ []; hands = []; states = []; bot_timers = [] }

abbrev dealing : Dealing
dealing = record { hand_id = "h1"; now = "now"; draw = λ i. 0 }

abbrev or_waiting : Result GameError Games → Games
or_waiting (ok s) = s
or_waiting (err e) = waiting_games

unfoldable started : Games
unfolding start_state act start_first_hand get_room assert_room_owner assert_room_ready_to_start
    create_and_persist_hand persist_actions update_row get_state save_state schedule_bot_turn
    clear_bot_timer next_hand_no persist_finished_hand to_bot_level
started = or_waiting (start_first_hand waiting_games "ann" "ABC" dealing)

states_run : map (λ (e : String × GameState). e.1.pot) started.states ≡ 15 ∷ []
unfolding started
states_run = refl

start_first_hand-Holds_example : Holds 1900 "ABC" "r1" started
unfolding start_state act start_first_hand get_room assert_room_owner assert_room_ready_to_start
    create_and_persist_hand persist_actions update_row get_state save_state schedule_bot_turn
    clear_bot_timer next_hand_no persist_finished_hand to_bot_level started
start_first_hand-Holds_example =
    start_first_hand-Holds waiting_games started "ann" "ABC" dealing table refl refl
      (refl, (refl, tt)) refl refl

abbrev or_started : Result GameError (Games × ActionResult) → Games
or_started (ok r) = r.0
or_started (err e) = started

abbrev state_or_none : Option GameState → GameState
state_or_none none = no_hand
state_or_none (some g) = g

unfoldable started_state : GameState
unfolding started get_state
started_state = state_or_none (get_state started.states "ABC")

abbrev started_room : RoomForGame
unfolding started
started_room = get_or started.rooms 0 table

unfoldable started_holds : Holds 1900 "ABC" "r1" started
unfolding started_state started get_state
started_holds = record {
  state = started_state;
  room = started_room;
  kept_state = refl;
  kept_room = refl;
  same_code = refl;
  same_id = refl;
  distinct = (refl, (refl, tt));
  balanced = (refl, refl);
}

unfoldable given_up : Games
unfolding started require_state get_room assert_room_owner get_state update_row abort_hand
    persist_aborted_hand persist_actions persist_chips write_seats persist_players upsert_player
    hand_player_aborted to_bot_level delete_state clear_bot_timer end_room
given_up = or_waiting (end_room started "ann" "ABC" "later")

-- The blinds are at no seat.
given_up_run :
    map (λ (p : RoomSeat). p.chips) (get_or given_up.rooms 0 table).players ≡ 890 ∷ 995 ∷ []
unfolding given_up
given_up_run = refl

end_room-chips_example :
    (q : RoomForGame) × (find (has_room_id "r1") given_up.rooms ≡ some q)
    × (chips_at_all q.players (seats_of started_state.players)
          + total_invested started_state.players
        ≡ 1900)
unfolding started_holds given_up started_state started require_state get_room assert_room_owner
    get_state update_row abort_hand persist_aborted_hand persist_actions persist_chips write_seats
    persist_players upsert_player hand_player_aborted to_bot_level delete_state clear_bot_timer
    end_room
end_room-chips_example =
    end_room-chips 1900 "ABC" "r1" "ann" "later" started given_up started_holds refl refl

-- The dealer folds before the flop.
unfoldable folded : Games
unfolding started act require_state get_room assert_room_member get_state update_row current_player
    persist_actions persist_system_actions_for_events after_action persist_finished_hand
    persist_chips write_seats persist_players upsert_player final_status shown_hand
    hand_player_result finished_system_actions to_bot_level save_state schedule_bot_turn
    clear_bot_timer apply_seat_action apply_action
folded = or_started (apply_seat_action started "ABC" 1 Choice.fold missing (some "ann") "now")

chips_run : map (λ (p : RoomSeat). p.chips) (get_or folded.rooms 0 table).players ≡ 905 ∷ 995 ∷ []
unfolding folded
chips_run = refl

statuses_run :
    map (λ (h : PracticeHand). map (λ (p : HandPlayer). p.final_status) h.players) folded.hands
    ≡ (still PlayerStatus.folded ∷ FinalStatus.winner ∷ []) ∷ []
unfolding folded
statuses_run = refl

folded_steps : Actions started "ABC" folded
unfolding started act require_state get_room assert_room_member get_state update_row current_player
    persist_actions persist_system_actions_for_events after_action persist_finished_hand
    persist_chips write_seats persist_players upsert_player final_status shown_hand
    hand_player_result finished_system_actions to_bot_level save_state schedule_bot_turn
    clear_bot_timer apply_seat_action apply_action folded
folded_steps = acted 1 Choice.fold missing (some "ann") "now" _ start refl

Actions-Holds_example : Holds 1900 "ABC" "r1" folded
Actions-Holds_example = Actions-Holds 1900 "ABC" "r1" started folded started_holds folded_steps

abbrev no_action : GameAction
no_action = record {
  seat_no = 0;
  user_id = none;
  action_type = ActionType.fold;
  amount = 0;
  street = Street.preflop;
  created_at = "";
}

abbrev or_no_result : Result GameError (Games × ActionResult) → Games × ActionResult
or_no_result (ok r) = r
or_no_result (err e) =
    (started, record { state = no_hand; applied_action = no_action; events = [] })

unfoldable ann_folds : Games × ActionResult
unfolding started act require_state get_room assert_room_member get_state update_row current_player
    persist_actions persist_system_actions_for_events after_action persist_finished_hand
    persist_chips write_seats persist_players upsert_player final_status shown_hand
    hand_player_result finished_system_actions to_bot_level save_state schedule_bot_turn
    clear_bot_timer apply_seat_action apply_action
ann_folds = or_no_result (apply_action started "ann" "ABC" Choice.fold missing "now")

apply_action-HisTurn_example : HisTurn started "ann" "ABC"
unfolding started act require_state get_room assert_room_member get_state update_row current_player
    persist_actions persist_system_actions_for_events after_action persist_finished_hand
    persist_chips write_seats persist_players upsert_player final_status shown_hand
    hand_player_result finished_system_actions to_bot_level save_state schedule_bot_turn
    clear_bot_timer apply_seat_action apply_action ann_folds
apply_action-HisTurn_example =
    apply_action-HisTurn started "ann" "ABC" Choice.fold missing "now" ann_folds refl

abbrev names : Names
names = record { seat_text = λ _. "#"; user_name = λ user. user }

abbrev hand_row : Games → PracticeHand
hand_row s = get_or s.hands 0 (record {
  id = "";
  room_id = "";
  hand_no = 0;
  dealer_seat = 0;
  small_blind_seat = 0;
  big_blind_seat = 0;
  board_cards = [];
  pot_size = 0;
  winner_info = none;
  status = PracticeHandStatus.playing;
  ended_at = none;
  players = [];
  actions = [];
})

-- The cards of all but the viewer are taken away.
abbrev own_cards : HandPlayer → List Card
own_cards p = if is_revealed "ann" false p then p.hole_cards else []

own_cards-same : (p : HandPlayer) → is_revealed "ann" false p ≡ true → own_cards p ≡ p.hole_cards
own_cards-same p h = rw h refl

serialize_hand_replay-redealt_example :
    serialize_hand_replay names table (redealt own_cards (hand_row folded)) "ann" false
    ≡ serialize_hand_replay names table (hand_row folded) "ann" false
serialize_hand_replay-redealt_example =
    serialize_hand_replay-redealt names table (hand_row folded) "ann" own_cards own_cards-same

-- A bot has the first seat, and the first turn.
abbrev bot_seat : RoomSeat
bot_seat = record (member 1 "bot" 1000) { user_id = none; is_bot = true; bot_level = some advanced }

abbrev bot_games : Games
bot_games = record waiting_games {
  rooms = record table { players = member 2 "ann" 900 ∷ bot_seat ∷ [] } ∷ [];
}

unfoldable bot_started : Games
unfolding start_state act start_first_hand get_room assert_room_owner assert_room_ready_to_start
    create_and_persist_hand persist_actions update_row get_state save_state schedule_bot_turn
    clear_bot_timer next_hand_no persist_finished_hand to_bot_level
bot_started = or_waiting (start_first_hand bot_games "ann" "ABC" dealing)

unfoldable bot_state : GameState
unfolding bot_started get_state
bot_state = state_or_none (get_state bot_started.states "ABC")

abbrev or_no_turn : Result GameError (Games × Counts) → Games × Counts
or_no_turn (ok r) = r
or_no_turn (err e) = (bot_games, [])

unfoldable bot_played : Games × Counts
unfolding bot_started act require_state get_room assert_room_member get_state update_row
    current_player persist_actions persist_system_actions_for_events after_action
    persist_finished_hand persist_chips write_seats persist_players upsert_player final_status
    shown_hand hand_player_result finished_system_actions to_bot_level save_state schedule_bot_turn
    clear_bot_timer apply_seat_action apply_action play_bot_turn play_decision bot_input
    position_type ordered_seats level_of get_legal_actions player_actions check_or_call bet_or_raise
    decide_bot_action adjusted_strength preflop_strength postflop_strength profile_for value_raise
    value_bet bluff choose_raise_amount choose_bet_amount clip find_action decide_passively fallback
bot_played = or_no_turn (play_bot_turn {F = ℕ} bot_started [] "ABC" (λ i. 0) "now")

bot_counts_run : map (λ (e : (String × String) × ℕ). e.1) bot_played.1 ≡ 1 ∷ []
unfolding bot_played
bot_counts_run = refl

bot_pot_run : (state_or_none (get_state bot_played.0.states "ABC")).pot ≡ 20
unfolding bot_played get_state
bot_pot_run = refl

play_bot_turn-Outcome_example :
    (bot_played.0 ≡ bot_started) ⊎ Played ℕ bot_started "ABC" [] "now" (bot_played.0, bot_played.1)
unfolding bot_played bot_started act require_state get_room assert_room_member get_state update_row
    current_player persist_actions persist_system_actions_for_events after_action
    persist_finished_hand persist_chips write_seats persist_players upsert_player final_status
    shown_hand hand_player_result finished_system_actions to_bot_level save_state schedule_bot_turn
    clear_bot_timer apply_seat_action apply_action play_bot_turn play_decision bot_input
    position_type ordered_seats level_of get_legal_actions player_actions check_or_call bet_or_raise
    decide_bot_action adjusted_strength preflop_strength postflop_strength profile_for value_raise
    value_bet bluff choose_raise_amount choose_bet_amount clip find_action decide_passively fallback
play_bot_turn-Outcome_example =
    play_bot_turn-Outcome {F = ℕ} bot_started "ABC" [] (λ i. 0) "now" (bot_played.0) (bot_played.1)
      refl
