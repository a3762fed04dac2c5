-- ===== src/PracticeGame/Hands.antt =====
-- The rows of a hand: made when it starts, and written when it is finished or its room ends.
pub mod Results
use Prim.Native.String.{String}
use text.Mathlib.Text.{◌==◌ as str_eq}
use allinle.Prelude.{
  ℕ, suc, zero, ◌+◌, Bool, true, false, ◌&&◌, ◌||◌, not, List, [], ◌∷◌, ◌++◌, map, flat_map, Option,
  none, some, find, filter, contains, ltb, ◌==◌, if◌then◌else◌, length, sort_by, max, leb,
  map_result, Result, ok, err, ◌>>=◌,
}
use allinle.Prelude.Int.{ℤ, pos, ◌-ℤ◌, ltb_ℤ}
use allinle.Cards.{Card}
use allinle.Types.{
  Player, GameState, GameStatus, GameAction, PlayerStatus, Street, ActionType, WinReason,
  by_showdown, WinnerInfo, PotResult, PotWinner,
}
use allinle.Evaluator.{EvaluatedHand, evaluate_seven_cards}
use allinle.Game.Seats.{BlindSeats, resolve_blind_seats}
use allinle.Game.Start.{PlayerInput, GameInput, create_initial_game_state, name_or}
use allinle.Game.Rounds.{Event, street_changed}
use allinle.PracticeRoom.{BotLevel, beginner, advanced, bot_name, shown_name}
use allinle.PracticeGame.{
  RoomSeat, RoomForGame, PracticeHand, PracticeHandStatus, finished, HandPlayer, FinalStatus,
  winner, lost, room_ended, still, HandOutcome, won, ended, Games, GameError, engine_error,
  from_engine, update_row, has_room_id, has_hand_id, is_at,
}
pub use Results.{
  level_text, level_texts, text_or_none, pots_of, has_folded, is_all_in, net, is_by_showdown,
  best_cards, hand_player_dealt,
}
unfoldable pub use Results.{
  to_bot_level, final_status, shown_hand, hand_player_result, hand_player_aborted,
}

unfoldable pub persist_actions : Games → String → List GameAction → Result GameError Games
unfolding update_row
persist_actions s hand_id [] = ok s
persist_actions s hand_id (a ∷ as') =
    update_row (has_hand_id hand_id) (λ h. record h { actions = h.actions ++ a ∷ as' }) s.hands
    >>= λ hands. ok (record s { hands = hands })

abbrev pub system_action : ActionType → ℕ → Street → String → GameAction
system_action type amount street now = record {
  seat_no = 0;
  user_id = none;
  action_type = type;
  amount = amount;
  street = street;
  created_at = now;
}

abbrev pub is_finished : GameStatus → Bool
is_finished GameStatus.hand_finished = true
is_finished _ = false

abbrev pub is_street_changed : Event → Bool
is_street_changed street_changed = true
is_street_changed _ = false

unfoldable pub finished_system_actions : GameState → String → List GameAction
unfolding flat_map
finished_system_actions state now =
    system_action ActionType.showdown state.pot Street.showdown now
    ∷ flat_map
        (λ (pot : PotResult).
          map
            (λ (w : PotWinner). record {
              seat_no = w.seat_no;
              user_id = w.user_id;
              action_type = ActionType.win;
              amount = w.amount_won;
              street = Street.showdown;
              created_at = now;
            })
            pot.winners)
        (pots_of state.winner_info)

-- `upsert` on the key of the hand and the seat: a row that is there keeps its user and its first chips,
-- and the columns that a write does not name, as `merge` says.
unfoldable pub upsert_player :
    (HandPlayer → HandPlayer → HandPlayer) → HandPlayer → List HandPlayer → List HandPlayer
upsert_player merge row [] = row ∷ []
upsert_player merge row (old ∷ rows) =
    if old.seat_no == row.seat_no then merge old row ∷ rows else old ∷ upsert_player merge row rows

-- A finished hand writes every column, but the best cards only if a hand is shown.
abbrev pub merge_finished : HandPlayer → HandPlayer → HandPlayer
merge_finished old row = record row {
  user_id = old.user_id;
  start_chips = old.start_chips;
  best_five_cards = elim row.best_five_cards [ [] ↦ old.best_five_cards | _ ↦ row.best_five_cards ];
}

abbrev pub merge_aborted : HandPlayer → HandPlayer → HandPlayer
merge_aborted old row = record row {
  user_id = old.user_id;
  start_chips = old.start_chips;
  showdown = old.showdown;
  hand_rank_category = old.hand_rank_category;
  hand_rank_description = old.hand_rank_description;
  best_five_cards = old.best_five_cards;
}

-- The chips of the players go to the seats of the room, one write for each.
unfoldable pub write_seats : List Player → List RoomSeat → Result GameError (List RoomSeat)
unfolding update_row
write_seats [] seats = ok seats
write_seats (p ∷ ps) seats =
    update_row (is_at p.seat_no) (λ seat. record seat { chips = p.chips }) seats >>= λ rest.
    write_seats ps rest

-- The rows of a room by its identifier; without one, no seat is there to write to.
unfoldable pub persist_chips :
    String → List Player → List RoomForGame → Result GameError (List RoomForGame)
unfolding write_seats
persist_chips id ps [] = write_seats ps [] >>= λ _. ok []
persist_chips id ps (r ∷ rs) =
    let rest = persist_chips id ps rs in
    if has_room_id id r
    then (write_seats ps r.players >>= λ seats. ok (record r { players = seats } ∷ rs))
    else (rest >>= λ qs. ok (r ∷ qs))

unfoldable pub persist_players :
    (HandPlayer → HandPlayer → HandPlayer) → List HandPlayer → List HandPlayer → List HandPlayer
unfolding upsert_player
persist_players merge [] rows = rows
persist_players merge (p ∷ ps) rows = persist_players merge ps (upsert_player merge p rows)

abbrev pub closed_hand : GameState → HandOutcome → String → PracticeHand → PracticeHand
closed_hand state outcome now h = record h {
  status = finished;
  board_cards = state.board_cards;
  pot_size = state.pot;
  winner_info = some outcome;
  ended_at = some now;
}

unfoldable pub persist_finished_hand : Games → GameState → String → Result GameError Games
unfolding persist_actions persist_chips persist_players hand_player_result finished_system_actions
persist_finished_hand s state now = do
  closed ←
      update_row (has_hand_id state.hand_id) (closed_hand state (won state.winner_info) now) s.hands
  rooms ← persist_chips state.room_id state.players s.rooms
  rows ← map_result (λ p. hand_player_result p state) state.players
  hands ←
      update_row (has_hand_id state.hand_id)
        (λ h. record h { players = persist_players merge_finished rows h.players }) closed
  persist_actions (record s { rooms = rooms; hands = hands }) state.hand_id
      (finished_system_actions state now)

unfoldable pub persist_aborted_hand : Games → GameState → String → Result GameError Games
persist_aborted_hand s state now = do
  closed ←
      update_row (has_hand_id state.hand_id)
        (closed_hand state (ended state.board_cards state.pot) now) s.hands
  rooms ← persist_chips state.room_id state.players s.rooms
  hands ←
      update_row (has_hand_id state.hand_id)
        (λ h. record h {
          players = persist_players merge_aborted (map hand_player_aborted state.players) h.players;
        })
        closed
  ok (record s { rooms = rooms; hands = hands })

abbrev pub seat_input : RoomSeat → PlayerInput
seat_input p = record {
  user_id = p.user_id;
  seat_no = p.seat_no;
  nickname = some (name_or p.user_nickname (if p.is_bot then bot_name p.bot_level else "成员"));
  is_bot = p.is_bot;
  bot_level = level_texts p.bot_level;
  chips = p.chips;
}

-- What the database, the clock and the shuffle give to a new hand.
pub record Dealing : Type 0 where
  pub hand_id : String
  pub now : String
  pub draw : ℕ → ℕ

abbrev pub active_seats : RoomForGame → List ℕ
active_seats room = map (λ (p : RoomSeat). p.seat_no) (filter (λ p. ltb 0 p.chips) room.players)

abbrev pub new_hand : RoomForGame → ℕ → BlindSeats → Dealing → PracticeHand
new_hand room hand_no blinds dealing = record {
  id = dealing.hand_id;
  room_id = room.id;
  hand_no = hand_no;
  dealer_seat = blinds.dealer_seat;
  small_blind_seat = blinds.small_blind_seat;
  big_blind_seat = blinds.big_blind_seat;
  board_cards = [];
  pot_size = 0;
  winner_info = none;
  status = PracticeHandStatus.playing;
  ended_at = none;
  players = [];
  actions = [];
}

abbrev pub hand_input : RoomForGame → ℕ → BlindSeats → Dealing → GameInput
hand_input room hand_no blinds dealing = record {
  room_id = room.id;
  room_code = room.room_code;
  hand_id = dealing.hand_id;
  hand_no = hand_no;
  small_blind = room.small_blind;
  big_blind = room.big_blind;
  players = map seat_input room.players;
  dealer_seat = some blinds.dealer_seat;
  deck = none;
}

unfoldable pub create_and_persist_hand :
    Games → RoomForGame → ℕ → ℕ → Dealing → Result GameError (Games × GameState)
create_and_persist_hand s room hand_no dealer_seat dealing = do
  blinds ←
      from_engine engine_error (resolve_blind_seats (sort_by leb (active_seats room)) dealer_seat)
  state ←
      from_engine engine_error (
        create_initial_game_state (hand_input room hand_no blinds dealing) dealing.draw dealing.now)
  let row : PracticeHand = record (new_hand room hand_no blinds dealing) {
    players = map hand_player_dealt state.players;
  }
  dealt ←
      persist_actions (record s { hands = s.hands ++ row ∷ [] }) state.hand_id state.action_history
  saved ←
      if is_finished state.status then persist_finished_hand dealt state dealing.now else ok dealt
  ok (saved, state)
