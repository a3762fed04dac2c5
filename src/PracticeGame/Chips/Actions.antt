-- ===== src/PracticeGame/Chips/Actions.antt =====
-- The chips of a room while its hand is played and when it is finished.
use Prim.Native.String.{String}
use text.Mathlib.TextPositions.{eq_refl}
use allinle.Prelude.{
  ℕ, ◌+◌, ◌≡◌, refl, sym, ap, ◌∙◌, subst, false, ◌||◌, not, List, [], ◌∷◌, Option, some, find, any,
  if◌then◌else◌, Result, ok, err, ◌>>=◌, Ensures, good, Ensures-guard, Ensures-bind, Ensures-if,
  Ensures-value, ensured,
}
use allinle.Prelude.Sorted.{Distinct}
use allinle.Errors.{PokerError, hand_not_playable}
use allinle.Types.{GameState, GameStatus, playing, hand_finished, room_finished, is_playing}
use allinle.Game.Seats.{find_player}
use allinle.Game.Seats.Players.{seats_of, stakes, hands_of-seats}
use allinle.Game.Bets.{Amount, Choice, ActionInput}
use allinle.Game.Bets.Kept.{ids_of}
use allinle.Game.Rounds.{Event, ActionResult, apply_game_action}
use allinle.Game.Rounds.Conserve.{accounted, accounted_by, lost, apply_game_action-accounted}
use allinle.Game.Rounds.Deals.{apply_game_action-SameCards}
use allinle.PracticeGame.{
  RoomForGame, Games, GameError, illegal_action, not_this_seat, from_engine, has_room_id, get_state,
  require_state, save_state, clear_bot_timer, schedule_bot_turn,
}
use allinle.PracticeGame.Hands.{
  persist_actions, persist_finished_hand, is_finished, is_street_changed,
}
use allinle.PracticeGame.Calls.{
  current_player, assert_actor, actor_of, persist_system_actions_for_events, after_action,
  apply_seat_action,
}
use allinle.PracticeGame.Chips.{
  Seated, chips_at_all, persist_actions-rooms, persist_finished_hand-Stored,
}

-- While the hand is played, its players have `n` chips in hand and in the pot, and the rows of their
-- seats still have `n` chips together; when it is finished, the row of each player's seat has the chips
-- that he has in hand, and the rows have `n` together, but for those that the showdown stranded.
abbrev pub Balanced : GameStatus → ℕ → RoomForGame → GameState → Type 0
Balanced playing n r g = (stakes g.players ≡ n) × (chips_at_all r.players (seats_of g.players) ≡ n)
Balanced hand_finished n r g =
    Seated g.players r.players
    × (chips_at_all r.players (seats_of g.players) + lost g.winner_info g.players ≡ n)
Balanced room_finished n r g = Unit

-- The state of the room with this code and this identifier, and its row.
pub record Holds (n : ℕ) (code id : String) (s : Games) : Type 0 where
  pub state : GameState
  pub room : RoomForGame
  pub kept_state : get_state s.states code ≡ some state
  pub kept_room : find (has_room_id id) s.rooms ≡ some room
  pub same_code : state.room_code ≡ code
  pub same_id : state.room_id ≡ id
  pub distinct : Distinct (seats_of state.players)
  pub balanced : Balanced state.status n room state

apply_game_action-playing :
    (g : GameState) (input : ActionInput) (now : String)
    → Ensures (λ (_ : ActionResult). g.status ≡ playing) (apply_game_action g input now)
unfolding apply_game_action
apply_game_action-playing g input now = Ensures-bind (find_player g.players input.seat_no) _ λ p _.
    Ensures-guard (not (is_playing g.status)) hand_not_playable _
      λ b. ensured _ λ _ _. status_playing g.status b
  where
    status_playing : (t : GameStatus) → not (is_playing t) ≡ false → t ≡ playing
    status_playing playing h = refl
    status_playing hand_finished h = cc
    status_playing room_finished h = cc

persist_system_actions-rooms :
    (s : Games) (g : GameState) (es : List Event) (now : String)
    → Ensures (λ t. t.rooms ≡ s.rooms) (persist_system_actions_for_events s g es now)
unfolding persist_system_actions_for_events
persist_system_actions-rooms s g es now =
    Ensures-if (not (any is_street_changed es) || is_finished g.status) _ _ (good refl)
      (persist_actions-rooms s g.hand_id _)

-- The room after the rows of an action.
abbrev pub After : ℕ → String → GameState → Games → Type 0
After n id g t =
    (q : RoomForGame) × (find (has_room_id id) t.rooms ≡ some q) × Balanced g.status n q g

after_action-After :
    (s : Games) (code : String) (g : GameState) (now : String) (r : RoomForGame) (n : ℕ)
    → Distinct (seats_of g.players)
    → find (has_room_id g.room_id) s.rooms ≡ some r
    → chips_at_all r.players (seats_of g.players) ≡ n
    → accounted g ≡ n
    → Ensures (After n g.room_id g) (after_action s code g now)
unfolding after_action clear_bot_timer schedule_bot_turn
after_action-After s code g now r n d e c a = by_status g.status a
  where
    by_status :
        (st : GameStatus)
        → accounted_by st g ≡ n
        → Ensures
            (λ t.
              (q : RoomForGame) × (find (has_room_id g.room_id) t.rooms ≡ some q)
              × Balanced st n q g)
            (if is_finished st
              then (persist_finished_hand s g now >>= λ t. ok (clear_bot_timer t code))
              else (if is_playing st then ok (schedule_bot_turn s code) else ok s))
    by_status playing b = good (r, e, (b, c))
    by_status hand_finished b = Ensures-bind (persist_finished_hand s g now) _ λ t f.
        let stored = Ensures-value (persist_finished_hand-Stored s g now r d e) f in
        good (
          record r { players = stored.seats },
          stored.found,
          (stored.written, ap (λ m. m + lost g.winner_info g.players) stored.sum ∙ b),
        )
    by_status room_finished b = good (r, e, tt)

pub from_engine-ok :
    {A : Type 0} (f : PokerError → GameError) (m : Result PokerError A) (a : A)
    → from_engine f m ≡ ok a
    → m ≡ ok a
from_engine-ok f (ok b) a e = cc
from_engine-ok f (err b) a e = cc

pub saved : (s : Games) (g : GameState) → get_state (save_state s g).states g.room_code ≡ some g
unfolding save_state get_state
saved s g = rw (eq_refl g.room_code) refl

-- The step of the engine, in a state that is held.
module _ (n : ℕ) (code id : String) (s : Games) (h : Holds n code id s) where
  engine-same :
      (input : ActionInput) (now : String) (r : ActionResult)
      → apply_game_action h.state input now ≡ ok r
      → (ids_of r.state ≡ ids_of h.state) × (seats_of r.state.players ≡ seats_of h.state.players)
  engine-same input now r e =
      let same = apply_game_action-SameCards h.state input now r e in
      (same.same_ids, hands_of-seats r.state.players h.state.players same.same_hands)

  engine-accounted :
      (input : ActionInput) (now : String) (r : ActionResult)
      → apply_game_action h.state input now ≡ ok r
      → (accounted r.state ≡ n) × (chips_at_all h.room.players (seats_of h.state.players) ≡ n)
  engine-accounted input now r e =
      let on = Ensures-value (apply_game_action-playing h.state input now) e in
      let b = subst (λ st. Balanced st n h.room h.state) on h.balanced in
      (apply_game_action-accounted h.state input now r h.distinct e ∙ b.0, b.1)

  -- The state that is saved, with the room after its rows were written.
  held_after :
      (r : ActionResult) (t : Games)
      → (ids_of r.state ≡ ids_of h.state) × (seats_of r.state.players ≡ seats_of h.state.players)
      → After n r.state.room_id r.state t
      → Holds n code id (save_state t r.state)
  unfolding save_state
  held_after r t same (q, found, balanced) =
      let code_same : r.state.room_code ≡ code =
        ap (λ (i : String × String × String). i.1) same.0 ∙ h.same_code in
      let id_same : r.state.room_id ≡ id =
        ap (λ (i : String × String × String). i.0) same.0 ∙ h.same_id in
      record {
        state = r.state;
        room = q;
        kept_state =
            subst (λ c. get_state (save_state t r.state).states c ≡ some r.state) code_same
              (saved t r.state);
        kept_room = subst (λ i. find (has_room_id i) t.rooms ≡ some q) id_same found;
        same_code = code_same;
        same_id = id_same;
        distinct = subst Distinct (sym same.1) h.distinct;
        balanced = balanced;
      }

  found_later :
      (r : ActionResult) (t : Games)
      → (ids_of r.state ≡ ids_of h.state) × (seats_of r.state.players ≡ seats_of h.state.players)
      → t.rooms ≡ s.rooms
      → find (has_room_id r.state.room_id) t.rooms ≡ some h.room
  found_later r t same e =
      ap (find (has_room_id r.state.room_id)) e
      ∙ ap (λ i. find (has_room_id i) s.rooms)
          (ap (λ (i : String × String × String). i.0) same.0 ∙ h.same_id)
      ∙ h.kept_room

  pub apply_seat_action-Holds :
      (seat : ℕ) (type : Choice) (amount : Amount) (actor : Option String) (now : String)
      → Ensures
          (λ (r : Games × ActionResult). Holds n code id (r.0))
          (apply_seat_action s code seat type amount actor now)
  unfolding apply_seat_action require_state
  apply_seat_action-Holds seat type amount actor now = rw h.kept_state (
      Ensures-bind (current_player h.state seat not_this_seat) _ λ p _.
        Ensures-bind (assert_actor actor p) _ λ _ _.
          let input : ActionInput = record {
            seat_no = seat;
            user_id = actor_of p.user_id actor;
            action_type = type;
            amount = amount;
          } in
          Ensures-bind (from_engine illegal_action (apply_game_action h.state input now)) _ λ r f.
            let e = from_engine-ok illegal_action (apply_game_action h.state input now) r f in
            let same = engine-same input now r e in
            let (balance, rows) = engine-accounted input now r e in
            Ensures-bind (persist_actions s r.state.hand_id (r.applied_action ∷ [])) _ λ logged k.
              Ensures-bind (persist_system_actions_for_events logged r.state r.events now) _
                λ dealt l. Ensures-bind (after_action dealt code r.state now) _ λ t m. good (
                  held_after r t same (
                    Ensures-value
                      (after_action-After dealt code r.state now h.room n
                        (subst Distinct (sym same.1) h.distinct)
                        (found_later r dealt same (
                          Ensures-value (persist_system_actions-rooms logged r.state r.events now) l
                          ∙ Ensures-value
                              (persist_actions-rooms s r.state.hand_id (r.applied_action ∷ [])) k))
                        (ap (chips_at_all h.room.players) same.1 ∙ rows) balance)
                      m)))

-- Actions on the hand of this room, one after another, by users or for bots.
pub data Actions (s : Games) (code : String) : Games → Type 0 where
  start : Actions s code s
  acted :
      {t u : Games} (seat : ℕ) (type : Choice) (amount : Amount) (actor : Option String)
      (now : String) (r : ActionResult)
      → Actions s code t
      → apply_seat_action t code seat type amount actor now ≡ ok (u, r)
      → Actions s code u

-- If the players of a hand have `n` chips, in hand and in the pot, and so do the rows of their seats,
-- then after any actions that succeed the players still have `n` while the hand is played, and once it
-- is finished the row of each player's seat has the chips that the state has for him in hand, and these
-- rows have `n` together, but for the chips that the showdown stranded.
pub Actions-Holds :
    (n : ℕ) (code id : String) (s t : Games)
    → Holds n code id s
    → Actions s code t
    → Holds n code id t
Actions-Holds n code id s t h start = h
Actions-Holds n code id s t h (acted {t = m} seat type amount actor now r before e) =
    Ensures-value
      (apply_seat_action-Holds n code id m (Actions-Holds n code id s m h before) seat type amount
        actor now)
      e
