-- ===== src/Game/Rounds/Turns.antt =====
-- Whose turn it is: the seat that an action leaves the turn at.
use Prim.Native.String.{String}
use allinle.Prelude.{
  ℕ, zero, suc, ◌-◌, ◌≡◌, sym, ◌∙◌, subst, true, not, List, [], ◌∷◌, ◌++◌, map, Option, none, some,
  find, filter, length, every, if◌then◌else◌, Bool-cases, inl, inr, ok, map_result, Ensures, good,
  failed, Ensures-value, Ensures-guard, Ensures-bind, Ensures-if,
}
use allinle.Errors.{hand_not_playable, not_your_turn, identity_mismatch, player_cannot_act}
use allinle.Deck.{deal_cards}
use allinle.Evaluator.{EvaluatedHand}
use allinle.Types.{Player, GameState, is_playing}
use allinle.Pot.{build_side_pots, allocate_side_pots, sort_numbers}
use allinle.Game.Seats.{
  at_seat, find_player, is_contender, can_act, must_act, next_seat, scan_seats,
  first_actionable_seat_after,
}
use allinle.Game.Seats.Players.{find_player-ok, find-at_seat}
use allinle.Game.Legal.{is_turn}
use allinle.Game.Bets.{ActionInput, apply_action_mutation, refresh_pot}
use allinle.Game.Rounds.{
  Event, Progress, ActionResult, action_applied, game_over, street_changed, push_once,
  finish_by_fold, deal_board, deal_board_to_five, evaluate_player, pay_allocations, pot_player,
  pot_row, settle, finish_by_showdown, advance_street, is_betting_round_complete, close_round,
  run_out, normalize_with, normalize_after_action, no_more_bets, is_river, street_cards,
  users_differ, street_fuel, apply_game_action,
}

-- The player at this seat is found there, is active with chips, and has not acted on the street or
-- has put in less than the bet.
pub record MustAct (s : GameState) (k : ℕ) : Type 0 where
  pub player : Player
  pub found : find (at_seat k) s.players ≡ some player
  pub due : must_act s.current_bet player ≡ true

abbrev pub TurnIsDue : GameState → Type 0
TurnIsDue s = (k : ℕ) → s.current_turn_seat ≡ some k → MustAct s k

abbrev SeatIsDue : GameState → Option ℕ → Type 0
SeatIsDue s o = (k : ℕ) → o ≡ some k → MustAct s k

scan_seats-SeatIsDue :
    (s : GameState) (seats : List ℕ) (n cursor : ℕ)
    → Ensures (SeatIsDue s) (scan_seats s seats n cursor)
unfolding scan_seats
scan_seats-SeatIsDue s seats zero cursor = good λ k e. cc
scan_seats-SeatIsDue s seats (suc n) cursor =
    Ensures-bind (find_player s.players (next_seat seats cursor)) _ λ p f.
      let at = find_player-ok s.players (next_seat seats cursor) p f in
      by_player p at (find-at_seat (next_seat seats cursor) s.players p at)
        (scan_seats-SeatIsDue s seats n (next_seat seats cursor))
  where
    by_player :
        (p : Player)
        → find (at_seat (next_seat seats cursor)) s.players ≡ some p
        → p.seat_no ≡ next_seat seats cursor
        → Ensures (SeatIsDue s) (scan_seats s seats n (next_seat seats cursor))
        → Ensures (SeatIsDue s) (
            if must_act s.current_bet p
            then ok (some p.seat_no)
            else scan_seats s seats n (next_seat seats cursor))
    by_player p f seat rest = elim (Bool-cases (must_act s.current_bet p)) [
      | inl b ↦ rw b (
          good λ k e. record {
            player = p;
            found =
                subst (λ j. find (at_seat j) s.players ≡ some p) (sym seat ∙ some_injective e) f;
            due = b;
          })
      | inr b ↦ rw b rest
    ]
      where
        some_injective : {a b : ℕ} → ◌≡◌ {A = Option ℕ} (some a) (some b) → a ≡ b
        some_injective e = cc

first-SeatIsDue : (s : GameState) (k : ℕ) → Ensures (SeatIsDue s) (first_actionable_seat_after s k)
unfolding first_actionable_seat_after
first-SeatIsDue s k =
    let seats = sort_numbers (map (λ (p : Player). p.seat_no) s.players) in
    scan_seats-SeatIsDue s seats (length seats) k

settle-TurnIsDue :
    (s : GameState) (hands : List (ℕ × EvaluatedHand)) → Ensures TurnIsDue (settle s hands)
unfolding settle
settle-TurnIsDue s hands =
    let as' =
      allocate_side_pots (build_side_pots (map pot_player s.players))
        (map (λ (h : ℕ × EvaluatedHand). (h.0, h.1.rank_value)) hands) in
    Ensures-bind (pay_allocations as' s.players) _
      λ qs _. Ensures-bind (map_result (pot_row qs hands) as') _ λ rows _. good λ k e. cc

showdown-TurnIsDue : (s : GameState) → Ensures TurnIsDue (finish_by_showdown s)
unfolding finish_by_showdown deal_board_to_five
showdown-TurnIsDue s = Ensures-bind (deal_board (5 - length s.board_cards) s) _ λ t _.
    Ensures-bind (map_result (evaluate_player t.board_cards) (filter is_contender t.players)) _
      λ hands _. settle-TurnIsDue t hands

with_turn :
    (s : GameState) (o : Option ℕ) → SeatIsDue s o → TurnIsDue (record s { current_turn_seat = o })
with_turn s o h k e =
    let due = h k e in record { player = due.player; found = due.found; due = due.due }

advance_street-TurnIsDue : (s : GameState) → Ensures TurnIsDue (advance_street s)
unfolding advance_street
advance_street-TurnIsDue s = Ensures-bind (deal_cards s.deck (street_cards s.street)) _ λ d _.
    Ensures-bind (first_actionable_seat_after _ _) _
      λ o e. good (with_turn _ o (Ensures-value (first-SeatIsDue _ _) e))

abbrev EndsDue : Progress → Type 0
EndsDue m = Ensures (λ (r : GameState × List Event). TurnIsDue (r.0)) m

run_out-EndsDue : (s : GameState) (es : List Event) → EndsDue (run_out s es)
unfolding run_out deal_board_to_five
run_out-EndsDue s es = Ensures-bind (deal_board (5 - length s.board_cards) s) _ λ t _.
    Ensures-bind (finish_by_showdown t) _ λ u f. good (Ensures-value (showdown-TurnIsDue t) f)

fold-TurnIsDue : (s : GameState) (w : Player) → TurnIsDue (finish_by_fold s w)
unfolding finish_by_fold
fold-TurnIsDue s w k e = cc

module _ (again : GameState → List Event → Progress)
    (due : (s : GameState) (es : List Event) → EndsDue (again s es)) where
  close_round-EndsDue :
      (s : GameState) (k : ℕ) (es : List Event) → EndsDue (close_round again s k es)
  unfolding close_round
  close_round-EndsDue s k es =
      Ensures-if (is_betting_round_complete s) _ _
        (Ensures-if (is_river s.street) _ _
          (Ensures-bind (finish_by_showdown s) _
            λ u e. good (Ensures-value (showdown-TurnIsDue s) e))
          (Ensures-bind (advance_street s) _
            λ t e. by_turn t (Ensures-value (advance_street-TurnIsDue s) e) t.current_turn_seat))
        (Ensures-bind (first_actionable_seat_after s k) _
          λ o e. good (with_turn s o (Ensures-value (first-SeatIsDue s k) e)))
    where
      by_turn :
          (t : GameState)
          → TurnIsDue t
          → (o : Option ℕ)
          → EndsDue (elim o [
            | none ↦ again t (push_once street_changed es)
            | some _ ↦ ok (t, push_once street_changed es)
          ])
      by_turn t h none = due t (push_once street_changed es)
      by_turn t h (some _) = good h

  normalize_with-EndsDue :
      (s : GameState) (k : ℕ) (es : List Event) → EndsDue (normalize_with again s k es)
  unfolding normalize_with
  normalize_with-EndsDue s k es = by_contenders (filter is_contender (refresh_pot s).players)
    where
      by_contenders :
          (ws : List Player)
          → EndsDue (elim ws [
            | [] ↦ close_round again (refresh_pot s) k es
            | w ∷ [] ↦ ok (finish_by_fold (refresh_pot s) w, push_once game_over es)
            | w ∷ v ∷ vs ↦
                if every no_more_bets (w ∷ v ∷ vs)
                then run_out (refresh_pot s) es
                else close_round again (refresh_pot s) k es
          ])
      by_contenders [] = close_round-EndsDue (refresh_pot s) k es
      by_contenders (w ∷ []) = good (fold-TurnIsDue (refresh_pot s) w)
      by_contenders (w ∷ v ∷ vs) =
          Ensures-if (every no_more_bets (w ∷ v ∷ vs)) _ _ (run_out-EndsDue (refresh_pot s) es)
            (close_round-EndsDue (refresh_pot s) k es)

pub normalize_after_action-EndsDue :
    (fuel : ℕ) (k : ℕ) (s : GameState) (es : List Event)
    → EndsDue (normalize_after_action fuel s k es)
unfolding normalize_after_action
normalize_after_action-EndsDue zero k s es = failed
normalize_after_action-EndsDue (suc fuel) k s es =
    normalize_with-EndsDue (λ t fs. normalize_after_action fuel t k fs)
      (normalize_after_action-EndsDue fuel k) s k es

-- If an action that succeeds leaves the turn at a seat, then the player found there is active with
-- chips, and has not acted on the street or has put in less than the bet.
pub apply_game_action-TurnIsDue :
    (s : GameState) (input : ActionInput) (now : String) (r : ActionResult)
    → apply_game_action s input now ≡ ok r
    → TurnIsDue r.state
unfolding apply_game_action
apply_game_action-TurnIsDue s input now r e = Ensures-value whole e
  where
    whole : Ensures (λ (r : ActionResult). TurnIsDue r.state) (apply_game_action s input now)
    whole = Ensures-bind (find_player s.players input.seat_no) _ λ p _.
        Ensures-guard (not (is_playing s.status)) hand_not_playable _ λ _.
          Ensures-guard (not (is_turn s.current_turn_seat input.seat_no)) not_your_turn _ λ _.
            Ensures-guard (users_differ p.user_id input.user_id) identity_mismatch _ λ _.
              Ensures-guard (not (can_act p)) player_cannot_act _ λ _.
                Ensures-bind (apply_action_mutation s p input now) _ λ done _.
                  let changed : GameState = record (done.0) {
                    action_history = done.0.action_history ++ done.1 ∷ [];
                    updated_at = now;
                  } in
                  Ensures-bind
                    (normalize_after_action street_fuel changed input.seat_no (action_applied ∷ []))
                    _
                    λ final h. good (
                      Ensures-value
                        (normalize_after_action-EndsDue street_fuel input.seat_no changed
                          (action_applied ∷ []))
                        h)
