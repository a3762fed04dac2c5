-- ===== src/Game/Rounds/Ends.antt =====
-- The recursion of `normalizeAfterAction` and the street of a hand.
use allinle.Prelude.{
  ℕ, zero, suc, ◌-◌, ◌<◌, ◌≡◌, refl, sym, ap, ◌∙◌, ◌≢◌, false, List, [], ◌∷◌, ◌++◌, map, Option,
  none, some, arith, filter, length, every, if◌then◌else◌, ok, err, map_result, >>=-eq-ok,
  ok_injective, fine, Avoids-ne, Avoids-or_throw, Avoids-guard, Avoids-bind, Avoids-if,
  Avoids-map_result, Avoids-test, subst,
}
use allinle.Evaluator.Ends.{evaluate_seven-Stops}
use allinle.Errors.{Stops, out_of_fuel}
use allinle.Cards.{Card}
use allinle.Deck.{deal_cards}
use allinle.Evaluator.{EvaluatedHand, evaluate_seven_cards}
use allinle.Types.{Player, GameState, Street, preflop, flop, turn, river, showdown, PotAllocation}
use allinle.Pot.{sort_numbers, build_side_pots, allocate_side_pots}
use allinle.Game.Seats.{
  find_player, is_contender, scan_seats, first_actionable_seat_after, next_seat, must_act,
}
use allinle.Game.Bets.{refresh_pot}
use allinle.Game.Rounds.{
  Event, Progress, street_fuel, finish_by_fold, deal_board, deal_board_to_five, evaluate_player,
  pay_players, pay_allocations, winner_row, pot_row, settle, pot_player, finish_by_showdown,
  advance_street, is_betting_round_complete, close_round, run_out, normalize_with,
  normalize_after_action, is_river, push_once, game_over, street_changed, no_more_bets,
  street_cards, next_street,
}

pub find_player-Stops : (ps : List Player) (k : ℕ) → Stops (find_player ps k)
unfolding find_player
find_player-Stops ps k = Avoids-or_throw _ _ λ h. cc

deal_cards-Stops : (deck : List Card) (n : ℕ) → Stops (deal_cards deck n)
unfolding deal_cards
deal_cards-Stops deck n = Avoids-guard _ _ _ (λ h. cc) fine

scan_seats-Stops :
    (s : GameState) (seats : List ℕ) (n cursor : ℕ) → Stops (scan_seats s seats n cursor)
unfolding scan_seats
scan_seats-Stops s seats zero cursor = fine
scan_seats-Stops s seats (suc n) cursor =
    Avoids-bind (find_player s.players (next_seat seats cursor)) _
      (find_player-Stops s.players (next_seat seats cursor))
      λ p _.
        Avoids-if (must_act s.current_bet p) _ _ fine
          (scan_seats-Stops s seats n (next_seat seats cursor))

first-Stops : (s : GameState) (k : ℕ) → Stops (first_actionable_seat_after s k)
unfolding first_actionable_seat_after
first-Stops s k =
    let seats = sort_numbers (map (λ (p : Player). p.seat_no) s.players) in
    scan_seats-Stops s seats (length seats) k

deal_board-Stops : (n : ℕ) (s : GameState) → Stops (deal_board n s)
unfolding deal_board
deal_board-Stops zero s = fine
deal_board-Stops (suc n) s =
    Avoids-bind (deal_cards s.deck 1) _ (deal_cards-Stops s.deck 1) λ d _. deal_board-Stops n _

pay_players-Stops : (ds : List (ℕ × ℕ)) (ps : List Player) → Stops (pay_players ds ps)
unfolding pay_players
pay_players-Stops [] ps = fine
pay_players-Stops ((k, a) ∷ ds) ps =
    Avoids-bind (find_player ps k) _ (find_player-Stops ps k) λ _ _. pay_players-Stops ds _

pay_allocations-Stops :
    (as' : List PotAllocation) (ps : List Player) → Stops (pay_allocations as' ps)
unfolding pay_allocations
pay_allocations-Stops [] ps = fine
pay_allocations-Stops (a ∷ as') ps =
    Avoids-bind (pay_players a.payouts ps) _ (pay_players-Stops _ _)
      λ qs _. pay_allocations-Stops as' qs

pot_row-Stops :
    (ps : List Player) (hands : List (ℕ × EvaluatedHand)) (a : PotAllocation)
    → Stops (pot_row ps hands a)
unfolding pot_row winner_row
pot_row-Stops ps hands a =
    Avoids-bind (map_result _ a.winner_seat_nos) _
      (Avoids-map_result _ a.winner_seat_nos
        λ k. Avoids-bind (find_player ps k) _ (find_player-Stops ps k) λ w _. fine)
      λ ws _. fine

settle-Stops : (s : GameState) (hands : List (ℕ × EvaluatedHand)) → Stops (settle s hands)
unfolding settle
settle-Stops s hands =
    let as' =
      allocate_side_pots (build_side_pots (map pot_player s.players))
        (map (λ (h : ℕ × EvaluatedHand). (h.0, h.1.rank_value)) hands) in
    Avoids-bind (pay_allocations as' s.players) _ (pay_allocations-Stops as' s.players) λ qs _.
      Avoids-bind (map_result (pot_row qs hands) as') _
        (Avoids-map_result (pot_row qs hands) as' (pot_row-Stops qs hands)) λ rows _. fine

showdown-Stops : (s : GameState) → Stops (finish_by_showdown s)
unfolding finish_by_showdown deal_board_to_five evaluate_player
showdown-Stops s =
    Avoids-bind (deal_board (5 - length s.board_cards) s) _ (deal_board-Stops _ s) λ t _.
      Avoids-bind (map_result _ (filter is_contender t.players)) _
        (Avoids-map_result _ _ λ p.
          Avoids-bind (evaluate_seven_cards (p.hole_cards ++ t.board_cards)) _
            (evaluate_seven-Stops _) λ h _. fine)
        λ hands _. settle-Stops t hands

run_out-Stops : (s : GameState) (es : List Event) → Stops (run_out s es)
unfolding run_out deal_board_to_five
run_out-Stops s es =
    Avoids-bind (deal_board (5 - length s.board_cards) s) _ (deal_board-Stops _ s)
      λ t _. Avoids-bind (finish_by_showdown t) _ (showdown-Stops t) λ u _. fine

-- The rounds that are left of a hand on a street of play.
abbrev pub streets_left : Street → ℕ
streets_left preflop = 3
streets_left flop = 2
streets_left turn = 1
streets_left river = 0
streets_left showdown = 0

advance_street-street :
    (s t : GameState) → advance_street s ≡ ok t → t.street ≡ next_street s.street
unfolding advance_street
advance_street-street s t e =
    let (d, _, f) = >>=-eq-ok (deal_cards s.deck (street_cards s.street)) _ e in
    let (k, _, g) = >>=-eq-ok (first_actionable_seat_after _ _) _ f in
    ap (λ u. u.street) (sym (ok_injective g))

advance_street-Stops : (s : GameState) → Stops (advance_street s)
unfolding advance_street
advance_street-Stops s =
    Avoids-bind (deal_cards s.deck (street_cards s.street)) _
      (deal_cards-Stops s.deck (street_cards s.street))
      λ d _. Avoids-bind (first_actionable_seat_after _ _) _ (first-Stops _ _) λ k _. fine

close_round-Stops :
    (again : GameState → List Event → Progress) (s : GameState) (k : ℕ) (es : List Event)
    → ((t : GameState) (fs : List Event)
        → t.street ≡ next_street s.street
        → is_river s.street ≡ false
        → Stops (again t fs))
    → Stops (close_round again s k es)
unfolding close_round
close_round-Stops again s k es h =
    Avoids-if (is_betting_round_complete s) _ _
      (Avoids-test (is_river s.street) _ _
        (λ _. Avoids-bind (finish_by_showdown s) _ (showdown-Stops s) λ u _. fine)
        (λ r.
          Avoids-bind (advance_street s) _ (advance_street-Stops s)
            λ t e. turn-Stops t (λ fs. h t fs (advance_street-street s t e) r) t.current_turn_seat))
      (Avoids-bind (first_actionable_seat_after s k) _ (first-Stops s k) λ u _. fine)
  where
    turn-Stops :
        (t : GameState)
        → ((fs : List Event) → Stops (again t fs))
        → (o : Option ℕ)
        → Stops {A = GameState × List Event} (elim o [
          | none ↦ again t (push_once street_changed es)
          | some _ ↦ ok (t, push_once street_changed es)
        ])
    turn-Stops t g none = g _
    turn-Stops t g (some _) = fine

normalize_with-Stops :
    (again : GameState → List Event → Progress) (s : GameState) (k : ℕ) (es : List Event)
    → ((t : GameState) (fs : List Event)
        → t.street ≡ next_street s.street
        → is_river s.street ≡ false
        → Stops (again t fs))
    → Stops (normalize_with again s k es)
unfolding normalize_with refresh_pot
normalize_with-Stops again s k es h = by_contenders (filter is_contender (refresh_pot s).players)
  where
    by_contenders :
        (ws : List Player)
        → Stops {A = GameState × List Event} (elim ws [
          | [] ↦ close_round again (refresh_pot s) k es
          | w ∷ [] ↦ ok (finish_by_fold (refresh_pot s) w, push_once game_over es)
          | w ∷ v ∷ vs ↦
              if every no_more_bets (w ∷ v ∷ vs)
              then run_out (refresh_pot s) es
              else close_round again (refresh_pot s) k es
        ])
    by_contenders [] = close_round-Stops again (refresh_pot s) k es h
    by_contenders (w ∷ []) = fine
    by_contenders (w ∷ v ∷ vs) =
        Avoids-if (every no_more_bets (w ∷ v ∷ vs)) _ _ (run_out-Stops (refresh_pot s) es)
          (close_round-Stops again (refresh_pot s) k es h)

next_street-left :
    (t : Street)
    → t ≢ showdown
    → is_river t ≡ false
    → (next_street t ≢ showdown) × (suc (streets_left (next_street t)) ≡ streets_left t)
next_street-left preflop n r = ((λ e. cc), refl)
next_street-left flop n r = ((λ e. cc), refl)
next_street-left turn n r = ((λ e. cc), refl)
next_street-left river n r = cc
next_street-left showdown n r = ground arith

pub normalize_after_action-Stops :
    (fuel : ℕ) (s : GameState) (k : ℕ) (es : List Event)
    → s.street ≢ showdown
    → streets_left s.street < fuel
    → Stops (normalize_after_action fuel s k es)
unfolding normalize_after_action
normalize_after_action-Stops zero s k es n l = ground arith
normalize_after_action-Stops (suc fuel) s k es n l =
    normalize_with-Stops (λ t fs. normalize_after_action fuel t k fs) s k es
      λ t fs e r.
        let (m, q) = next_street-left s.street n r in
        normalize_after_action-Stops fuel t k fs (λ z. m (sym e ∙ z))
          (subst (λ u. streets_left u < fuel) (sym e) (omega arith))

pub streets_left-fuel : (t : Street) → streets_left t < street_fuel
streets_left-fuel preflop = omega arith
streets_left-fuel flop = omega arith
streets_left-fuel turn = omega arith
streets_left-fuel river = omega arith
streets_left-fuel showdown = omega arith

-- From a state on any street but the showdown, the work after an action never runs out of the fuel
-- `street_fuel`, so the recursion of `normalizeAfterAction` ends: it moves the hand to its next
-- street each time, and a finished river goes to the showdown.
pub normalize_after_action-ends :
    (s : GameState) (seat : ℕ) (events : List Event)
    → s.street ≢ showdown
    → normalize_after_action street_fuel s seat events ≢ err out_of_fuel
normalize_after_action-ends s seat events n =
    Avoids-ne
      (normalize_after_action-Stops street_fuel s seat events n (streets_left-fuel s.street))
