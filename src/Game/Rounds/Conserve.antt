-- ===== src/Game/Rounds/Conserve.antt =====
-- The chips of a hand before and after an action.
use Prim.Native.String.{String}
use allinle.Prelude.{
  ℕ, zero, suc, ◌+◌, ◌-◌, ◌≡◌, refl, sym, ap, ◌∙◌, subst, false, not, List, [], ◌∷◌, ◌++◌, map,
  Option, none, some, ==_refl, arith, find, filter, length, every, if◌then◌else◌, Bool-cases, ok,
  ◌>>=◌, >>=-eq-ok, ok_injective, map_result, inl, inr, Ensures, good, failed, Ensures-guard,
  Ensures-bind, Ensures-value, Ensures-if,
}
use allinle.Prelude.Sorted.{Distinct, sum_of-add}
use allinle.Errors.{hand_not_playable, not_your_turn, identity_mismatch, player_cannot_act}
use allinle.Deck.{deal_cards}
use allinle.Evaluator.{EvaluatedHand}
use allinle.Types.{
  Player, GameState, GameStatus, playing, hand_finished, room_finished, WinnerInfo, WinReason,
  all_others_folded, by_showdown, is_playing,
}
use allinle.Pot.{build_side_pots, allocate_side_pots}
use allinle.Game.Seats.{
  at_seat, find_player, total_invested, is_contender, can_act, first_actionable_seat_after,
}
use allinle.Game.Seats.Players.{
  seats_of, stake, stakes, chips_in_hand, seats_of-map, sum_of-map, find_player-ok, find-at_seat,
}
use allinle.Game.Legal.{is_turn}
use allinle.Game.Bets.{ActionInput, apply_action_mutation, refresh_pot}
use allinle.Game.Bets.Kept.{KeptBy, KeptBy-ok, apply_action_mutation-Kept}
use allinle.Game.Rounds.{
  Event, Progress, ActionResult, pot_player, finish_by_fold, deal_board, deal_board_to_five,
  evaluate_player, pay_allocations, pot_row, settle, finish_by_showdown, new_street, advance_street,
  close_round, run_out, normalize_with, normalize_after_action, apply_game_action, users_differ,
  street_fuel, action_applied, push_once, game_over, street_changed, no_more_bets, street_cards,
}
use allinle.Game.Rounds.Payout.{
  stranded, stranded_in, stranded_split, pot_seats, give-chips, pay_allocations-chips, sum-payouts,
  hands-Ranked,
}

abbrev pub lost_by : WinReason → List Player → ℕ
lost_by all_others_folded ps = 0
lost_by by_showdown ps = stranded ps

abbrev pub lost : Option WinnerInfo → List Player → ℕ
lost none ps = 0
lost (some w) ps = lost_by w.reason ps

-- The chips that a state accounts for: those in hand, with those in the pot while the hand is played,
-- and with those that its showdown stranded.
abbrev pub accounted_by : GameStatus → GameState → ℕ
accounted_by playing t = stakes t.players
accounted_by hand_finished t = chips_in_hand t.players + lost t.winner_info t.players
accounted_by room_finished t = chips_in_hand t.players + lost t.winner_info t.players

abbrev pub accounted : GameState → ℕ
accounted t = accounted_by t.status t

pub stakes_split : (ps : List Player) → stakes ps ≡ chips_in_hand ps + total_invested ps
unfolding total_invested
stakes_split ps = sum_of-add _ _ ps

filter_head-found :
    (ps : List Player) (w : Player) (ws : List Player)
    → filter is_contender ps ≡ w ∷ ws
    → (p : Player) × (find (at_seat w.seat_no) ps ≡ some p)
filter_head-found [] w ws e = cc
filter_head-found (p ∷ ps) w ws e = elim (Bool-cases (at_seat w.seat_no p)) [
  | inl f ↦ (p, rw f)
  | inr f ↦
      let (q, g) = filter_head-found ps w ws (ground (arith, ==_refl w.seat_no)) in (q, rw f g)
]

fold-accounted :
    (s : GameState) (w : Player) (ws : List Player)
    → filter is_contender s.players ≡ w ∷ ws
    → s.pot ≡ total_invested s.players
    → accounted (finish_by_fold s w) ≡ stakes s.players
unfolding finish_by_fold
fold-accounted s w ws e h =
    let (p, f) = filter_head-found s.players w ws e in
    omega (arith, give-chips w.seat_no s.pot s.players p f, stakes_split s.players)

settle-accounted :
    (s : GameState) (hands : List (ℕ × EvaluatedHand))
    → Distinct (seats_of s.players)
    → map_result (evaluate_player s.board_cards) (filter is_contender s.players) ≡ ok hands
    → Ensures (λ t. accounted t ≡ stakes s.players) (settle s hands)
unfolding settle
settle-accounted s hands d e =
    let pots = map pot_player s.players in
    let ranks : List (ℕ × ℕ) = map (λ h. (h.0, h.1.rank_value)) hands in
    let allocations = allocate_side_pots (build_side_pots pots) ranks in
    Ensures-bind (pay_allocations allocations s.players) _ λ qs f.
      Ensures-bind (map_result (pot_row qs hands) allocations) _ λ rows _.
        let (paid, same) = pay_allocations-chips allocations s.players qs f in
        good (
          omega (
            arith,
            paid,
            ap stranded_in same,
            sum-payouts ranks pots (rw (pot_seats s.players) d)
                (hands-Ranked s.board_cards s.players hands e),
            stranded_split s.players,
            stakes_split s.players,
          ))

deal_board-players : (n : ℕ) (s t : GameState) → deal_board n s ≡ ok t → t.players ≡ s.players
unfolding deal_board
deal_board-players zero s t e = ap (λ u. u.players) (sym (ok_injective e))
deal_board-players (suc n) s t e =
    let (d, f, g) = >>=-eq-ok (deal_cards s.deck 1) _ e in deal_board-players n _ t g

showdown-accounted :
    (s : GameState)
    → Distinct (seats_of s.players)
    → Ensures (λ t. accounted t ≡ stakes s.players) (finish_by_showdown s)
unfolding finish_by_showdown deal_board_to_five
showdown-accounted s d = Ensures-bind (deal_board (5 - length s.board_cards) s) _ λ t e.
    Ensures-bind (map_result (evaluate_player t.board_cards) (filter is_contender t.players)) _
      λ hands f.
        let same = deal_board-players (5 - length s.board_cards) s t e in
        subst (λ ps. Ensures (λ u. accounted u ≡ stakes ps) (settle t hands)) same
          (settle-accounted t hands (rw same d) f)

-- The end of a betting round leaves the stakes, the seats and the status of the hand.
abbrev Moved : GameState → GameState → Type 0
Moved s t =
    (stakes t.players ≡ stakes s.players)
    × (seats_of t.players ≡ seats_of s.players)
    × (t.status ≡ s.status)

advance_street-Moved : (s : GameState) → Ensures (Moved s) (advance_street s)
unfolding advance_street
advance_street-Moved s = Ensures-bind (deal_cards s.deck (street_cards s.street)) _ λ dealt _.
    Ensures-bind (first_actionable_seat_after _ _) _ λ seat _. good (
      sum_of-map new_street stake (λ _. refl) s.players,
      seats_of-map new_street (λ _. refl) s.players,
      refl,
    )

abbrev pub Accounts : ℕ → GameState × List Event → Type 0
Accounts n (t, _) = accounted t ≡ n

abbrev pub Continues : (GameState → List Event → Progress) → Type 0
Continues again =
    (s : GameState) (es : List Event)
    → s.status ≡ playing
    → Distinct (seats_of s.players)
    → Ensures (Accounts (stakes s.players)) (again s es)

run_out-accounted :
    (s : GameState) (es : List Event)
    → Distinct (seats_of s.players)
    → Ensures (Accounts (stakes s.players)) (run_out s es)
unfolding run_out deal_board_to_five
run_out-accounted s es d = Ensures-bind (deal_board (5 - length s.board_cards) s) _ λ t e.
    Ensures-bind (finish_by_showdown t) _ λ u f.
      let same = deal_board-players (5 - length s.board_cards) s t e in
      good (Ensures-value (showdown-accounted t (rw same d)) f ∙ ap stakes same)

module _ (again : GameState → List Event → Progress) (continues : Continues again) (from : ℕ) where
  close_round-accounted :
      (s : GameState) (es : List Event)
      → s.status ≡ playing
      → Distinct (seats_of s.players)
      → Ensures (Accounts (stakes s.players)) (close_round again s from es)
  unfolding close_round
  close_round-accounted s es p d = Ensures-if _ _ _ (Ensures-if _ _ _ ended turned) next_player
    where
      to_act :
          (t : GameState)
          → Moved s t
          → (o : Option ℕ)
          → Ensures (Accounts (stakes s.players)) (elim o [
            | none ↦ again t (push_once street_changed es)
            | some _ ↦ ok (t, push_once street_changed es)
          ])
      to_act t m none =
          subst (λ n. Ensures (Accounts n) (again t (push_once street_changed es))) m.0
            (continues t _ (m.2 ∙ p) (rw m.1 d))
      to_act t m (some _) = good (rw (m.2 ∙ p) m.0)

      ended :
          Ensures
            (Accounts (stakes s.players))
            (finish_by_showdown s >>= λ t. ok (t, push_once game_over es))
      ended =
          Ensures-bind (finish_by_showdown s) _
            λ t e. good (Ensures-value (showdown-accounted s d) e)

      turned : Ensures (Accounts (stakes s.players)) (
          advance_street s >>= λ t. elim t.current_turn_seat [
            | none ↦ again t (push_once street_changed es)
            | some _ ↦ ok (t, push_once street_changed es)
          ])
      turned =
          Ensures-bind (advance_street s) _
            λ t e. to_act t (Ensures-value (advance_street-Moved s) e) t.current_turn_seat

      next_player : Ensures (Accounts (stakes s.players)) (
          first_actionable_seat_after s from >>= λ seat.
          ok (record s { current_turn_seat = seat }, es))
      next_player = Ensures-bind (first_actionable_seat_after s from) _ λ seat _. good (rw p refl)

  normalize_with-accounted :
      (s : GameState) (es : List Event)
      → s.status ≡ playing
      → Distinct (seats_of s.players)
      → Ensures (Accounts (stakes s.players)) (normalize_with again s from es)
  unfolding normalize_with refresh_pot
  normalize_with-accounted s es p d = by_contenders (filter is_contender s.players) refl
    where
      by_contenders :
          (cs : List Player)
          → filter is_contender s.players ≡ cs
          → Ensures (Accounts (stakes s.players)) (elim cs [
            | [] ↦ close_round again (refresh_pot s) from es
            | w ∷ [] ↦ ok (finish_by_fold (refresh_pot s) w, push_once game_over es)
            | w ∷ v ∷ ws ↦
                if every no_more_bets (w ∷ v ∷ ws)
                then run_out (refresh_pot s) es
                else close_round again (refresh_pot s) from es
          ])
      by_contenders [] e = close_round-accounted (refresh_pot s) es p d
      by_contenders (w ∷ []) e = good (fold-accounted (refresh_pot s) w [] e refl)
      by_contenders (w ∷ v ∷ ws) e =
          Ensures-if _ _ _ (run_out-accounted (refresh_pot s) es d)
            (close_round-accounted (refresh_pot s) es p d)

pub normalize-accounted :
    (fuel : ℕ) (from : ℕ) → Continues (λ s es. normalize_after_action fuel s from es)
unfolding normalize_after_action
normalize-accounted zero from s es p d = failed
normalize-accounted (suc fuel) from s es p d =
    normalize_with-accounted _ (normalize-accounted fuel from) from s es p d

-- An action that succeeds, in a hand whose players sit at different seats, neither makes chips nor
-- loses any, but for those that its showdown strands: the chips in hand and in the pot before it are
-- those that the state after it accounts for.
pub apply_game_action-accounted :
    (s : GameState) (input : ActionInput) (now : String) (r : ActionResult)
    → Distinct (seats_of s.players)
    → apply_game_action s input now ≡ ok r
    → accounted r.state ≡ stakes s.players
unfolding apply_game_action
apply_game_action-accounted s input now r d e = Ensures-value whole e
  where
    status_playing : (t : GameStatus) → not (is_playing t) ≡ false → t ≡ playing
    status_playing playing h = refl
    status_playing hand_finished h = cc
    status_playing room_finished h = cc

    acted :
        (p : Player)
        → find_player s.players input.seat_no ≡ ok p
        → s.status ≡ playing
        → Ensures
            (λ (r : ActionResult). accounted r.state ≡ stakes s.players)
            (apply_action_mutation s p input now >>= λ done.
              normalize_after_action street_fuel
                (record (done.0) {
                  action_history = done.0.action_history ++ done.1 ∷ [];
                  updated_at = now;
                })
                input.seat_no
                (action_applied ∷ [])
              >>= λ final.
                  ok (record { state = final.0; applied_action = done.1; events = final.1 }))
    acted p f st = Ensures-bind (apply_action_mutation s p input now) _ λ done g.
        Ensures-bind (normalize_after_action street_fuel _ input.seat_no (action_applied ∷ [])) _
          λ final h.
            let at : p.seat_no ≡ input.seat_no =
              find-at_seat input.seat_no s.players p (find_player-ok s.players input.seat_no p f) in
            let kept = KeptBy-ok (
              subst (KeptBy s) g (
                apply_action_mutation-Kept s p now
                  (subst (λ k. find (at_seat k) s.players ≡ some p) (sym at)
                    (find_player-ok s.players input.seat_no p f))
                  input)) in
            good (
              Ensures-value
                (normalize-accounted street_fuel input.seat_no _ _ (kept.same_status ∙ st)
                  (rw kept.same_seats d))
                h
              ∙ kept.same_stakes)

    whole :
        Ensures
          (λ (r : ActionResult). accounted r.state ≡ stakes s.players)
          (apply_game_action s input now)
    whole = Ensures-bind (find_player s.players input.seat_no) _ λ p f.
        Ensures-guard (not (is_playing s.status)) hand_not_playable _ λ st.
          Ensures-guard (not (is_turn s.current_turn_seat input.seat_no)) not_your_turn _ λ _.
            Ensures-guard (users_differ p.user_id input.user_id) identity_mismatch _ λ _.
              Ensures-guard (not (can_act p)) player_cannot_act _
                λ _. acted p f (status_playing s.status st)
