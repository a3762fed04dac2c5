-- ===== src/Game/Rounds/Total.antt =====
-- `applyGameAction` as a whole, and its fuel.
use Prim.Native.String.{String}
use allinle.Prelude.{
  ℕ, zero, suc, ◌+◌, ◌-◌, ◌≡◌, sym, ◌∙◌, ◌≢◌, subst, Bool, true, false, ◌&&◌, ◌||◌, not, [], ◌∷◌,
  ◌++◌, map, some, find, if◌then◌else◌, ltb, leb, ◌==◌, max, min, ok, err, fine, threw, Avoids-ne,
  Avoids-guard, Avoids-bind, Avoids-if,
}
use allinle.Prelude.Int.{pos, negsuc}
use allinle.Errors.{
  Stops, out_of_fuel, hand_not_playable, not_your_turn, identity_mismatch, player_cannot_act,
  bet_already_exists, bet_exceeds_chips, raise_not_greater, raise_exceeds_chips,
  raise_below_minimum, invalid_chip_amount, no_bet_to_raise, no_chips_for_all_in, nothing_to_call,
  cannot_check,
}
use allinle.Types.{Player, GameState, showdown, is_playing}
use allinle.Game.Seats.{at_seat, find_player, can_act}
use allinle.Game.Seats.Players.{find_player-ok, find-at_seat}
use allinle.Game.Legal.{is_turn}
use allinle.Game.Bets.{
  Amount, missing, fractional, integer, ActionInput, Choice, normalize_positive_amount,
  invest_chips, put_player, clear_acted, acted, mark_full_aggression, settle_aggression, apply_fold,
  apply_check, apply_call, apply_bet, apply_raise, apply_all_in, apply_action_mutation,
}
use allinle.Game.Bets.Kept.{KeptBy, KeptBy-ok, apply_action_mutation-Kept}
use allinle.Game.Rounds.{
  normalize_after_action, street_fuel, apply_game_action, users_differ, action_applied,
}
use allinle.Game.Rounds.Ends.{find_player-Stops, normalize_after_action-Stops, streets_left-fuel}

amount-Stops : (a : Amount) → Stops (normalize_positive_amount a)
unfolding normalize_positive_amount
amount-Stops missing = threw λ h. cc
amount-Stops fractional = threw λ h. cc
amount-Stops (integer (negsuc n)) = threw λ h. cc
amount-Stops (integer (pos zero)) = threw λ h. cc
amount-Stops (integer (pos (suc n))) = fine

invest_chips-Stops : (p : Player) (a : ℕ) → Stops (invest_chips p a)
unfolding invest_chips
invest_chips-Stops p a = Avoids-guard (ltb p.chips a) invalid_chip_amount _ (λ h. cc) fine

mark-Stops : (s : GameState) (k : ℕ) → Stops (mark_full_aggression s k)
unfolding mark_full_aggression
mark-Stops s k =
    Avoids-bind (find_player (map clear_acted s.players) k) _
      (find_player-Stops (map clear_acted s.players) k) λ _ _. fine

settle_aggression-Stops :
    (s : GameState) (p : Player) (b : Bool) (m : ℕ) → Stops (settle_aggression s p b m)
unfolding settle_aggression
settle_aggression-Stops s p true m = mark-Stops _ p.seat_no
settle_aggression-Stops s p false m = fine

module _ (s : GameState) (p : Player) (now : String) where
  apply_fold-Stops : Stops (apply_fold s p now)
  unfolding apply_fold
  apply_fold-Stops = fine

  apply_check-Stops : Stops (apply_check s p now)
  unfolding apply_check
  apply_check-Stops = Avoids-guard _ cannot_check _ (λ h. cc) fine

  apply_call-Stops : Stops (apply_call s p now)
  unfolding apply_call
  apply_call-Stops =
      let a = min p.chips (s.current_bet - p.invested_this_street) in
      Avoids-guard _ nothing_to_call _ (λ h. cc)
        (Avoids-bind (invest_chips p a) _ (invest_chips-Stops p a) λ q _. fine)

  apply_bet-Stops : (a : Amount) → Stops (apply_bet s p a now)
  unfolding apply_bet
  apply_bet-Stops a = Avoids-bind (normalize_positive_amount a) _ (amount-Stops a) λ n _.
      Avoids-guard (not (s.current_bet == 0)) bet_already_exists _ (λ h. cc)
        (Avoids-guard (ltb p.chips n) bet_exceeds_chips _ (λ h. cc)
          (Avoids-bind (invest_chips p n) _ (invest_chips-Stops p n) λ q _.
            let t : GameState = record (put_player s q) {
              current_bet = q.invested_this_street;
              min_raise = n;
            } in
            Avoids-bind (mark_full_aggression t q.seat_no) _ (mark-Stops t q.seat_no) λ _ _. fine))

  apply_raise-Stops : (a : Amount) → Stops (apply_raise s p a now)
  unfolding apply_raise
  apply_raise-Stops a =
      Avoids-guard (s.current_bet == 0) no_bet_to_raise _ (λ h. cc)
        (Avoids-bind (normalize_positive_amount a) _ (amount-Stops a) λ to _.
          let size = to - s.current_bet in
          let more = to - p.invested_this_street in
          Avoids-guard (leb to s.current_bet) raise_not_greater _ (λ h. cc)
            (Avoids-guard (ltb (p.invested_this_street + p.chips) to) raise_exceeds_chips _
              (λ h. cc)
              (Avoids-guard (ltb size s.min_raise && not (more == p.chips)) raise_below_minimum _
                (λ h. cc)
                (Avoids-guard (ltb to p.invested_this_street) invalid_chip_amount _ (λ h. cc)
                  (Avoids-bind (invest_chips p more) _ (invest_chips-Stops p more) λ q _.
                    Avoids-bind
                      (settle_aggression (record s { current_bet = to }) q (leb s.min_raise size)
                        size)
                      _
                      (settle_aggression-Stops (record s { current_bet = to }) q
                        (leb s.min_raise size) size)
                      λ _ _. fine)))))

  apply_all_in-Stops : Stops (apply_all_in s p now)
  unfolding apply_all_in
  apply_all_in-Stops =
      let total = p.invested_this_street + p.chips in
      let full = (total == p.chips) || leb s.min_raise (total - s.current_bet) in
      let size = max s.min_raise (total - s.current_bet) in
      Avoids-guard (p.chips == 0) no_chips_for_all_in _ (λ h. cc)
        (Avoids-bind (invest_chips p p.chips) _ (invest_chips-Stops p p.chips) λ q _.
          Avoids-bind
            (if ltb s.current_bet total
              then settle_aggression (record s { current_bet = total }) q full size
              else ok (put_player s (acted q)))
            _
            (Avoids-if (ltb s.current_bet total) _ _
              (settle_aggression-Stops (record s { current_bet = total }) q full size) fine)
            λ _ _. fine)

  apply_action_mutation-Stops : (input : ActionInput) → Stops (apply_action_mutation s p input now)
  unfolding apply_action_mutation
  apply_action_mutation-Stops input = by_choice input.action_type
    where
      by_choice :
          (c : Choice)
          → Stops (elim c [
            | Choice.fold ↦ apply_fold s p now
            | Choice.check ↦ apply_check s p now
            | Choice.call ↦ apply_call s p now
            | Choice.bet ↦ apply_bet s p input.amount now
            | Choice.raise ↦ apply_raise s p input.amount now
            | Choice.all_in ↦ apply_all_in s p now
          ])
      by_choice Choice.fold = apply_fold-Stops
      by_choice Choice.check = apply_check-Stops
      by_choice Choice.call = apply_call-Stops
      by_choice Choice.bet = apply_bet-Stops input.amount
      by_choice Choice.raise = apply_raise-Stops input.amount
      by_choice Choice.all_in = apply_all_in-Stops

-- An action in a state on any street but the showdown, whether it is accepted or refused, does not
-- run out of the fuel `street_fuel`: the work after it ends.
pub apply_game_action-ends :
    (s : GameState) (input : ActionInput) (now : String)
    → s.street ≢ showdown
    → apply_game_action s input now ≢ err out_of_fuel
unfolding apply_game_action
apply_game_action-ends s input now n = Avoids-ne whole
  where
    whole : Stops (apply_game_action s input now)
    whole =
        Avoids-bind (find_player s.players input.seat_no) _
          (find_player-Stops s.players input.seat_no)
          λ p f.
            let seat : p.seat_no ≡ input.seat_no =
              find-at_seat input.seat_no s.players p (find_player-ok s.players input.seat_no p f) in
            let found =
              subst (λ k. find (at_seat k) s.players ≡ some p) (sym seat)
                (find_player-ok s.players input.seat_no p f) in
            Avoids-guard (not (is_playing s.status)) hand_not_playable _ (λ h. cc)
              (Avoids-guard (not (is_turn s.current_turn_seat input.seat_no)) not_your_turn _
                (λ h. cc)
                (Avoids-guard (users_differ p.user_id input.user_id) identity_mismatch _ (λ h. cc)
                  (Avoids-guard (not (can_act p)) player_cannot_act _ (λ h. cc)
                    (Avoids-bind (apply_action_mutation s p input now) _
                      (apply_action_mutation-Stops s p now input)
                      λ done g.
                        let kept =
                          KeptBy-ok
                            (subst (KeptBy s) g (apply_action_mutation-Kept s p now found input)) in
                        let changed : GameState = record (done.0) {
                          action_history = done.0.action_history ++ done.1 ∷ [];
                          updated_at = now;
                        } in
                        Avoids-bind
                          (normalize_after_action street_fuel changed input.seat_no
                            (action_applied ∷ []))
                          _
                          (normalize_after_action-Stops street_fuel changed input.seat_no
                            (action_applied ∷ []) (λ z. n (sym kept.same_street ∙ z))
                            (streets_left-fuel _))
                          λ final _. fine))))
