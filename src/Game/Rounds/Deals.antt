-- ===== src/Game/Rounds/Deals.antt =====
-- The cards of a hand before and after an action.
use Prim.Native.String.{String}
use mathlib.Core.List.{append_assoc}
use allinle.Prelude.{
  ℕ, zero, suc, ◌-◌, ◌≡◌, refl, sym, ap, ap₂, ◌∙◌, subst, not, List, [], ◌∷◌, ◌++◌, map, Option,
  none, some, find, filter, length, every, if◌then◌else◌, Result, ok, err, map_result, Ensures,
  good, failed, Ensures-value, Ensures-guard, Ensures-bind, Ensures-if,
}
use allinle.Errors.{
  PokerError, hand_not_playable, not_your_turn, identity_mismatch, player_cannot_act,
}
use allinle.Cards.{Card}
use allinle.Deck.{deal_cards, Dealt}
use allinle.Deck.Laws.{deal_cards-splits}
use allinle.Evaluator.{EvaluatedHand}
use allinle.Types.{Player, GameState, PotAllocation, is_playing}
use allinle.Pot.{build_side_pots, allocate_side_pots}
use allinle.Game.Seats.{
  at_seat, find_player, update_player, is_contender, can_act, first_actionable_seat_after,
}
use allinle.Game.Seats.Players.{
  hands_of, hands_of-update_player, hands_of-map, find_player-ok, find-at_seat,
}
use allinle.Game.Legal.{is_turn}
use allinle.Game.Bets.{ActionInput, apply_action_mutation, refresh_pot}
use allinle.Game.Bets.Kept.{ids_of, KeptBy, KeptBy-ok, apply_action_mutation-Kept}
use allinle.Game.Rounds.{
  Event, Progress, ActionResult, action_applied, game_over, street_changed, push_once, give,
  new_street, finish_by_fold, deal_board, deal_board_to_five, evaluate_player, pay_players,
  pay_allocations, pot_player, pot_row, settle, finish_by_showdown, advance_street,
  is_betting_round_complete, close_round, run_out, normalize_with, normalize_after_action,
  no_more_bets, is_river, street_cards, users_differ, street_fuel, apply_game_action,
}

-- The board, and behind it the deck.
abbrev pub pile : GameState → List Card
pile s = s.board_cards ++ s.deck

pub record SameCards (s t : GameState) : Type 0 where
  pub same_pile : pile t ≡ pile s
  pub same_hands : hands_of t.players ≡ hands_of s.players
  pub same_ids : ids_of t ≡ ids_of s

SameCards-trans : (s t u : GameState) → SameCards s t → SameCards t u → SameCards s u
SameCards-trans s t u h k = record {
  same_pile = k.same_pile ∙ h.same_pile;
  same_ids = k.same_ids ∙ h.same_ids;
  same_hands = k.same_hands ∙ h.same_hands;
}

pile-dealt :
    (board deck : List Card) (n : ℕ) (d : Dealt)
    → deal_cards deck n ≡ ok d
    → (board ++ d.cards) ++ d.deck ≡ board ++ deck
pile-dealt board deck n d e =
    append_assoc board d.cards d.deck ∙ ap (λ cs. board ++ cs) ((deal_cards-splits deck n d e).0)

Ensures-after :
    (s t : GameState)
    → SameCards s t
    → (m : Result PokerError GameState) → Ensures (SameCards t) m
    → Ensures (SameCards s) m
Ensures-after s t h (ok u) (good k) = good (SameCards-trans s t u h k)
Ensures-after s t h (err e) failed = failed

deal_board-SameCards : (n : ℕ) (s : GameState) → Ensures (SameCards s) (deal_board n s)
unfolding deal_board
deal_board-SameCards zero s = good (record { same_pile = refl; same_ids = refl; same_hands = refl })
deal_board-SameCards (suc n) s = Ensures-bind (deal_cards s.deck 1) _ λ d e.
    let next : GameState = record s { deck = d.deck; board_cards = s.board_cards ++ d.cards } in
    Ensures-after s next
      (record {
        same_pile = pile-dealt s.board_cards s.deck 1 d e;
        same_ids = refl;
        same_hands = refl;
      })
      (deal_board n next) (deal_board-SameCards n next)

pay_players-hands :
    (ds : List (ℕ × ℕ)) (ps : List Player)
    → Ensures (λ qs. hands_of qs ≡ hands_of ps) (pay_players ds ps)
unfolding pay_players
pay_players-hands [] ps = good refl
pay_players-hands ((k, a) ∷ ds) ps = Ensures-bind (find_player ps k) _ λ p _.
    subst (λ hs. Ensures (λ qs. hands_of qs ≡ hs) (pay_players ds (update_player k (give a) ps)))
      (hands_of-update_player k (give a) ps (λ _. refl))
      (pay_players-hands ds (update_player k (give a) ps))

pay_allocations-hands :
    (as' : List PotAllocation) (ps : List Player)
    → Ensures (λ qs. hands_of qs ≡ hands_of ps) (pay_allocations as' ps)
unfolding pay_allocations
pay_allocations-hands [] ps = good refl
pay_allocations-hands (a ∷ as') ps = Ensures-bind (pay_players a.payouts ps) _ λ qs e.
    subst (λ hs. Ensures (λ rs. hands_of rs ≡ hs) (pay_allocations as' qs))
      (Ensures-value (pay_players-hands a.payouts ps) e) (pay_allocations-hands as' qs)

settle-SameCards :
    (s : GameState) (hands : List (ℕ × EvaluatedHand)) → Ensures (SameCards s) (settle s hands)
unfolding settle
settle-SameCards s hands =
    let as' =
      allocate_side_pots (build_side_pots (map pot_player s.players))
        (map (λ (h : ℕ × EvaluatedHand). (h.0, h.1.rank_value)) hands) in
    Ensures-bind (pay_allocations as' s.players) _ λ qs e.
      Ensures-bind (map_result (pot_row qs hands) as') _ λ rows _. good (record {
        same_pile = refl;
        same_ids = refl;
        same_hands = Ensures-value (pay_allocations-hands as' s.players) e;
      })

finish_by_showdown-SameCards : (s : GameState) → Ensures (SameCards s) (finish_by_showdown s)
unfolding finish_by_showdown deal_board_to_five
finish_by_showdown-SameCards s = Ensures-bind (deal_board (5 - length s.board_cards) s) _ λ t e.
    Ensures-bind (map_result (evaluate_player t.board_cards) (filter is_contender t.players)) _
      λ hands _.
        Ensures-after s t (Ensures-value (deal_board-SameCards (5 - length s.board_cards) s) e)
          (settle t hands) (settle-SameCards t hands)

finish_by_fold-SameCards : (s : GameState) (w : Player) → SameCards s (finish_by_fold s w)
unfolding finish_by_fold
finish_by_fold-SameCards s w = record {
  same_pile = refl;
  same_ids = refl;
  same_hands = hands_of-update_player w.seat_no (give s.pot) s.players (λ _. refl);
}

advance_street-SameCards : (s : GameState) → Ensures (SameCards s) (advance_street s)
unfolding advance_street
advance_street-SameCards s = Ensures-bind (deal_cards s.deck (street_cards s.street)) _ λ d e.
    Ensures-bind (first_actionable_seat_after _ _) _ λ k _. good (record {
      same_pile = pile-dealt s.board_cards s.deck (street_cards s.street) d e;
      same_ids = refl;
      same_hands = hands_of-map new_street (λ _. refl) s.players;
    })

-- The state that the work after an action ends with.
abbrev pub KeepsCards : GameState → Progress → Type 0
KeepsCards s m = Ensures (λ (r : GameState × List Event). SameCards s (r.0)) m

KeepsCards-after :
    (s t : GameState) → SameCards s t → (m : Progress) → KeepsCards t m → KeepsCards s m
KeepsCards-after s t h (ok r) (good k) = good (SameCards-trans s t (r.0) h k)
KeepsCards-after s t h (err e) failed = failed

run_out-KeepsCards : (s : GameState) (es : List Event) → KeepsCards s (run_out s es)
unfolding run_out deal_board_to_five
run_out-KeepsCards s es = Ensures-bind (deal_board (5 - length s.board_cards) s) _ λ t e.
    Ensures-bind (finish_by_showdown t) _ λ u f. good (
      SameCards-trans s t u (Ensures-value (deal_board-SameCards (5 - length s.board_cards) s) e)
        (Ensures-value (finish_by_showdown-SameCards t) f))

module _ (again : GameState → List Event → Progress)
    (kept : (s : GameState) (es : List Event) → KeepsCards s (again s es)) where
  close_round-KeepsCards :
      (s : GameState) (k : ℕ) (es : List Event) → KeepsCards s (close_round again s k es)
  unfolding close_round
  close_round-KeepsCards s k es =
      Ensures-if (is_betting_round_complete s) _ _
        (Ensures-if (is_river s.street) _ _
          (Ensures-bind (finish_by_showdown s) _
            λ u e. good (Ensures-value (finish_by_showdown-SameCards s) e))
          (Ensures-bind (advance_street s) _
            λ t e. by_turn t (Ensures-value (advance_street-SameCards s) e) t.current_turn_seat))
        (Ensures-bind (first_actionable_seat_after s k) _
          λ u _. good (record { same_pile = refl; same_ids = refl; same_hands = refl }))
    where
      by_turn :
          (t : GameState)
          → SameCards s t
          → (o : Option ℕ)
          → KeepsCards s (elim o [
            | none ↦ again t (push_once street_changed es)
            | some _ ↦ ok (t, push_once street_changed es)
          ])
      by_turn t h none =
          KeepsCards-after s t h (again t (push_once street_changed es))
            (kept t (push_once street_changed es))
      by_turn t h (some _) = good h

  normalize_with-KeepsCards :
      (s : GameState) (k : ℕ) (es : List Event) → KeepsCards s (normalize_with again s k es)
  unfolding normalize_with refresh_pot
  normalize_with-KeepsCards s k es =
      KeepsCards-after s (refresh_pot s)
        (record { same_pile = refl; same_ids = refl; same_hands = refl }) _
        (by_contenders (filter is_contender (refresh_pot s).players))
    where
      by_contenders :
          (ws : List Player)
          → KeepsCards (refresh_pot s) (elim ws [
            | [] ↦ close_round again (refresh_pot s) k es
            | w ∷ [] ↦ ok (finish_by_fold (refresh_pot s) w, push_once game_over es)
            | w ∷ v ∷ vs ↦
                if every no_more_bets (w ∷ v ∷ vs)
                then run_out (refresh_pot s) es
                else close_round again (refresh_pot s) k es
          ])
      by_contenders [] = close_round-KeepsCards (refresh_pot s) k es
      by_contenders (w ∷ []) = good (finish_by_fold-SameCards (refresh_pot s) w)
      by_contenders (w ∷ v ∷ vs) =
          Ensures-if (every no_more_bets (w ∷ v ∷ vs)) _ _ (run_out-KeepsCards (refresh_pot s) es)
            (close_round-KeepsCards (refresh_pot s) k es)

pub normalize_after_action-KeepsCards :
    (fuel : ℕ) (k : ℕ) (s : GameState) (es : List Event)
    → KeepsCards s (normalize_after_action fuel s k es)
unfolding normalize_after_action
normalize_after_action-KeepsCards zero k s es = failed
normalize_after_action-KeepsCards (suc fuel) k s es =
    normalize_with-KeepsCards (λ t fs. normalize_after_action fuel t k fs)
      (normalize_after_action-KeepsCards fuel k) s k es

-- An action that succeeds leaves every player's seat and hole cards alone, and the board followed by the deck
-- is the same list of cards as before; the room and the hand keep their identifiers.
pub apply_game_action-SameCards :
    (s : GameState) (input : ActionInput) (now : String) (r : ActionResult)
    → apply_game_action s input now ≡ ok r
    → SameCards s r.state
unfolding apply_game_action
apply_game_action-SameCards s input now r e = Ensures-value whole e
  where
    whole : Ensures (λ (r : ActionResult). SameCards s r.state) (apply_game_action s input now)
    whole = Ensures-bind (find_player s.players input.seat_no) _ λ p f.
        let seat =
          find-at_seat input.seat_no s.players p (find_player-ok s.players input.seat_no p f) in
        let found =
          subst (λ k. find (at_seat k) s.players ≡ some p) (sym seat)
            (find_player-ok s.players input.seat_no p f) in
        Ensures-guard (not (is_playing s.status)) hand_not_playable _ λ _.
          Ensures-guard (not (is_turn s.current_turn_seat input.seat_no)) not_your_turn _ λ _.
            Ensures-guard (users_differ p.user_id input.user_id) identity_mismatch _ λ _.
              Ensures-guard (not (can_act p)) player_cannot_act _ λ _.
                Ensures-bind (apply_action_mutation s p input now) _ λ done g.
                  let kept =
                    KeptBy-ok
                      (subst (KeptBy s) g (apply_action_mutation-Kept s p now found input)) in
                  let changed : GameState = record (done.0) {
                    action_history = done.0.action_history ++ done.1 ∷ [];
                    updated_at = now;
                  } in
                  Ensures-bind
                    (normalize_after_action street_fuel changed input.seat_no (action_applied ∷ []))
                    _
                    λ final h. good (
                      SameCards-trans s changed (final.0)
                        (record {
                          same_pile = ap₂ ◌++◌ kept.same_board kept.same_deck;
                          same_ids = kept.same_ids;
                          same_hands = kept.same_hands;
                        })
                        (Ensures-value
                          (normalize_after_action-KeepsCards street_fuel input.seat_no changed
                            (action_applied ∷ []))
                          h))
