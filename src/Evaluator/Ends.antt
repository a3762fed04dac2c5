-- ===== src/Evaluator/Ends.antt =====
-- The fuel of the evaluator.
use allinle.Prelude.{
  ℕ, Bool, ◌&&◌, not, List, [], ◌∷◌, Option, none, some, find, ◌==◌, Result, or_throw, map_result,
  fine, Avoids-or_throw, Avoids-guard, Avoids-bind, Avoids-if, Avoids-map_result,
}
use allinle.Errors.{Stops, PokerError, missing_group}
use allinle.Cards.{Card}
use allinle.Evaluator.{
  EvaluatedHand, Group, four_hand, pair_hand, lower_hand, evaluate_five_cards, evaluate_seven_cards,
  combinations, with_count, card_values, group_ranks, is_flush, or_zero, get_straight_high,
}

four_hand-Stops : (cards : List Card) (gs : List Group) (r : ℕ) → Stops (four_hand cards gs r)
unfolding four_hand
four_hand-Stops cards gs r =
    Avoids-bind (or_throw (find (λ (g : Group). not (g.rank == r)) gs) missing_group) _
      (Avoids-or_throw _ _ λ h. cc) λ k _. fine

pair_hand-Stops :
    (cards : List Card) (vs : List ℕ) (gs : List Group) (ps : List ℕ)
    → Stops (pair_hand cards vs gs ps)
unfolding pair_hand
pair_hand-Stops cards vs gs [] = fine
pair_hand-Stops cards vs gs (p ∷ []) = fine
pair_hand-Stops cards vs gs (p ∷ q ∷ []) =
    Avoids-bind (or_throw (with_count 1 gs) missing_group) _ (Avoids-or_throw _ _ λ h. cc)
      λ k _. fine
pair_hand-Stops cards vs gs (p ∷ q ∷ s ∷ r) = fine

lower_hand-Stops :
    (cards : List Card) (vs : List ℕ) (gs : List Group) (fl : Bool) (high : ℕ) (t p : Option Group)
    → Stops (lower_hand cards vs gs fl high t p)
unfolding lower_hand
lower_hand-Stops cards vs gs fl high (some t) (some p) = fine
lower_hand-Stops cards vs gs fl high (some t) none =
    Avoids-if fl _ _ fine (Avoids-if (not (high == 0)) _ _ fine fine)
lower_hand-Stops cards vs gs fl high none p =
    Avoids-if fl _ _ fine (Avoids-if (not (high == 0)) _ _ fine (pair_hand-Stops cards vs gs _))

by_four-Stops :
    (cards : List Card) (gs : List Group) (four : Option Group)
    (rest : Result PokerError EvaluatedHand)
    → Stops rest
    → Stops (elim four [ some f ↦ four_hand cards gs f.rank | none ↦ rest ])
by_four-Stops cards gs (some f) rest h = four_hand-Stops cards gs f.rank
by_four-Stops cards gs none rest h = h

evaluate_five-Stops : (cards : List Card) → Stops (evaluate_five_cards cards)
unfolding evaluate_five_cards
evaluate_five-Stops cards =
    let vs = card_values cards in
    let gs = group_ranks vs in
    let fl = is_flush cards in
    let high = or_zero (get_straight_high vs) in
    Avoids-if (fl && (high == 14)) _ _ fine (
      Avoids-if (fl && not (high == 0)) _ _ fine (
        by_four-Stops cards gs (with_count 4 gs) _
          (lower_hand-Stops cards vs gs fl high (with_count 3 gs) (with_count 2 gs))))

pub evaluate_seven-Stops : (cards : List Card) → Stops (evaluate_seven_cards cards)
unfolding evaluate_seven_cards
evaluate_seven-Stops cards =
    Avoids-guard _ _ _ (λ h. cc)
      (Avoids-bind (map_result evaluate_five_cards (combinations cards 5)) _
        (Avoids-map_result evaluate_five_cards (combinations cards 5) evaluate_five-Stops)
        λ hands _. Avoids-or_throw _ _ λ h. cc)
