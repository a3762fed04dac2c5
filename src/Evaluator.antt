-- ===== src/Evaluator.antt =====
-- packages/shared/src/poker/evaluator.ts: the value of five cards, the best five of seven, the order
-- of two hands and the winners. A failed `!` (no such group) is the error `missing_group`.
use Prim.Native.String.{String}
pub mod Ends
pub mod Compare
use allinle.Prelude.{
  ℕ, zero, suc, ◌+◌, ◌-◌, ◌*◌, max, Bool, true, false, ◌&&◌, ◌||◌, not, List, [], ◌∷◌, ◌++◌, map,
  Option, none, some, ltb, leb, ◌==◌, if◌then◌else◌, length, get_or, take, filter, find, contains,
  dedup_from, get_last?, head?, sort_by, Result, ok, err, or_throw, throw_if, map_result, ◌>>=◌,
  ◌>>◌,
}
use allinle.Prelude.Int.{ℤ, pos, negsuc, sub_ℕ, pos_part, ◌≤ℤ◌}
use allinle.Errors.{PokerError, not_seven_cards, missing_group}
use allinle.Cards.{Card, card_rank_value, suit_index, sort_cards_by_rank_desc}
use allinle.HandRank.{
  HandRankCategory, high_card, one_pair, two_pair, three_of_a_kind, straight, flush, full_house,
  four_of_a_kind, straight_flush, royal_flush, hand_rank_strength, hand_rank_label,
}

pub record EvaluatedHand : Type 0 where
  pub rank_category : HandRankCategory
  pub rank_value : ℕ
  pub tiebreakers : List ℕ
  pub best_five_cards : List Card
  pub description : String

pub record Group : Type 0 where
  pub rank : ℕ
  pub count : ℕ

-- `while (padded.length < 5) padded.push(0)`: as many rounds as places are missing.
pub pad : ℕ → List ℕ → List ℕ
pad zero xs = xs
pad (suc n) xs = pad n (xs ++ 0 ∷ [])

pub encode_from : ℕ → List ℕ → ℕ
encode_from value [] = value
encode_from value (part ∷ parts) = encode_from (value * 15 + part) parts

unfoldable pub encode_rank : HandRankCategory → List ℕ → ℕ
unfolding pad encode_from
encode_rank category ts = encode_from 0 (hand_rank_strength category ∷ pad (5 - length ts) ts)

unfoldable pub hand : HandRankCategory → List ℕ → List Card → EvaluatedHand
hand category ts best = record {
  rank_category = category;
  rank_value = encode_rank category ts;
  tiebreakers = ts;
  best_five_cards = best;
  description = hand_rank_label category;
}

-- The rounds of the `for` loop that are left, and its index.
pub tie_diff : ℕ → ℕ → List ℕ → List ℕ → ℤ
tie_diff zero index xs ys = pos 0
tie_diff (suc n) index xs ys =
    let rest = tie_diff n (suc index) xs ys in
    if get_or xs index 0 == get_or ys index 0
    then rest
    else sub_ℕ (get_or xs index 0) (get_or ys index 0)

unfoldable pub compare_hands : EvaluatedHand → EvaluatedHand → ℤ
unfolding tie_diff
compare_hands a b =
    let x = hand_rank_strength a.rank_category in
    let y = hand_rank_strength b.rank_category in
    if x == y
    then tie_diff (max (length a.tiebreakers) (length b.tiebreakers)) 0 a.tiebreakers b.tiebreakers
    else sub_ℕ x y

-- A comparator's answer that leaves the first argument in front.
abbrev pub not_after : EvaluatedHand → EvaluatedHand → Bool
not_after a b = pos_part (compare_hands a b) == 0

-- `counts.set(value, (counts.get(value) || 0) + 1)` on a map in insertion order.
pub count_rank : ℕ → List Group → List Group
count_rank v [] = record { rank = v; count = 1 } ∷ []
count_rank v (g ∷ gs) =
    if g.rank == v then record g { count = g.count + 1 } ∷ gs else g ∷ count_rank v gs

pub count_ranks : List Group → List ℕ → List Group
count_ranks gs [] = gs
count_ranks gs (v ∷ vs) = count_ranks (count_rank v gs) vs

-- More of a rank first, then the higher rank.
abbrev pub group_first : Group → Group → Bool
group_first a b = ltb b.count a.count || (a.count == b.count && leb b.rank a.rank)

unfoldable pub group_ranks : List ℕ → List Group
unfolding count_ranks count_rank sort_by
group_ranks values = sort_by group_first (count_ranks [] values)

abbrev pub is_run : List ℕ → Bool
is_run [] = true
is_run (x ∷ []) = true
is_run (x ∷ y ∷ r) = (y + 1 == x) && is_run (y ∷ r)

-- The windows of five, from the left.
pub find_window : List ℕ → Option ℕ
find_window [] = none
find_window (x ∷ xs) =
    if leb 5 (length (x ∷ xs)) && is_run (take 5 (x ∷ xs))
    then some (if x == 1 then 5 else x)
    else find_window xs

unfoldable pub get_straight_high : List ℕ → Option ℕ
unfolding find_window
get_straight_high values =
    let unique = dedup_from [] values in
    find_window (if contains 14 unique then unique ++ 1 ∷ [] else unique)

-- The first card of a rank, and the cards without it.
pub take_rank : ℕ → List Card → Option (Card × List Card)
take_rank r [] = none
take_rank r (c ∷ cs) =
    if card_rank_value c == r
    then some (c, cs)
    else elim (take_rank r cs) [ none ↦ none | some (d, ds) ↦ some (d, c ∷ ds) ]

unfoldable pub cards_for_ranks : List Card → List ℕ → List Card
unfolding take_rank
cards_for_ranks remaining [] = []
cards_for_ranks remaining (r ∷ rs) = elim (take_rank r remaining) [
  | none ↦ cards_for_ranks remaining rs
  | some (c, cs) ↦ c ∷ cards_for_ranks cs rs
]

unfoldable pub sort_straight_cards : List Card → ℕ → List Card
unfolding cards_for_ranks
sort_straight_cards cards high = cards_for_ranks cards (
    if high == 5
    then 5 ∷ 4 ∷ 3 ∷ 2 ∷ 14 ∷ []
    else high ∷ (high - 1) ∷ (high - 2) ∷ (high - 3) ∷ (high - 4) ∷ [])

-- `null` and 0 are both false in a test.
abbrev pub or_zero : Option ℕ → ℕ
or_zero none = 0
or_zero (some n) = n

abbrev pub other_ranks : ℕ → List Group → List ℕ
other_ranks r gs = map (λ g. g.rank) (filter (λ (g : Group). not (g.rank == r)) gs)

abbrev pub with_count : ℕ → List Group → Option Group
with_count n gs = find (λ (g : Group). g.count == n) gs

unfoldable pub four_hand : List Card → List Group → ℕ → Result PokerError EvaluatedHand
four_hand cards gs r = do
  k ← or_throw (find (λ (g : Group). not (g.rank == r)) gs) missing_group
  ok (hand four_of_a_kind (r ∷ k.rank ∷ []) (cards_for_ranks cards (r ∷ r ∷ r ∷ r ∷ k.rank ∷ [])))

-- The ranks of the pairs, the higher first.
abbrev pub pair_ranks : List Group → List ℕ
unfolding sort_by
pair_ranks gs =
    sort_by (λ a b. leb b a) (map (λ g. g.rank) (filter (λ (g : Group). g.count == 2) gs))

-- From the test `pairs.length === 2` on.
unfoldable pub pair_hand :
    List Card → List ℕ → List Group → List ℕ → Result PokerError EvaluatedHand
pair_hand cards values gs [] = ok (hand high_card values (sort_cards_by_rank_desc cards))
pair_hand cards values gs (p ∷ []) =
    ok (hand one_pair (p ∷ other_ranks p gs) (cards_for_ranks cards (p ∷ p ∷ other_ranks p gs)))
pair_hand cards values gs (p ∷ q ∷ []) = do
  k ← or_throw (with_count 1 gs) missing_group
  ok (hand two_pair (p ∷ q ∷ k.rank ∷ []) (cards_for_ranks cards (p ∷ p ∷ q ∷ q ∷ k.rank ∷ [])))
pair_hand cards values gs (p ∷ q ∷ s ∷ r) =
    ok (hand high_card values (sort_cards_by_rank_desc cards))

abbrev pub is_flush : List Card → Bool
is_flush cards = length (dedup_from [] (map (λ c. suit_index c.suit) cards)) == 1

abbrev pub card_values : List Card → List ℕ
unfolding sort_by
card_values cards = sort_by (λ a b. leb b a) (map card_rank_value cards)

abbrev pub is_some {ℓ} : {A : Type ℓ} → Option A → Bool
is_some none = false
is_some (some _) = true

-- From the test for a full house on.
unfoldable pub lower_hand :
    List Card
    → List ℕ
    → List Group
    → Bool
    → ℕ
    → Option Group
    → Option Group
    → Result PokerError EvaluatedHand
lower_hand cards values gs fl high (some t) (some p) = ok (
    hand full_house (t.rank ∷ p.rank ∷ [])
      (cards_for_ranks cards (t.rank ∷ t.rank ∷ t.rank ∷ p.rank ∷ p.rank ∷ [])))
lower_hand cards values gs fl high three pair =
    if fl
    then ok (hand flush values (sort_cards_by_rank_desc cards))
    else if not (high == 0)
    then ok (hand straight (high ∷ []) (sort_straight_cards cards high))
    else elim three [
      | some t ↦ ok (
          hand three_of_a_kind (t.rank ∷ other_ranks t.rank gs)
            (cards_for_ranks cards (t.rank ∷ t.rank ∷ t.rank ∷ other_ranks t.rank gs)))
      | none ↦ pair_hand cards values gs (pair_ranks gs)
    ]

unfoldable pub evaluate_five_cards : List Card → Result PokerError EvaluatedHand
evaluate_five_cards cards =
    let values = card_values cards in
    let gs = group_ranks values in
    let fl = is_flush cards in
    let high = or_zero (get_straight_high values) in
    if fl && (high == 14)
    then ok (hand royal_flush (14 ∷ []) (sort_straight_cards cards high))
    else if fl && not (high == 0)
    then ok (hand straight_flush (high ∷ []) (sort_straight_cards cards high))
    else elim (with_count 4 gs) [
      | some four ↦ four_hand cards gs four.rank
      | none ↦ lower_hand cards values gs fl high (with_count 3 gs) (with_count 2 gs)
    ]

-- The choices of `size` items, in order.
unfoldable pub combinations {ℓ} : {A : Type ℓ} → List A → ℕ → List (List A)
combinations items zero = [] ∷ []
combinations [] (suc n) = []
combinations (x ∷ xs) (suc n) = map (λ c. x ∷ c) (combinations xs n) ++ combinations xs (suc n)

unfoldable pub evaluate_seven_cards : List Card → Result PokerError EvaluatedHand
evaluate_seven_cards cards = do
  throw_if (not (length cards == 7)) not_seven_cards
  hands ← map_result evaluate_five_cards (combinations cards 5)
  or_throw (get_last? (sort_by not_after hands)) missing_group

pub record ShowdownPlayer : Type 0 where
  pub seat_no : ℕ
  pub user_id : Option String
  pub hole_cards : List Card

pub record Winner : Type 0 where
  pub seat_no : ℕ
  pub user_id : Option String
  pub hand : EvaluatedHand

unfoldable pub rank_player : List Card → ShowdownPlayer → Result PokerError Winner
rank_player board p = do
  h ← evaluate_seven_cards (p.hole_cards ++ board)
  ok (record { seat_no = p.seat_no; user_id = p.user_id; hand = h })

abbrev pub ties : EvaluatedHand → Winner → Bool
ties best w = elim (compare_hands w.hand best) [ pos n ↦ n == 0 | negsuc _ ↦ false ]

unfoldable pub find_winners : List ShowdownPlayer → List Card → Result PokerError (List Winner)
find_winners players board = do
  ranked ← map_result (rank_player board) players
  ok (elim (get_last? (sort_by not_after (map (λ w. w.hand) ranked))) [
    | none ↦ []
    | some best ↦ filter (ties best) ranked
  ])
