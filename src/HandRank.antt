-- ===== src/HandRank.antt =====
-- packages/shared/src/poker/hand-rank.ts: the categories of a hand, their strength and their label.
use Prim.Native.String.{String}
use allinle.Prelude.{ℕ}

pub data HandRankCategory : Type 0 where
  high_card one_pair two_pair three_of_a_kind straight flush : HandRankCategory
  full_house four_of_a_kind straight_flush royal_flush : HandRankCategory

abbrev pub hand_rank_strength : HandRankCategory → ℕ
hand_rank_strength high_card = 1
hand_rank_strength one_pair = 2
hand_rank_strength two_pair = 3
hand_rank_strength three_of_a_kind = 4
hand_rank_strength straight = 5
hand_rank_strength flush = 6
hand_rank_strength full_house = 7
hand_rank_strength four_of_a_kind = 8
hand_rank_strength straight_flush = 9
hand_rank_strength royal_flush = 10

abbrev pub hand_rank_label : HandRankCategory → String
hand_rank_label high_card = "High Card"
hand_rank_label one_pair = "One Pair"
hand_rank_label two_pair = "Two Pair"
hand_rank_label three_of_a_kind = "Three of a Kind"
hand_rank_label straight = "Straight"
hand_rank_label flush = "Flush"
hand_rank_label full_house = "Full House"
hand_rank_label four_of_a_kind = "Four of a Kind"
hand_rank_label straight_flush = "Straight Flush"
hand_rank_label royal_flush = "Royal Flush"
