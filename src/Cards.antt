-- ===== src/Cards.antt =====
-- packages/shared/src/poker/cards.ts: ranks, suits and cards. A card is its rank and its suit;
-- Cards/Text.antt relates it to the two-letter text of the program.
pub mod Text
use allinle.Prelude.{ℕ, List, [], ◌∷◌, Bool, true, false, leb, map, if◌then◌else◌, ◌==◌, sort_by}

pub data Suit : Type 0 where
  spades hearts diamonds clubs : Suit

pub data Rank : Type 0 where
  two three four five six seven eight nine ten jack queen king ace : Rank

pub record Card : Type 0 where
  pub rank : Rank
  pub suit : Suit

abbrev pub suits : List Suit
suits = spades ∷ hearts ∷ diamonds ∷ clubs ∷ []

abbrev pub ranks : List Rank
ranks =
    two ∷ three ∷ four ∷ five ∷ six ∷ seven ∷ eight ∷ nine ∷ ten ∷ jack ∷ queen ∷ king ∷ ace ∷ []

abbrev pub rank_value : Rank → ℕ
rank_value two = 2
rank_value three = 3
rank_value four = 4
rank_value five = 5
rank_value six = 6
rank_value seven = 7
rank_value eight = 8
rank_value nine = 9
rank_value ten = 10
rank_value jack = 11
rank_value queen = 12
rank_value king = 13
rank_value ace = 14

abbrev pub card_rank_value : Card → ℕ
card_rank_value c = rank_value c.rank

abbrev pub suit_index : Suit → ℕ
suit_index spades = 0
suit_index hearts = 1
suit_index diamonds = 2
suit_index clubs = 3

-- `a === b` on two suits.
abbrev pub suit_eq : Suit → Suit → Bool
suit_eq a b = suit_index a == suit_index b

abbrev pub sort_cards_by_rank_desc : List Card → List Card
unfolding sort_by
sort_cards_by_rank_desc = sort_by (λ a b. leb (card_rank_value b) (card_rank_value a))

-- What `maskHoleCardsForOtherPlayers` needs of a row: a seat and hole cards.
pub record SeatCards : Type 0 where
  pub seat_no : ℕ
  pub hole_cards : List Card

unfoldable pub mask_hole_cards_for_other_players : List SeatCards → ℕ → List SeatCards
mask_hole_cards_for_other_players players viewer =
    map {B = SeatCards}
      (λ p. record p { hole_cards = if p.seat_no == viewer then p.hole_cards else [] }) players
