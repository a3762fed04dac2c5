-- ===== src/Bot/Strength.antt =====
-- preflop.ts and postflop.ts: how strong two cards are, alone and with a board.
use allinle.Prelude.{
  ℕ, ◌+◌, ◌-◌, min, max, Bool, true, false, ◌&&◌, ◌||◌, not, List, [], ◌∷◌, ◌++◌, map, any, every,
  filter, length, leb, ltb, ◌==◌, if◌then◌else◌, dedup_from,
}
use allinle.Cards.{Card, card_rank_value, Suit, suits, suit_eq}
use allinle.Bot.{Double}

abbrev pub count_of : ℕ → List ℕ → ℕ
count_of v values = length (filter (λ x. x == v) values)

-- The values of the map `counts`.
abbrev pub counts : List ℕ → List ℕ
counts values = map (λ v. count_of v values) (dedup_from [] values)

abbrev pub greatest_of : List ℕ → ℕ
greatest_of [] = 0
greatest_of (x ∷ xs) = max x (greatest_of xs)

abbrev pub suit_count : Suit → List Card → ℕ
suit_count s cards = length (filter (λ (c : Card). suit_eq c.suit s) cards)

module _ {ℓ} {F : Type ℓ} ⦃d : Double F⦄ where
  abbrev pub within_one : F → F
  within_one score = d.greatest (d.of 0) (d.least (d.of 1) score)

  abbrev pub add_if : Bool → F → F → F
  add_if true extra score = d.plus score extra
  add_if false extra score = score

  abbrev pub subtract_if : Bool → F → F → F
  subtract_if true extra score = d.minus score extra
  subtract_if false extra score = score

  unfoldable pub preflop_strength : Card → Card → F
  preflop_strength a b =
      let av = card_rank_value a in
      let bv = card_rank_value b in
      let high = max av bv in
      let low = min av bv in
      let paired = av == bv in
      let suited = suit_eq a.suit b.suit in
      let connected = leb ((av - bv) + (bv - av)) 1 in
      let one = d.divided (d.of high) (d.of 14) in
      let two = add_if paired (d.plus (d.over 45 100) (d.divided (d.of high) (d.of 40))) one in
      let three = add_if suited (d.over 8 100) two in
      let four = add_if connected (d.over 8 100) three in
      let five = add_if (leb 13 high && leb 10 low) (d.over 18 100) four in
      let six = add_if (leb 14 high && leb 9 low) (d.over 10 100) five in
      let seven =
        subtract_if (leb low 5 && not paired && not suited && not connected) (d.over 12 100) six in
      within_one (d.divided seven (d.over 145 100))

  abbrev pub base_score : ℕ → ℕ → Bool → F
  base_score max_count pair_count pair_with_board =
      if leb 4 max_count
      then d.over 95 100
      else if (max_count == 3) && leb 2 pair_count
      then d.over 88 100
      else if max_count == 3
      then d.over 7 10
      else if leb 2 pair_count
      then d.over 56 100
      else if pair_with_board
      then d.over 45 100
      else d.over 18 100

  unfoldable pub postflop_strength : Card → Card → List Card → F
  postflop_strength a b board =
      let hole = a ∷ b ∷ [] in
      let cards = hole ++ board in
      let values = counts (map card_rank_value cards) in
      let flush_draw = any (λ s. leb 4 (suit_count s cards)) suits in
      let top_pair = any (λ c. any (λ e. card_rank_value c == card_rank_value e) board) hole in
      let over_pair =
        (card_rank_value a == card_rank_value b)
        && every (λ c. ltb (card_rank_value c) (card_rank_value a)) board in
      let score =
        base_score (greatest_of values) (length (filter (leb 2) values)) (top_pair || over_pair) in
      let drawn = add_if flush_draw (d.over 12 100) score in
      within_one (add_if (any (λ c. leb 13 (card_rank_value c)) hole) (d.over 6 100) drawn)
