-- ===== src/Cards/Text.antt =====
-- The two-letter texts that stand for cards in packages/shared/src/poker/cards.ts.
use allinle.Prelude.{
  ℕ, ◌≡◌, refl, List, [], ◌∷◌, Bool, true, false, ◌&&◌, Option, none, some, ◌==◌, any, inl, inr,
  Result, ok, throw_if, ◌>>=◌, ◌>>◌, not, arith, ◌↔◌, or_throw, find, ==→eq, Bool-cases,
}
use allinle.Errors.{PokerError, invalid_card}
use allinle.Cards.{
  Suit, spades, hearts, diamonds, clubs, Rank, two, three, four, five, six, seven, eight, nine, ten,
  jack, queen, king, ace, Card, suits, ranks, rank_value,
}

abbrev pub suit_code : Suit → ℕ
suit_code spades = b'S'
suit_code hearts = b'H'
suit_code diamonds = b'D'
suit_code clubs = b'C'

abbrev pub rank_code : Rank → ℕ
rank_code two = b'2'
rank_code three = b'3'
rank_code four = b'4'
rank_code five = b'5'
rank_code six = b'6'
rank_code seven = b'7'
rank_code eight = b'8'
rank_code nine = b'9'
rank_code ten = b'T'
rank_code jack = b'J'
rank_code queen = b'Q'
rank_code king = b'K'
rank_code ace = b'A'

-- `${rank}${suit}`
abbrev pub card_codes : Card → List ℕ
card_codes c = rank_code c.rank ∷ suit_code c.suit ∷ []

-- `RANKS.includes(rank)`, with the rank found.
abbrev pub read_rank : ℕ → Option Rank
read_rank r = find (λ k. rank_code k == r) ranks

abbrev pub read_suit : ℕ → Option Suit
read_suit s = find (λ k. suit_code k == s) suits

abbrev pub is_rank : ℕ → Bool
is_rank r = any (λ k. rank_code k == r) ranks

abbrev pub is_suit : ℕ → Bool
is_suit s = any (λ k. suit_code k == s) suits

unfoldable pub validate_card : List ℕ → Bool
validate_card (r ∷ s ∷ []) = is_rank r && is_suit s
validate_card _ = false

-- `card[0]` and `card[1]`.
abbrev pub read_card : List ℕ → Option Card
read_card (r ∷ s ∷ []) = elim (read_rank r) [
  | none ↦ none
  | some k ↦ elim (read_suit s) [ none ↦ none | some t ↦ some (record { rank = k; suit = t }) ]
]
read_card _ = none

-- `assertValidCard`, then the two letters.
unfoldable pub parse_card : List ℕ → Result PokerError Card
unfolding validate_card
parse_card t = do throw_if (not (validate_card t)) invalid_card; or_throw (read_card t) invalid_card

pub card_rank : List ℕ → Result PokerError Rank
card_rank t = do c ← parse_card t; ok c.rank

pub card_suit : List ℕ → Result PokerError Suit
card_suit t = do c ← parse_card t; ok c.suit

pub text_rank_value : List ℕ → Result PokerError ℕ
unfolding card_rank
text_rank_value t = do r ← card_rank t; ok (rank_value r)

read_rank-rank_code : (r : Rank) → read_rank (rank_code r) ≡ some r
read_rank-rank_code two = refl
read_rank-rank_code _ = refl

is_rank-rank_code : (r : Rank) → is_rank (rank_code r) ≡ true
is_rank-rank_code two = refl
is_rank-rank_code _ = refl

read_suit-suit_code : (s : Suit) → read_suit (suit_code s) ≡ some s
read_suit-suit_code spades = refl
read_suit-suit_code _ = refl

is_suit-suit_code : (s : Suit) → is_suit (suit_code s) ≡ true
is_suit-suit_code spades = refl
is_suit-suit_code _ = refl

-- Writing a card as its two letters and reading the text gives the card back.
pub parse_card-card_codes : (c : Card) → parse_card (card_codes c) ≡ ok c
unfolding parse_card
parse_card-card_codes c = rw (
  is_rank-rank_code c.rank,
  is_suit-suit_code c.suit,
  read_card,
  read_rank-rank_code c.rank,
  read_suit-suit_code c.suit,
)

find_of_any {ℓ} :
    {A : Type ℓ} (p : A → Bool) (xs : List A)
    → any p xs ≡ true
    → (x : A) × (find p xs ≡ some x) × (p x ≡ true)
find_of_any p [] h = cc
find_of_any p (x ∷ xs) h = elim (Bool-cases (p x)) [
  | inl e ↦ (x, rw e refl, e)
  | inr e ↦ let (y, f, g) = find_of_any p xs (ground arith) in (y, rw e f, g)
]

-- `validateCard` accepts exactly the texts that consist of the letter of a rank and the letter of a
-- suit.
pub validate_card_iff : (t : List ℕ) → (validate_card t ≡ true) ↔ ((c : Card) × (t ≡ card_codes c))
unfolding validate_card
validate_card_iff t = (to t, back t)
  where
    to : (t : List ℕ) → validate_card t ≡ true → (c : Card) × (t ≡ card_codes c)
    to [] h = cc
    to (r ∷ []) h = cc
    to (r ∷ s ∷ []) h =
        let (k, _, p) = find_of_any (λ k. rank_code k == r) ranks (ground arith) in
        let (m, _, q) = find_of_any (λ k. suit_code k == s) suits (ground arith) in
        (
          record { rank = k; suit = m },
          ground (arith, ==→eq (rank_code k) r p, ==→eq (suit_code m) s q),
        )
    to (r ∷ s ∷ x ∷ xs) h = cc

    back : (t : List ℕ) → ((c : Card) × (t ≡ card_codes c)) → validate_card t ≡ true
    back t (c, e) = rw e (rw (is_rank-rank_code c.rank, is_suit-suit_code c.suit))
