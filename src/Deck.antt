-- ===== src/Deck.antt =====
-- packages/shared/src/poker/deck.ts: the deck, the shuffle and the deal. `randomInt` is the
-- parameter `draw`, the number it returns in the round of each index.
pub mod Laws
use allinle.Prelude.{
  ℕ, zero, suc, ◌-◌, List, [], ◌∷◌, Option, none, some, map, flat_map, ltb, length, get_elem?, set,
  take, drop, Result, ok, throw_if, ◌>>=◌, ◌>>◌,
}
use allinle.Errors.{PokerError, not_enough_cards}
use allinle.Cards.{Card, Rank, Suit, ranks, suits}

unfoldable pub create_deck : List Card
unfolding flat_map
create_deck = flat_map (λ r. map (λ s. record { rank = r; suit = s }) suits) ranks

-- `[a[i], a[j]] = [a[j], a[i]]`
abbrev pub swap_at {ℓ} : {A : Type ℓ} → ℕ → ℕ → List A → List A
swap_at i j xs = elim (get_elem? xs i) [
  | none ↦ xs
  | some a ↦ elim (get_elem? xs j) [ none ↦ xs | some b ↦ set (set xs i b) j a ]
]

-- The loop from `index` down to 1.
unfoldable pub shuffle_from {ℓ} : {A : Type ℓ} → (ℕ → ℕ) → ℕ → List A → List A
shuffle_from draw zero xs = xs
shuffle_from draw (suc i) xs = shuffle_from draw i (swap_at (suc i) (draw (suc i)) xs)

unfoldable pub shuffle_deck {ℓ} : {A : Type ℓ} → (ℕ → ℕ) → List A → List A
unfolding shuffle_from
shuffle_deck draw deck = shuffle_from draw (length deck - 1) deck

pub record Dealt : Type 0 where
  pub cards : List Card
  pub deck : List Card

-- A count is a natural number here, so the check for a negative one has no case.
unfoldable pub deal_cards : List Card → ℕ → Result PokerError Dealt
deal_cards deck count = do
  throw_if (ltb (length deck) count) not_enough_cards
  ok (record { cards = take count deck; deck = drop count deck })
