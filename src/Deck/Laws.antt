-- ===== src/Deck/Laws.antt =====
-- shuffleDeck and dealCards of packages/shared/src/poker/deck.ts: where the cards go.
use mathlib.Core.List.{Perm}
use mathlib.Core.List.Perm
use allinle.Prelude.{
  ℕ, zero, suc, ◌≡◌, List, [], ◌∷◌, ◌++◌, some, get_elem?, set, arith, ◌-◌, ok, length,
  take-append-drop, length-take, Option-cases, inl, inr,
}
use mathlib.Core.Option.{some-injective}
use mathlib.Core.Path.{subst}
use allinle.Cards.{Card}
use allinle.Deck.{swap_at, shuffle_from, shuffle_deck, Dealt, deal_cards}

module _ {ℓ} {A : Type ℓ} where
  set_head-perm :
      (xs : List A) (j : ℕ) (a b : A) → get_elem? xs j ≡ some b → Perm (b ∷ set xs j a) (a ∷ xs)
  set_head-perm [] j a b e = cc
  set_head-perm (x ∷ xs) zero a b e =
      subst (λ c. Perm (c ∷ a ∷ xs) (a ∷ x ∷ xs)) (some-injective _ _ e) (Perm.swap a x xs)
  set_head-perm (x ∷ xs) (suc j) a b e =
      Perm.trans (Perm.swap x b _)
        (Perm.trans (Perm.cons x (set_head-perm xs j a b e)) (Perm.swap a x xs))

  set_set-perm :
      (xs : List A) (i j : ℕ) (a b : A)
      → get_elem? xs i ≡ some a
      → get_elem? xs j ≡ some b
      → Perm (set (set xs i b) j a) xs
  set_set-perm [] i j a b e f = cc
  set_set-perm (x ∷ xs) zero zero a b e f =
      subst (λ c. Perm (c ∷ xs) (x ∷ xs)) (some-injective _ _ e) (Perm.refl (x ∷ xs))
  set_set-perm (x ∷ xs) zero (suc j) a b e f =
      subst (λ c. Perm (b ∷ set xs j c) (x ∷ xs)) (some-injective _ _ e) (set_head-perm xs j x b f)
  set_set-perm (x ∷ xs) (suc i) zero a b e f =
      subst (λ c. Perm (a ∷ set xs i c) (x ∷ xs)) (some-injective _ _ f) (set_head-perm xs i x a e)
  set_set-perm (x ∷ xs) (suc i) (suc j) a b e f = Perm.cons x (set_set-perm xs i j a b e f)

  swap_at-perm : (i j : ℕ) (xs : List A) → Perm (swap_at i j xs) xs
  swap_at-perm i j xs = elim (Option-cases (get_elem? xs i)) [
    | inl e ↦ rw (e, swap_at) (Perm.refl xs)
    | inr (a, e) ↦ elim (Option-cases (get_elem? xs j)) [
      | inl f ↦ rw (e, f, swap_at) (Perm.refl xs)
      | inr (b, f) ↦ rw (e, f, swap_at) (set_set-perm xs i j a b e f)
    ]
  ]

  shuffle_from-perm : (draw : ℕ → ℕ) (i : ℕ) (xs : List A) → Perm (shuffle_from draw i xs) xs
  unfolding shuffle_from
  shuffle_from-perm draw zero xs = Perm.refl xs
  shuffle_from-perm draw (suc i) xs =
      Perm.trans (shuffle_from-perm draw i _) (swap_at-perm (suc i) (draw (suc i)) xs)

  -- Whatever numbers are drawn, a shuffled deck holds the same cards as before, each as often.
  pub shuffle_deck-perm : (draw : ℕ → ℕ) (deck : List A) → Perm (shuffle_deck draw deck) deck
  unfolding shuffle_deck
  shuffle_deck-perm draw deck = shuffle_from-perm draw (length deck - 1) deck

-- A deal that succeeds hands out as many cards as were asked for, and these with what is left are
-- the deck.
pub deal_cards-splits :
    (deck : List Card) (count : ℕ) (d : Dealt)
    → deal_cards deck count ≡ ok d
    → (d.cards ++ d.deck ≡ deck) × (length d.cards ≡ count)
unfolding deal_cards
deal_cards-splits deck count d e =
    ground (arith, take-append-drop count deck, length-take count deck)
