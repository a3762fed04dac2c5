-- ===== src/Game/Seats/Players.antt =====
-- Players by their seats: what a write to one of them does to the seats and to a sum over all.
use allinle.Prelude.{
  ℕ, ◌+◌, ◌≡◌, refl, sym, ◌∙◌, ap, List, [], ◌∷◌, map, some, ap₂, arith, find, sum_of, ok,
}
use allinle.Cards.{Card}
use allinle.Types.{Player}
use allinle.Game.Seats.{at_seat, find_player, update_player}

abbrev pub seats_of : List Player → List ℕ
seats_of ps = map (λ p. p.seat_no) ps

-- What a player has, in hand and in the pot.
abbrev pub stake : Player → ℕ
stake p = p.chips + p.invested_this_hand

abbrev pub stakes : List Player → ℕ
stakes ps = sum_of stake ps

-- The seat and the hole cards.
abbrev pub held : Player → ℕ × List Card
held p = (p.seat_no, p.hole_cards)

abbrev pub hands_of : List Player → List (ℕ × List Card)
hands_of ps = map held ps

pub hands_of-seats : (ps qs : List Player) → hands_of ps ≡ hands_of qs → seats_of ps ≡ seats_of qs
hands_of-seats ps qs e = sym (firsts ps) ∙ ap (map (λ (h : ℕ × List Card). h.0)) e ∙ firsts qs
  where
    firsts : (rs : List Player) → map (λ (h : ℕ × List Card). h.0) (hands_of rs) ≡ seats_of rs
    firsts [] = refl
    firsts (r ∷ rs) = ap (λ ss. r.seat_no ∷ ss) (firsts rs)

abbrev pub chips_in_hand : List Player → ℕ
chips_in_hand ps = sum_of (λ p. p.chips) ps

pub find-at_seat :
    (k : ℕ) (ps : List Player) (p : Player) → find (at_seat k) ps ≡ some p → p.seat_no ≡ k
find-at_seat k [] p e = cc
find-at_seat k (q ∷ ps) p e = ground (arith, find-at_seat k ps p)

pub find_player-ok :
    (ps : List Player) (k : ℕ) (p : Player) → find_player ps k ≡ ok p → find (at_seat k) ps ≡ some p
unfolding find_player
find_player-ok ps k p e = ground arith

pub sum_of-update_player :
    (f : Player → ℕ) (k : ℕ) (g : Player → Player) (ps : List Player) (p : Player)
    → find (at_seat k) ps ≡ some p
    → sum_of f (update_player k g ps) + f p ≡ sum_of f ps + f (g p)
unfolding update_player
sum_of-update_player f k g [] p e = cc
sum_of-update_player f k g (q ∷ ps) p e =
    ground (arith, sum_of-update_player f k g ps p, ap f, ap g)

-- A write that keeps the seat of the player it meets keeps the list of seats.
pub seats_of-update_player :
    (k : ℕ) (g : Player → Player) (ps : List Player)
    → ((p : Player) → p.seat_no ≡ k → (g p).seat_no ≡ k)
    → seats_of (update_player k g ps) ≡ seats_of ps
unfolding update_player
seats_of-update_player k g [] h = refl
seats_of-update_player k g (q ∷ ps) h = ground (arith, seats_of-update_player k g ps h, h q)

module _ (g : Player → Player) where
  pub seats_of-map :
      ((p : Player) → (g p).seat_no ≡ p.seat_no)
      → (ps : List Player) → seats_of (map g ps) ≡ seats_of ps
  seats_of-map h [] = refl
  seats_of-map h (p ∷ ps) = ap₂ ◌∷◌ (h p) (seats_of-map h ps)

  pub sum_of-map :
      (f : Player → ℕ)
      → ((p : Player) → f (g p) ≡ f p)
      → (ps : List Player) → sum_of f (map g ps) ≡ sum_of f ps
  sum_of-map f h [] = refl
  sum_of-map f h (p ∷ ps) = omega (arith, h p, sum_of-map f h ps)

  pub find-map :
      (k : ℕ)
      → ((p : Player) → (g p).seat_no ≡ p.seat_no)
      → (ps : List Player) (p : Player) → find (at_seat k) ps ≡ some p
      → find (at_seat k) (map g ps) ≡ some (g p)
  find-map k h [] p e = cc
  find-map k h (q ∷ ps) p e = ground (arith, find-map k h ps p, h q, ap g)

pub hands_of-put :
    (k : ℕ) (q : Player) (ps : List Player) (p : Player)
    → find (at_seat k) ps ≡ some p
    → held q ≡ held p
    → hands_of (update_player k (λ _. q) ps) ≡ hands_of ps
unfolding update_player
hands_of-put k q [] p e h = refl
hands_of-put k q (x ∷ ps) p e h = ground (arith, hands_of-put k q ps p, ap held)

pub hands_of-update_player :
    (k : ℕ) (g : Player → Player) (ps : List Player)
    → ((p : Player) → held (g p) ≡ held p)
    → hands_of (update_player k g ps) ≡ hands_of ps
unfolding update_player
hands_of-update_player k g [] h = refl
hands_of-update_player k g (x ∷ ps) h = ground (arith, hands_of-update_player k g ps h, h x)

pub hands_of-map :
    (g : Player → Player)
    → ((p : Player) → held (g p) ≡ held p)
    → (ps : List Player) → hands_of (map g ps) ≡ hands_of ps
hands_of-map g h [] = refl
hands_of-map g h (p ∷ ps) = ap₂ ◌∷◌ (h p) (hands_of-map g h ps)
