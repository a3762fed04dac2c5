-- ===== src/Ledger/Tables.antt =====
-- Writes to one game: what they leave of the others, and of the lookup of the game itself.
use allinle.Prelude.{ℕ, ◌≡◌, ◌≢◌, refl, List, [], ◌∷◌, some, arith, Bool-cases, inl, inr}
use allinle.Ledger.{LedgerGame, has_id, find_game, write_game}

pub find_game-id :
    (k : ℕ) (gs : List LedgerGame) (g : LedgerGame) → find_game k gs ≡ some g → g.id ≡ k
find_game-id k [] g e = cc
find_game-id k (h ∷ gs) g e = ground (arith, find_game-id k gs g)

module _ (k : ℕ) (f : LedgerGame → LedgerGame)
    (same_id : (g : LedgerGame) → g.id ≡ k → (f g).id ≡ k) where
  pub find-write_other :
      (j : ℕ) (gs : List LedgerGame) → j ≢ k → find_game j (write_game k f gs) ≡ find_game j gs
  unfolding write_game
  find-write_other j [] n = refl
  find-write_other j (g ∷ gs) n = elim (Bool-cases (has_id k g)) [
    | inl e ↦ ground (arith, same_id g)
    | inr e ↦ ground (arith, find-write_other j gs n)
  ]

  pub find-write_same :
      (gs : List LedgerGame) (h : LedgerGame)
      → find_game k (write_game k f gs) ≡ some h
      → (g : LedgerGame) × (find_game k gs ≡ some g) × (f g ≡ h)
  unfolding write_game
  find-write_same [] h e = cc
  find-write_same (g ∷ gs) h e = elim (Bool-cases (has_id k g)) [
    | inl b ↦ (g, ground arith, ground (arith, same_id g))
    | inr b ↦ let (i, p, q) = find-write_same gs h (ground arith) in (i, ground arith, q)
  ]
