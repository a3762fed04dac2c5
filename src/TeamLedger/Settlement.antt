-- ===== src/TeamLedger/Settlement.antt =====
-- `generateSettlement`: who pays whom. The floating-point numbers, and what the code does with them, are a
-- parameter. A suggestion names a participant where the source writes his user and name.
use allinle.Prelude.{
  ℕ, suc, zero, ◌+◌, Bool, not, List, [], ◌∷◌, filter, if◌then◌else◌, length, sort_by,
}

-- `is_zero` is `!x`.
pub record Numbers {ℓ} (F : Type ℓ) : Type ℓ where
  pub nought : F
  pub plus : F → F → F
  pub minus : F → F → F
  pub negate : F → F
  pub least : F → F → F
  pub less : F → F → Bool
  pub is_zero : F → Bool

-- A participant with his cumulative net, which the loop changes as it is settled.
pub record Net {ℓ} (F : Type ℓ) : Type ℓ where
  pub id : ℕ
  pub amount : F

pub record Suggestion {ℓ} (F : Type ℓ) : Type ℓ where
  pub payer : ℕ
  pub receiver : ℕ
  pub amount : F

module _ {ℓ} {F : Type ℓ} ⦃n : Numbers F⦄ where
  -- The loop over the debtors and the creditors that are left, with fuel.
  unfoldable pub settle_from : ℕ → List (Net F) → List (Net F) → List (Suggestion F)
  settle_from zero ds cs = []
  settle_from (suc k) [] cs = []
  settle_from (suc k) (d ∷ ds) [] = []
  settle_from (suc k) (d ∷ ds) (c ∷ cs) =
      let amount = n.least (n.negate d.amount) c.amount in
      let owed = n.plus d.amount amount in
      let left = n.minus c.amount amount in
      let next_ds = if n.is_zero owed then ds else record d { amount = owed } ∷ ds in
      let next_cs = if n.is_zero left then cs else record c { amount = left } ∷ cs in
      record { payer = d.id; receiver = c.id; amount = amount } ∷ settle_from k next_ds next_cs

  -- `(a, b) => b - a` and `(a, b) => a - b`: `a` comes first unless the difference is above 0.
  abbrev pub descending : Net F → Net F → Bool
  descending a b = not (n.less n.nought (n.minus b.amount a.amount))

  abbrev pub ascending : Net F → Net F → Bool
  ascending a b = not (n.less n.nought (n.minus a.amount b.amount))

  abbrev pub creditors : List (Net F) → List (Net F)
  creditors ns = filter (λ (m : Net F). n.less n.nought m.amount) ns

  abbrev pub debtors : List (Net F) → List (Net F)
  debtors ns = filter (λ (m : Net F). n.less m.amount n.nought) ns

  unfoldable pub generate_settlement : List (Net F) → List (Suggestion F)
  unfolding settle_from sort_by
  generate_settlement ns =
      let ds = sort_by ascending (debtors ns) in
      let cs = sort_by descending (creditors ns) in settle_from (length ds + length cs) ds cs
