-- ===== src/TeamLedger/Exact.antt =====
-- The settlement of whole amounts, as a reference for the loop of `generateSettlement`.
use allinle.Prelude.{
  ℕ, suc, zero, ◌+◌, ◌-◌, ◌≤◌, min, ◌≡◌, refl, sym, ◌∙◌, Bool, true, false, List, [], ◌∷◌, map,
  filter, leb, ◌==◌, if◌then◌else◌, length, sum_of, sort_by, arith, Bool-cases, inl, inr,
}
use allinle.Prelude.Sorted.{sum_of-sort_by}
use allinle.Prelude.Int.{ℤ, pos, ltb_ℤ, pos_part, neg_part}

-- A participant with what is left to pay or to receive.
pub record Share : Type 0 where
  pub id : ℕ
  pub amount : ℕ

pub record Payment : Type 0 where
  pub payer : ℕ
  pub receiver : ℕ
  pub amount : ℕ

-- The loop over the debtors and the creditors that are left, with fuel.
unfoldable pub settle_exactly : ℕ → List Share → List Share → List Payment
settle_exactly zero ds cs = []
settle_exactly (suc n) [] cs = []
settle_exactly (suc n) (d ∷ ds) [] = []
settle_exactly (suc n) (d ∷ ds) (c ∷ cs) =
    let amount = min d.amount c.amount in
    let next_ds =
      if leb d.amount amount then ds else record d { amount = d.amount - amount } ∷ ds in
    let next_cs =
      if leb c.amount amount then cs else record c { amount = c.amount - amount } ∷ cs in
    record { payer = d.id; receiver = c.id; amount = amount } ∷ settle_exactly n next_ds next_cs

-- The cumulative net of a participant.
pub record WholeNet : Type 0 where
  pub id : ℕ
  pub amount : ℤ

abbrev pub more : Share → Share → Bool
more a b = leb b.amount a.amount

abbrev pub exact_creditors : List WholeNet → List Share
exact_creditors ns =
    map (λ (n : WholeNet). record { id = n.id; amount = pos_part n.amount })
      (filter (λ (n : WholeNet). ltb_ℤ (pos 0) n.amount) ns)

abbrev pub exact_debtors : List WholeNet → List Share
exact_debtors ns =
    map (λ (n : WholeNet). record { id = n.id; amount = neg_part n.amount })
      (filter (λ (n : WholeNet). ltb_ℤ n.amount (pos 0)) ns)

unfoldable pub exact_settlement : List WholeNet → List Payment
unfolding settle_exactly sort_by
exact_settlement ns =
    let ds = sort_by more (exact_debtors ns) in
    let cs = sort_by more (exact_creditors ns) in settle_exactly (length ds + length cs) ds cs

-- What is paid or received by one of them.
abbrev pub paid : ℕ → List Payment → ℕ
paid k out = sum_of (λ (o : Payment). if o.payer == k then o.amount else 0) out

abbrev pub received : ℕ → List Payment → ℕ
received k out = sum_of (λ (o : Payment). if o.receiver == k then o.amount else 0) out

abbrev pub share_of : ℕ → List Share → ℕ
share_of k ss = sum_of (λ (s : Share). if s.id == k then s.amount else 0) ss

abbrev pub total : List Share → ℕ
total ss = sum_of (λ (s : Share). s.amount) ss

share_of-le-total : (k : ℕ) (ss : List Share) → share_of k ss ≤ total ss
share_of-le-total k [] = omega arith
share_of-le-total k (s ∷ ss) = ground (arith, share_of-le-total k ss)

settle_exactly-settles :
    (n k : ℕ) (ds cs : List Share)
    → length ds + length cs ≤ n
    → total ds ≡ total cs
    → (paid k (settle_exactly n ds cs) ≡ share_of k ds)
      × (received k (settle_exactly n ds cs) ≡ share_of k cs)
unfolding settle_exactly
settle_exactly-settles zero k [] [] h e = (refl, refl)
settle_exactly-settles zero k (d ∷ ds) cs h e = absurd (omega arith)
settle_exactly-settles zero k [] (c ∷ cs) h e = absurd (omega arith)
settle_exactly-settles (suc n) k [] cs h e = (refl, omega (arith, share_of-le-total k cs))
settle_exactly-settles (suc n) k (d ∷ ds) [] h e =
    (omega (arith, share_of-le-total k (d ∷ ds)), refl)
settle_exactly-settles (suc n) k (d ∷ ds) (c ∷ cs) h e =
    let amount = min d.amount c.amount in
    elim (Bool-cases (leb d.amount amount)) [
      | inl p ↦ elim (Bool-cases (leb c.amount amount)) [
        | inl q ↦
            let (a, b) = settle_exactly-settles n k ds cs (omega arith) (ground arith) in
            rw (p, q) (ground (arith, a), ground (arith, b))
        | inr q ↦
            let rest : Share = record c { amount = c.amount - amount } in
            let (a, b) = settle_exactly-settles n k ds (rest ∷ cs) (omega arith) (ground arith) in
            rw (p, q) (ground (arith, a), ground (arith, b))
      ]
      | inr p ↦ elim (Bool-cases (leb c.amount amount)) [
        | inl q ↦
            let rest : Share = record d { amount = d.amount - amount } in
            let (a, b) = settle_exactly-settles n k (rest ∷ ds) cs (omega arith) (ground arith) in
            rw (p, q) (ground (arith, a), ground (arith, b))
        | inr q ↦ absurd (ground arith)
      ]
    ]

-- What a participant is to receive and what he is to pay, of all.
abbrev pub credit : ℕ → List WholeNet → ℕ
credit k ns = sum_of (λ (n : WholeNet). if n.id == k then pos_part n.amount else 0) ns

abbrev pub debit : ℕ → List WholeNet → ℕ
debit k ns = sum_of (λ (n : WholeNet). if n.id == k then neg_part n.amount else 0) ns

abbrev pub Balanced : List WholeNet → Type 0
Balanced ns =
    sum_of (λ (n : WholeNet). pos_part n.amount) ns
    ≡ sum_of (λ (n : WholeNet). neg_part n.amount) ns

pos_part_none : (a : ℤ) → ltb_ℤ (pos 0) a ≡ false → pos_part a ≡ 0
pos_part_none a p = ground arith

neg_part_none : (a : ℤ) → ltb_ℤ a (pos 0) ≡ false → neg_part a ≡ 0
neg_part_none a p = ground arith

-- A number that depends on the identifier and is 0 for an amount of 0.
module _ (f : ℕ → ℕ → ℕ) (f0 : (k : ℕ) → f k 0 ≡ 0) where
  sum_of-exact_creditors :
      (ns : List WholeNet)
      → sum_of (λ (s : Share). f s.id s.amount) (exact_creditors ns)
        ≡ sum_of (λ (n : WholeNet). f n.id (pos_part n.amount)) ns
  sum_of-exact_creditors [] = refl
  sum_of-exact_creditors (n ∷ ns) = elim (Bool-cases (ltb_ℤ (pos 0) n.amount)) [
    | inl p ↦ rw p (omega (arith, sum_of-exact_creditors ns))
    | inr p ↦ rw (p, pos_part_none n.amount p, f0 n.id) (omega (arith, sum_of-exact_creditors ns))
  ]

  sum_of-exact_debtors :
      (ns : List WholeNet)
      → sum_of (λ (s : Share). f s.id s.amount) (exact_debtors ns)
        ≡ sum_of (λ (n : WholeNet). f n.id (neg_part n.amount)) ns
  sum_of-exact_debtors [] = refl
  sum_of-exact_debtors (n ∷ ns) = elim (Bool-cases (ltb_ℤ n.amount (pos 0))) [
    | inl p ↦ rw p (omega (arith, sum_of-exact_debtors ns))
    | inr p ↦ rw (p, neg_part_none n.amount p, f0 n.id) (omega (arith, sum_of-exact_debtors ns))
  ]

abbrev zero_if : Bool → ℕ
zero_if b = if b then 0 else 0

if_zero : (b : Bool) → zero_if b ≡ 0
if_zero true = refl
if_zero false = refl

-- When what is to be received is as much as what is to be paid, the payments settle all: each
-- participant pays just what he lost and receives just what he won.
pub exact_settlement-settles :
    (k : ℕ) (ns : List WholeNet)
    → Balanced ns
    → (paid k (exact_settlement ns) ≡ debit k ns) × (received k (exact_settlement ns) ≡ credit k ns)
unfolding exact_settlement
exact_settlement-settles k ns h =
    let ds = exact_debtors ns in
    let cs = exact_creditors ns in
    let own : Share → ℕ = λ s. if s.id == k then s.amount else 0 in
    let all : Share → ℕ = λ s. s.amount in
    let even : total (sort_by more ds) ≡ total (sort_by more cs) =
      sum_of-sort_by more all ds
      ∙ sum_of-exact_debtors (λ i a. a) (λ i. refl) ns
      ∙ sym h
      ∙ sym (sum_of-exact_creditors (λ i a. a) (λ i. refl) ns)
      ∙ sym (sum_of-sort_by more all cs) in
    let (a, b) =
      settle_exactly-settles (length (sort_by more ds) + length (sort_by more cs)) k
        (sort_by more ds) (sort_by more cs) (omega arith) even in
    (
      a
          ∙ sum_of-sort_by more own ds
          ∙ sum_of-exact_debtors (λ i a. if i == k then a else 0) (λ i. if_zero (i == k)) ns,
      b
          ∙ sum_of-sort_by more own cs
          ∙ sum_of-exact_creditors (λ i a. if i == k then a else 0) (λ i. if_zero (i == k)) ns,
    )
