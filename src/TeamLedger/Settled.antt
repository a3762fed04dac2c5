-- ===== src/TeamLedger/Settled.antt =====
-- `generateSettlement` on whole amounts, against the reference of TeamLedger/Exact.
use allinle.Prelude.{
  ℕ, suc, zero, ◌+◌, ◌-◌, ◌≤◌, min, ◌≡◌, refl, sym, ap, ap₂, ◌∙◌, subst, Bool, true, false, not,
  List, [], ◌∷◌, map, leb, if◌then◌else◌, length, sort_by, arith, Bool-cases, inl, inr,
}
use allinle.Prelude.Translated.{AllGood, sort_by-AllGood, sort_by-map}
use allinle.Prelude.Sorted.{length-map}
use allinle.Prelude.Int.{ℤ, pos, negsuc, ltb_ℤ, pos_part, neg_part, sub_ℕ, ◌+ℤ◌, ◌-ℤ◌}
use allinle.TeamLedger.{is_zero}
use allinle.TeamLedger.Settlement.{
  Numbers, Net, Suggestion, settle_from, ascending, descending, creditors, debtors,
  generate_settlement,
}
use allinle.TeamLedger.Exact.{
  Share, Payment, WholeNet, settle_exactly, more, exact_creditors, exact_debtors, exact_settlement,
  exact_settlement-settles, Balanced, paid, received, debit, credit,
}

abbrev pub size : ℤ → ℕ
size a = pos_part a + neg_part a

abbrev pub lesser : ℤ → ℤ → ℤ
lesser a b = if ltb_ℤ b a then b else a

-- The arithmetic is exact on integers up to a bound, as that of doubles is up to 2 ^ 53.
pub record IsExact {ℓ} (F : Type ℓ) ⦃n : Numbers F⦄ (bound : ℕ) : Type ℓ where
  pub of : ℤ → F
  pub nought_of : n.nought ≡ of (pos 0)
  pub plus_of :
      (a b : ℤ)
      → size a ≤ bound
      → size b ≤ bound
      → size (a +ℤ b) ≤ bound
      → n.plus (of a) (of b) ≡ of (a +ℤ b)
  pub minus_of :
      (a b : ℤ)
      → size a ≤ bound
      → size b ≤ bound
      → size (a -ℤ b) ≤ bound
      → n.minus (of a) (of b) ≡ of (a -ℤ b)
  pub negate_of : (a : ℤ) → size a ≤ bound → n.negate (of a) ≡ of (pos 0 -ℤ a)
  pub least_of :
      (a b : ℤ) → size a ≤ bound → size b ≤ bound → n.least (of a) (of b) ≡ of (lesser a b)
  pub less_of : (a b : ℤ) → size a ≤ bound → size b ≤ bound → n.less (of a) (of b) ≡ ltb_ℤ a b
  pub is_zero_of : (a : ℤ) → size a ≤ bound → n.is_zero (of a) ≡ is_zero a

abbrev pub Within : ℕ → Share → Type 0
Within bound s = s.amount ≤ bound

abbrev minus_of_ℕ : ℕ → ℤ
minus_of_ℕ d = sub_ℕ 0 d

add_paid : (d a : ℕ) → a ≤ d → minus_of_ℕ d +ℤ pos a ≡ minus_of_ℕ (d - a)
unfolding ◌+ℤ◌
add_paid d a h = ground arith

take_paid : (c a : ℕ) → a ≤ c → pos c -ℤ pos a ≡ pos (c - a)
unfolding ◌-ℤ◌
take_paid c a h = ground arith

negate_debt : (d : ℕ) → pos 0 -ℤ minus_of_ℕ d ≡ pos d
unfolding ◌-ℤ◌
negate_debt d = ground arith

size_debt : (d : ℕ) → size (minus_of_ℕ d) ≡ d
size_debt d = ground arith

lesser_pos : (d c : ℕ) → lesser (pos d) (pos c) ≡ pos (min d c)
lesser_pos d c = ground arith

is_zero-debt : (d a : ℕ) → a ≤ d → is_zero (minus_of_ℕ (d - a)) ≡ leb d a
is_zero-debt d a h = ground arith

is_zero-left : (c a : ℕ) → a ≤ c → is_zero (pos (c - a)) ≡ leb c a
is_zero-left c a h = ground arith

module _ {ℓ} {F : Type ℓ} ⦃n : Numbers F⦄ (bound : ℕ) (x : IsExact F bound) where
  abbrev debtor : Share → Net F
  debtor s = record { id = s.id; amount = x.of (minus_of_ℕ s.amount) }

  abbrev creditor : Share → Net F
  creditor s = record { id = s.id; amount = x.of (pos s.amount) }

  abbrev pub suggested : Payment → Suggestion F
  suggested p = record { payer = p.payer; receiver = p.receiver; amount = x.of (pos p.amount) }

  least-of :
      (d c : ℕ)
      → d ≤ bound
      → c ≤ bound
      → n.least (n.negate (x.of (minus_of_ℕ d))) (x.of (pos c)) ≡ x.of (pos (min d c))
  least-of d c h k =
      ap (λ m. n.least m (x.of (pos c)))
        (x.negate_of (minus_of_ℕ d) (omega (arith, size_debt d)) ∙ ap x.of (negate_debt d))
      ∙ x.least_of (pos d) (pos c) (omega arith) (omega arith)
      ∙ ap x.of (lesser_pos d c)

  plus-of :
      (d a : ℕ)
      → d ≤ bound
      → a ≤ d
      → n.plus (x.of (minus_of_ℕ d)) (x.of (pos a)) ≡ x.of (minus_of_ℕ (d - a))
  plus-of d a h k =
      x.plus_of (minus_of_ℕ d) (pos a) (omega (arith, size_debt d)) (omega arith)
        (subst (λ z. size z ≤ bound) (sym (add_paid d a k)) (omega (arith, size_debt (d - a))))
      ∙ ap x.of (add_paid d a k)

  minus-of :
      (c a : ℕ) → c ≤ bound → a ≤ c → n.minus (x.of (pos c)) (x.of (pos a)) ≡ x.of (pos (c - a))
  minus-of c a h k =
      x.minus_of (pos c) (pos a) (omega arith) (omega arith)
        (subst (λ z. size z ≤ bound) (sym (take_paid c a k)) (omega arith))
      ∙ ap x.of (take_paid c a k)

  is_zero-owed : (d a : ℕ) → d ≤ bound → a ≤ d → n.is_zero (x.of (minus_of_ℕ (d - a))) ≡ leb d a
  is_zero-owed d a h k =
      x.is_zero_of (minus_of_ℕ (d - a)) (omega (arith, size_debt (d - a))) ∙ is_zero-debt d a k

  is_zero-rest : (c a : ℕ) → c ≤ bound → a ≤ c → n.is_zero (x.of (pos (c - a))) ≡ leb c a
  is_zero-rest c a h k = x.is_zero_of (pos (c - a)) (omega arith) ∙ is_zero-left c a k

  settle_from-exact :
      (k : ℕ) (ds cs : List Share)
      → AllGood (Within bound) ds
      → AllGood (Within bound) cs
      → settle_from k (map debtor ds) (map creditor cs) ≡ map suggested (settle_exactly k ds cs)
  unfolding settle_from settle_exactly
  settle_from-exact zero ds cs h g = refl
  settle_from-exact (suc k) [] cs h g = refl
  settle_from-exact (suc k) (d ∷ ds) [] h g = refl
  settle_from-exact (suc k) (d ∷ ds) (c ∷ cs) (hd, hs) (gc, gs) =
      let a = min d.amount c.amount in
      let pay : Payment = record { payer = d.id; receiver = c.id; amount = a } in
      let owed : Share = record d { amount = d.amount - a } in
      let left : Share = record c { amount = c.amount - a } in
      let small_d : d.amount - a ≤ bound = omega arith in
      let small_c : c.amount - a ≤ bound = omega arith in
      rw
        (
          least-of d.amount c.amount hd gc,
          plus-of d.amount a hd (omega arith),
          minus-of c.amount a gc (omega arith),
          is_zero-owed d.amount a hd (omega arith),
          is_zero-rest c.amount a gc (omega arith),
        )
        (elim (Bool-cases (leb d.amount a)) [
          | inl p ↦ elim (Bool-cases (leb c.amount a)) [
            | inl q ↦ rw (p, q) (ap (λ r. suggested pay ∷ r) (settle_from-exact k ds cs hs gs))
            | inr q ↦
                rw (p, q)
                  (ap (λ r. suggested pay ∷ r)
                    (settle_from-exact k ds (left ∷ cs) hs (small_c, gs)))
          ]
          | inr p ↦ elim (Bool-cases (leb c.amount a)) [
            | inl q ↦
                rw (p, q)
                  (ap (λ r. suggested pay ∷ r)
                    (settle_from-exact k (owed ∷ ds) cs (small_d, hs) gs))
            | inr q ↦
                rw (p, q)
                  (ap (λ r. suggested pay ∷ r)
                    (settle_from-exact k (owed ∷ ds) (left ∷ cs) (small_d, hs) (small_c, gs)))
          ]
        ])

abbrev pub NetsWithin : ℕ → List WholeNet → Type 0
NetsWithin bound [] = Unit
NetsWithin bound (m ∷ ms) = (size m.amount ≤ bound) × NetsWithin bound ms

positive : (a : ℤ) → ltb_ℤ (pos 0) a ≡ true → a ≡ pos (pos_part a)
positive (pos k) h = refl
positive (negsuc k) h = absurd (ground arith)

negative : (a : ℤ) → ltb_ℤ a (pos 0) ≡ true → a ≡ minus_of_ℕ (neg_part a)
negative (pos k) h = absurd (ground arith)
negative (negsuc k) h = ground arith

difference : (a b : ℕ) → ltb_ℤ (pos 0) (pos a -ℤ pos b) ≡ not (leb a b)
unfolding ◌-ℤ◌
difference a b = ground arith

debt_difference : (a b : ℕ) → ltb_ℤ (pos 0) (minus_of_ℕ a -ℤ minus_of_ℕ b) ≡ not (leb b a)
unfolding ◌-ℤ◌
debt_difference a b = ground arith

size-difference : (a b bound : ℕ) → a ≤ bound → b ≤ bound → size (pos a -ℤ pos b) ≤ bound
unfolding ◌-ℤ◌
size-difference a b bound h k = ground arith

size-debt_difference :
    (a b bound : ℕ) → a ≤ bound → b ≤ bound → size (minus_of_ℕ a -ℤ minus_of_ℕ b) ≤ bound
unfolding ◌-ℤ◌
size-debt_difference a b bound h k = ground arith

not-not : (b : Bool) → not (not b) ≡ b
not-not true = refl
not-not false = refl

module _ {ℓ} {F : Type ℓ} ⦃n : Numbers F⦄ (bound : ℕ) (x : IsExact F bound) where
  abbrev pub whole_net : WholeNet → Net F
  whole_net m = record { id = m.id; amount = x.of m.amount }

  above : (a : ℤ) → size a ≤ bound → n.less n.nought (x.of a) ≡ ltb_ℤ (pos 0) a
  above a h = ap (λ z. n.less z (x.of a)) x.nought_of ∙ x.less_of (pos 0) a (omega arith) h

  below : (a : ℤ) → size a ≤ bound → n.less (x.of a) n.nought ≡ ltb_ℤ a (pos 0)
  below a h = ap (n.less (x.of a)) x.nought_of ∙ x.less_of a (pos 0) h (omega arith)

  descending-more :
      (a b : Share)
      → a.amount ≤ bound
      → b.amount ≤ bound
      → descending (creditor bound x a) (creditor bound x b) ≡ more a b
  descending-more a b h k =
      let small = size-difference b.amount a.amount bound k h in
      ap (λ z. not (n.less n.nought z))
        (x.minus_of (pos b.amount) (pos a.amount) (omega arith) (omega arith) small)
      ∙ ap not (above (pos b.amount -ℤ pos a.amount) small ∙ difference b.amount a.amount)
      ∙ not-not (leb b.amount a.amount)

  ascending-more :
      (a b : Share)
      → a.amount ≤ bound
      → b.amount ≤ bound
      → ascending (debtor bound x a) (debtor bound x b) ≡ more a b
  ascending-more a b h k =
      let small = size-debt_difference a.amount b.amount bound h k in
      ap (λ z. not (n.less n.nought z))
        (x.minus_of (minus_of_ℕ a.amount) (minus_of_ℕ b.amount) (omega (arith, size_debt a.amount))
          (omega (arith, size_debt b.amount)) small)
      ∙ ap not (
          above (minus_of_ℕ a.amount -ℤ minus_of_ℕ b.amount) small
          ∙ debt_difference a.amount b.amount)
      ∙ not-not (leb b.amount a.amount)

  creditors-exact :
      (ms : List WholeNet)
      → NetsWithin bound ms
      → creditors (map whole_net ms) ≡ map (creditor bound x) (exact_creditors ms)
  creditors-exact [] h = refl
  creditors-exact (m ∷ ms) (g, h) = elim (Bool-cases (ltb_ℤ (pos 0) m.amount)) [
    | inl e ↦
        rw (above m.amount g, e)
          (ap₂ (λ (a : ℤ) (r : List (Net F)). record { id = m.id; amount = x.of a } ∷ r)
            (positive m.amount e) (creditors-exact ms h))
    | inr e ↦ rw (above m.amount g, e) (creditors-exact ms h)
  ]

  debtors-exact :
      (ms : List WholeNet)
      → NetsWithin bound ms
      → debtors (map whole_net ms) ≡ map (debtor bound x) (exact_debtors ms)
  debtors-exact [] h = refl
  debtors-exact (m ∷ ms) (g, h) = elim (Bool-cases (ltb_ℤ m.amount (pos 0))) [
    | inl e ↦
        rw (below m.amount g, e)
          (ap₂ (λ (a : ℤ) (r : List (Net F)). record { id = m.id; amount = x.of a } ∷ r)
            (negative m.amount e) (debtors-exact ms h))
    | inr e ↦ rw (below m.amount g, e) (debtors-exact ms h)
  ]

  creditors-Within :
      (ms : List WholeNet) → NetsWithin bound ms → AllGood (Within bound) (exact_creditors ms)
  creditors-Within [] h = tt
  creditors-Within (m ∷ ms) (g, h) = elim (Bool-cases (ltb_ℤ (pos 0) m.amount)) [
    | inl e ↦ rw e (omega arith, creditors-Within ms h)
    | inr e ↦ rw e (creditors-Within ms h)
  ]

  debtors-Within :
      (ms : List WholeNet) → NetsWithin bound ms → AllGood (Within bound) (exact_debtors ms)
  debtors-Within [] h = tt
  debtors-Within (m ∷ ms) (g, h) = elim (Bool-cases (ltb_ℤ m.amount (pos 0))) [
    | inl e ↦ rw e (omega arith, debtors-Within ms h)
    | inr e ↦ rw e (debtors-Within ms h)
  ]

  generate_settlement-exact :
      (ms : List WholeNet)
      → NetsWithin bound ms
      → generate_settlement (map whole_net ms) ≡ map (suggested bound x) (exact_settlement ms)
  unfolding generate_settlement exact_settlement
  generate_settlement-exact ms h =
      let ds = sort_by more (exact_debtors ms) in
      let cs = sort_by more (exact_creditors ms) in
      let few_ds = debtors-Within ms h in
      let few_cs = creditors-Within ms h in
      let ds_same : sort_by ascending (debtors (map whole_net ms)) ≡ map (debtor bound x) ds =
        ap (sort_by ascending) (debtors-exact ms h)
        ∙ sort_by-map (debtor bound x) more ascending (Within bound) ascending-more
            (exact_debtors ms) few_ds in
      let cs_same : sort_by descending (creditors (map whole_net ms)) ≡ map (creditor bound x) cs =
        ap (sort_by descending) (creditors-exact ms h)
        ∙ sort_by-map (creditor bound x) more descending (Within bound) descending-more
            (exact_creditors ms) few_cs in
      ap₂ (λ as' bs. settle_from (length as' + length bs) as' bs) ds_same cs_same
      ∙ ap₂ (λ a b. settle_from (a + b) (map (debtor bound x) ds) (map (creditor bound x) cs))
          (length-map (debtor bound x) ds) (length-map (creditor bound x) cs)
      ∙ settle_from-exact bound x (length ds + length cs) ds cs
          (sort_by-AllGood (debtor bound x) more ascending (Within bound) ascending-more
            (exact_debtors ms) few_ds)
          (sort_by-AllGood (creditor bound x) more descending (Within bound) descending-more
            (exact_creditors ms) few_cs)

-- Where the arithmetic is exact on whole numbers up to a bound, as that of doubles is up to 2 ^ 53, the nets
-- are whole numbers of at most that size, and what is to be received is as much as what is to be paid: the
-- suggestions of generateSettlement are whole numbers by which each participant pays as much as his net is
-- below 0, and receives as much as it is above 0. Nets with hundredths are not covered.
pub generate_settlement-settled {ℓ} :
    {F : Type ℓ} ⦃n : Numbers F⦄ (bound : ℕ) (x : IsExact F bound) (k : ℕ) (ms : List WholeNet)
    → NetsWithin bound ms
    → Balanced ms
    → (out : List Payment) × (generate_settlement (map (whole_net bound x) ms)
        ≡ map (suggested bound x) out)
      × (paid k out ≡ debit k ms)
      × (received k out ≡ credit k ms)
generate_settlement-settled bound x k ms h even =
    let (a, b) = exact_settlement-settles k ms even in
    (exact_settlement ms, generate_settlement-exact bound x ms h, a, b)
