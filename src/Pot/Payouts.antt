-- ===== src/Pot/Payouts.antt =====
-- How `allocateSidePots` pays a pot: to whom, and how much in all.
use allinle.Prelude.{
  ℕ, suc, ◌+◌, ◌-◌, ◌*◌, ◌/◌, ◌%◌, ◌≤◌, ◌<◌, min, max, ◌≡◌, refl, sym, ◌∙◌, ◌≢◌, ◌↔◌, ◌⊎◌, inl, inr,
  true, false, ◌&&◌, List, [], ◌∷◌, Option, none, some, ltb, leb, ◌==◌, if◌then◌else◌, Bool-cases,
  length, filter, contains, sum_of, arith, ==→eq, ==_refl, Option-cases, ltb→lt, ltb_false→le,
}
use allinle.Prelude.Sorted.{
  Distinct, contains-sort_by, length-sort_by, sort_by-Distinct, contains-filter, filter-Distinct,
}
use allinle.Types.{SidePot}
use allinle.Pot.{lookup, insert, higher, best_rank, has_rank, winner_seats, pay, allocate_pot}

abbrev pub paid_out : List (ℕ × ℕ) → ℕ
paid_out = sum_of (λ e. e.1)

sum-insert :
    (k v : ℕ) (d : List (ℕ × ℕ)) → lookup k d ≡ none → paid_out (insert k v d) ≡ paid_out d + v
sum-insert k v [] h = omega arith
sum-insert k v (e ∷ d) h = ground (arith, sum-insert k v d)

lookup-insert :
    (j k v : ℕ) (d : List (ℕ × ℕ))
    → lookup j (insert k v d) ≡ (if k == j then some v else lookup j d)
lookup-insert j k v [] = refl
lookup-insert j k v (e ∷ d) = ground (arith, lookup-insert j k v d)

-- No seat of a list has been paid yet.
abbrev Unpaid : List ℕ → List (ℕ × ℕ) → Type 0
Unpaid [] d = Unit
Unpaid (s ∷ ss) d = (lookup s d ≡ none) × Unpaid ss d

Unpaid-insert :
    (ss : List ℕ) (k v : ℕ) (d : List (ℕ × ℕ))
    → contains k ss ≡ false
    → Unpaid ss d
    → Unpaid ss (insert k v d)
Unpaid-insert [] k v d h u = tt
Unpaid-insert (s ∷ ss) k v d h u = ground (arith, Unpaid-insert ss k v d, lookup-insert s k v d)

sum-pay :
    (share remainder index : ℕ) (ss : List ℕ) (d : List (ℕ × ℕ))
    → Distinct ss
    → Unpaid ss d
    → paid_out (pay share remainder index ss d)
      ≡ paid_out d + share * length ss + min (remainder - index) (length ss)
unfolding pay
sum-pay share remainder index [] d h u = omega arith
sum-pay share remainder index (s ∷ ss) d h u =
    sum-pay share remainder (suc index) ss _ h.1 (Unpaid-insert ss s _ d h.0 u.1)
    ∙ elim (Bool-cases (ltb index remainder)) [
      | inl e ↦ rw e (omega (arith, sum-insert s (share + 1) d u.0, ltb→lt _ _ e))
      | inr e ↦ rw e (omega (arith, sum-insert s (share + 0) d u.0, ltb_false→le _ _ e))
    ]

winners-Distinct :
    (ranks : List (ℕ × ℕ)) (seats : List ℕ) → Distinct seats → Distinct (winner_seats ranks seats)
unfolding winner_seats
winners-Distinct ranks seats h = sort_by-Distinct leb _ (filter-Distinct _ seats h)

-- The best rank is that of some seat.
best_rank-attained :
    (ranks : List (ℕ × ℕ)) (seats : List ℕ) (b : ℕ)
    → best_rank ranks seats ≡ some b
    → 0 < length (filter (λ s. has_rank (lookup s ranks) (some b)) seats)
best_rank-attained ranks [] b e = cc
best_rank-attained ranks (s ∷ ss) b e = elim (Option-cases (best_rank ranks ss)) [
  | inl n ↦ ground arith
  | inr (c, f) ↦ ground (arith, best_rank-attained ranks ss b)
]

winners-some :
    (ranks : List (ℕ × ℕ)) (seats : List ℕ)
    → best_rank ranks seats ≢ none
    → 0 < length (winner_seats ranks seats)
unfolding winner_seats
winners-some ranks seats h = elim (Option-cases (best_rank ranks seats)) [
  | inl n ↦ absurd (h n)
  | inr (b, e) ↦
      rw
        (
          length-sort_by leb
              (filter (λ s. has_rank (lookup s ranks) (best_rank ranks seats)) seats),
          e,
        )
        (best_rank-attained ranks seats b e)
]

shares_lem : (a n : ℕ) → 0 < n → 0 + a / n * n + min (a % n - 0) n ≡ a
shares_lem a n h = grind arith

-- If the seats of a pot are different and one of them has a rank, then the payouts add up to the pot:
-- no chip of it is lost or made up by the division.
pub sum-allocate_pot :
    (ranks : List (ℕ × ℕ)) (pot : SidePot)
    → Distinct pot.eligible_seat_nos
    → best_rank ranks pot.eligible_seat_nos ≢ none
    → paid_out (allocate_pot ranks pot).payouts ≡ pot.amount
unfolding allocate_pot
sum-allocate_pot ranks pot d h =
    let n = length (winner_seats ranks pot.eligible_seat_nos) in
    let pos : 0 < n = winners-some ranks pot.eligible_seat_nos h in
    sum-pay (pot.amount / n) (pot.amount % n) 0 (winner_seats ranks pot.eligible_seat_nos) []
      (winners-Distinct ranks pot.eligible_seat_nos d) (none_paid _)
    ∙ shares_lem pot.amount n pos
  where
    none_paid : (ss : List ℕ) → Unpaid ss []
    none_paid [] = tt
    none_paid (s ∷ ss) = (refl, none_paid ss)

higher_left : (q : ℕ) (o : Option ℕ) → (b : ℕ) × (higher (some q) o ≡ some b) × (q ≤ b)
higher_left q none = (q, refl, omega arith)
higher_left q (some c) = (max q c, refl, omega arith)

higher_right : (o : Option ℕ) (c : ℕ) → (b : ℕ) × (higher o (some c) ≡ some b) × (c ≤ b)
higher_right none c = (c, refl, omega arith)
higher_right (some a) c = (max a c, refl, omega arith)

pub best_rank-above :
    (ranks : List (ℕ × ℕ)) (seats : List ℕ) (t q : ℕ)
    → contains t seats ≡ true
    → lookup t ranks ≡ some q
    → (b : ℕ) × (best_rank ranks seats ≡ some b) × (q ≤ b)
best_rank-above ranks [] t q c e = cc
best_rank-above ranks (s ∷ ss) t q c e = elim (Bool-cases (s == t)) [
  | inl same ↦ rw (==→eq s t same, e) (higher_left q (best_rank ranks ss))
  | inr other ↦
      let (b, f, le) = best_rank-above ranks ss t q (ground arith) e in
      let (d, g, le') = higher_right (lookup s ranks) b in (d, rw f g, omega arith)
]

best_rank-seat :
    (ranks : List (ℕ × ℕ)) (seats : List ℕ) (b : ℕ)
    → best_rank ranks seats ≡ some b
    → (t : ℕ) × (contains t seats ≡ true) × (lookup t ranks ≡ some b)
best_rank-seat ranks [] b e = cc
best_rank-seat ranks (s ∷ ss) b e = elim (head_or_tail (lookup s ranks) (best_rank ranks ss) b e) [
  | inl f ↦ (s, ground (arith, ==_refl s), f)
  | inr f ↦ let (t, c, g) = best_rank-seat ranks ss b f in (t, ground arith, g)
]
  where
    head_or_tail : (o p : Option ℕ) (b : ℕ) → higher o p ≡ some b → (o ≡ some b) ⊎ (p ≡ some b)
    head_or_tail o p b e = ground arith

contains-winner_seats :
    (ranks : List (ℕ × ℕ)) (seats : List ℕ) (s : ℕ)
    → contains s (winner_seats ranks seats)
      ≡ (contains s seats && has_rank (lookup s ranks) (best_rank ranks seats))
unfolding winner_seats
contains-winner_seats ranks seats s = contains-sort_by leb s _ ∙ contains-filter s _ seats

has_rank-true : (o p : Option ℕ) → has_rank o p ≡ true → (r : ℕ) × (o ≡ some r) × (p ≡ some r)
has_rank-true (some a) (some b) h = (a, refl, ground arith)
has_rank-true none p h = cc
has_rank-true (some a) none h = cc

-- A seat wins a pot exactly if it is eligible, it has a rank, and no eligible seat has a higher one.
pub winner_seats_iff :
    (ranks : List (ℕ × ℕ)) (seats : List ℕ) (s : ℕ)
    → (contains s (winner_seats ranks seats) ≡ true) ↔ (
        (contains s seats ≡ true)
        × (r : ℕ) × (lookup s ranks ≡ some r)
        × ((t q : ℕ) → contains t seats ≡ true → lookup t ranks ≡ some q → q ≤ r))
winner_seats_iff ranks seats s = (to, back)
  where
    to :
        contains s (winner_seats ranks seats) ≡ true
        → (contains s seats ≡ true)
          × (r : ℕ) × (lookup s ranks ≡ some r)
          × ((t q : ℕ) → contains t seats ≡ true → lookup t ranks ≡ some q → q ≤ r)
    to h =
        let both : (contains s seats && has_rank (lookup s ranks) (best_rank ranks seats)) ≡ true =
          sym (contains-winner_seats ranks seats s) ∙ h in
        let (r, e, f) = has_rank-true (lookup s ranks) (best_rank ranks seats) (ground arith) in
        (ground arith, r, e, λ t q c g. below r f t q (best_rank-above ranks seats t q c g))
      where
        below :
            (r : ℕ)
            → best_rank ranks seats ≡ some r
            → (t q : ℕ) → (b : ℕ) × (best_rank ranks seats ≡ some b) × (q ≤ b)
            → q ≤ r
        below r f t q (b, g, le) = ground arith

    back :
        (contains s seats ≡ true)
          × (r : ℕ) × (lookup s ranks ≡ some r)
          × ((t q : ℕ) → contains t seats ≡ true → lookup t ranks ≡ some q → q ≤ r)
        → contains s (winner_seats ranks seats) ≡ true
    back (c, r, e, top) =
        let (b, f, le) = best_rank-above ranks seats s r c e in
        let (t, d, g) = best_rank-seat ranks seats b f in
        let same : b ≤ r = top t b d g in
        contains-winner_seats ranks seats s ∙ rw (c, e, f) (ground (arith, same))
