-- ===== src/Evaluator/Compare.antt =====
-- The two orders of hands: `compareHands`, which `findWinners` uses, and `rankValue`, by which the
-- side pots are paid.
use allinle.Prelude.{
  ℕ, zero, suc, ◌+◌, ◌-◌, ◌*◌, ◌≤◌, ◌<◌, ◌≡◌, refl, sym, ap, ap₂, subst, max, false, List, [], ◌∷◌,
  leb, ◌==◌, ==→eq, if◌then◌else◌, length, get_or, arith, Bool-cases, inl, inr,
}
use allinle.Prelude.Int.{ℤ, pos, negsuc, sub_ℕ}
use allinle.Cards.{Card}
use allinle.HandRank.{HandRankCategory, hand_rank_strength}
use allinle.Evaluator.{pad, encode_from, encode_rank, hand, tie_diff, compare_hands}

-- A comparator's answer that says how two numbers are ordered.
pub data Agrees : ℤ → ℕ → ℕ → Type 0 where
  same : {a b : ℕ} → a ≡ b → Agrees (pos 0) a b
  above : {a b n : ℕ} → b < a → Agrees (pos (suc n)) a b
  below : {a b n : ℕ} → a < b → Agrees (negsuc n) a b

-- Every number is below 15.
abbrev pub AllSmall : List ℕ → Type 0
AllSmall [] = Unit
AllSmall (d ∷ ds) = (d < 15) × AllSmall ds

-- The numbers of a list from an index on, with zeros behind.
digits : ℕ → ℕ → List ℕ → List ℕ
digits zero i xs = []
digits (suc n) i xs = get_or xs i 0 ∷ digits n (suc i) xs

get_or-small : (xs : List ℕ) (i : ℕ) → AllSmall xs → get_or xs i 0 < 15
get_or-small [] i h = omega arith
get_or-small (x ∷ xs) zero h = h.0
get_or-small (x ∷ xs) (suc i) h = get_or-small xs i h.1

encode_from-lt :
    (n i j : ℕ) (xs ys : List ℕ) (v w : ℕ)
    → AllSmall xs
    → AllSmall ys
    → v < w
    → encode_from v (digits n i xs) < encode_from w (digits n j ys)
unfolding encode_from digits
encode_from-lt zero i j xs ys v w h k l = l
encode_from-lt (suc n) i j xs ys v w h k l =
    encode_from-lt n (suc i) (suc j) xs ys (v * 15 + get_or xs i 0) (w * 15 + get_or ys j 0) h k
      (omega (arith, get_or-small xs i h, get_or-small ys j k))

sub-Agrees :
    (x y a b : ℕ) → (x == y) ≡ false → (x < y → a < b) → (y < x → b < a) → Agrees (sub_ℕ x y) a b
sub-Agrees x y a b n lo hi = elim (Bool-cases (leb y x)) [
  | inl e ↦
      let gt : y < x = ground arith in
      rw e (subst (λ m. Agrees (pos m) a b) {x = suc (x - y - 1)} (omega arith) (above (hi gt)))
  | inr e ↦ rw e (below (lo (ground arith)))
]

tie_diff-Agrees :
    (n i : ℕ) (xs ys : List ℕ) (v : ℕ)
    → AllSmall xs
    → AllSmall ys
    → Agrees (tie_diff n i xs ys) (encode_from v (digits n i xs)) (encode_from v (digits n i ys))
unfolding encode_from digits tie_diff
tie_diff-Agrees zero i xs ys v h k = same refl
tie_diff-Agrees (suc n) i xs ys v h k = elim (Bool-cases (get_or xs i 0 == get_or ys i 0)) [
  | inl e ↦ rw e (
      subst
        (λ z.
          Agrees (tie_diff n (suc i) xs ys)
            (encode_from (v * 15 + get_or xs i 0) (digits n (suc i) xs))
            (encode_from (v * 15 + z) (digits n (suc i) ys)))
        (==→eq (get_or xs i 0) (get_or ys i 0) e)
        (tie_diff-Agrees n (suc i) xs ys (v * 15 + get_or xs i 0) h k))
  | inr e ↦ rw e (
      sub-Agrees (get_or xs i 0) (get_or ys i 0) _ _ e
        (λ l. encode_from-lt n (suc i) (suc i) xs ys _ _ h k (omega arith))
        (λ l. encode_from-lt n (suc i) (suc i) ys xs _ _ k h (omega arith)))
]

-- Five numbers are enough.
get_or-beyond : (xs : List ℕ) (i : ℕ) → length xs ≤ i → get_or xs i 0 ≡ 0
get_or-beyond [] i h = refl
get_or-beyond (x ∷ xs) zero h = ground arith
get_or-beyond (x ∷ xs) (suc i) h = get_or-beyond xs i (omega arith)

tie_diff-none :
    (m i : ℕ) (xs ys : List ℕ) → length xs ≤ i → length ys ≤ i → tie_diff m i xs ys ≡ pos 0
unfolding tie_diff
tie_diff-none zero i xs ys h k = refl
tie_diff-none (suc m) i xs ys h k =
    rw (get_or-beyond xs i h, get_or-beyond ys i k)
      (tie_diff-none m (suc i) xs ys (omega arith) (omega arith))

tie_diff-more :
    (n m i : ℕ) (xs ys : List ℕ)
    → n ≤ m
    → length xs ≤ n + i
    → length ys ≤ n + i
    → tie_diff n i xs ys ≡ tie_diff m i xs ys
unfolding tie_diff
tie_diff-more zero m i xs ys l h k = sym (tie_diff-none m i xs ys (omega arith) (omega arith))
tie_diff-more (suc n) zero i xs ys l h k = ground arith
tie_diff-more (suc n) (suc m) i xs ys l h k =
    ap (λ z. if get_or xs i 0 == get_or ys i 0 then z else sub_ℕ (get_or xs i 0) (get_or ys i 0))
      (tie_diff-more n m (suc i) xs ys (omega arith) (omega arith) (omega arith))

pad-digits : (ts : List ℕ) → length ts ≤ 5 → pad (5 - length ts) ts ≡ digits 5 0 ts
unfolding pad digits
pad-digits [] h = refl
pad-digits (a ∷ []) h = refl
pad-digits (a ∷ b ∷ []) h = refl
pad-digits (a ∷ b ∷ c ∷ []) h = refl
pad-digits (a ∷ b ∷ c ∷ d ∷ []) h = refl
pad-digits (a ∷ b ∷ c ∷ d ∷ e ∷ []) h = refl
pad-digits (a ∷ b ∷ c ∷ d ∷ e ∷ f ∷ r) h = ground arith

-- For two hands as `hand` makes them, with at most five tiebreakers, each below 15, `compareHands`
-- and the order of their rank values say the same: which hand is better, or that they tie.
pub compare_hands-Agrees :
    (c d : HandRankCategory) (xs ys : List ℕ) (best other : List Card)
    → length xs ≤ 5
    → length ys ≤ 5
    → AllSmall xs
    → AllSmall ys
    → Agrees
        (compare_hands (hand c xs best) (hand d ys other))
        (hand c xs best).rank_value
        (hand d ys other).rank_value
unfolding compare_hands hand encode_rank
compare_hands-Agrees c d xs ys best other lx ly h k =
    subst (λ (p : ℕ × ℕ). Agrees (compare_hands (hand c xs best) (hand d ys other)) (p.0) (p.1))
      (ap₂
        (λ us vs.
          (encode_from 0 (hand_rank_strength c ∷ us), encode_from 0 (hand_rank_strength d ∷ vs)))
        (sym (pad-digits xs lx)) (sym (pad-digits ys ly)))
      by_category
  where
    by_category :
        Agrees
          (compare_hands (hand c xs best) (hand d ys other))
          (encode_from 0 (hand_rank_strength c ∷ digits 5 0 xs))
          (encode_from 0 (hand_rank_strength d ∷ digits 5 0 ys))
    by_category = elim (Bool-cases (hand_rank_strength c == hand_rank_strength d)) [
      | inl e ↦
          rw
            (
              e,
              tie_diff-more (max (length xs) (length ys)) 5 0 xs ys (omega arith) (omega arith)
                  (omega arith),
            )
            (subst
              (λ z.
                Agrees (tie_diff 5 0 xs ys) (encode_from 0 (hand_rank_strength c ∷ digits 5 0 xs))
                  (encode_from 0 (z ∷ digits 5 0 ys)))
              (==→eq (hand_rank_strength c) (hand_rank_strength d) e)
              (unfold encode_from in tie_diff-Agrees 5 0 xs ys (0 * 15 + hand_rank_strength c) h k))
      | inr e ↦ rw e (
          sub-Agrees (hand_rank_strength c) (hand_rank_strength d) _ _ e
            (λ l. unfold encode_from in encode_from-lt 5 0 0 xs ys _ _ h k (omega arith))
            (λ l. unfold encode_from in encode_from-lt 5 0 0 ys xs _ _ k h (omega arith)))
    ]
