-- ===== src/Pot/Levels.antt =====
-- The chips that `buildSidePots` puts into pots, by levels.
use allinle.Prelude.{
  ℕ, ◌+◌, ◌-◌, ◌*◌, ◌≤◌, ◌<◌, min, max, ◌≡◌, refl, sym, ap, ◌∙◌, ◌⊎◌, inl, inr, Bool, true, false,
  ◌&&◌, List, [], ◌∷◌, map, ltb, leb, if◌then◌else◌, Bool-cases, leb→le, leb_false→lt, length,
  filter, contains, dedup_from, sum_of, sort_by, arith, ap₂, fun_ext,
}
use allinle.Prelude.Sorted.{
  Above, sort-Above, contains-Above, contains-sort_by, length-sort_by, contains-dedup_from,
  dedup_from-Distinct, contains-filter, length-map, sum_of-add,
}
use allinle.Types.{SidePot, is_contender_status}
use allinle.Pot.{PotPlayer, pot_levels, contributors, eligible_seats, pots_from, build_side_pots}

-- The most that a contender has put into the pot.
pub contender_top : List PotPlayer → ℕ
contender_top [] = 0
contender_top (p ∷ ps) =
    if is_contender_status p.status
    then max p.invested_this_hand (contender_top ps)
    else contender_top ps

abbrev stakes : List PotPlayer → List ℕ
stakes ps = map (λ p. p.invested_this_hand) ps

-- A player's part of the pots of these levels, of a stake.
clip : ℕ → List ℕ → ℕ → ℕ
clip previous [] x = 0
clip previous (l ∷ ls) x = (if leb l x then l - previous else 0) + clip l ls x

clip_none :
    (previous : ℕ) (ls : List ℕ) (x : ℕ) → Above previous ls → x ≤ previous → clip previous ls x ≡ 0
unfolding clip
clip_none previous [] x h p = refl
clip_none previous (l ∷ ls) x h p = ground (arith, clip_none l ls x h.1)

clip_level :
    (previous : ℕ) (ls : List ℕ) (x : ℕ)
    → Above previous ls
    → contains x ls ≡ true
    → clip previous ls x ≡ x - previous
unfolding clip
clip_level previous [] x h c = cc
clip_level previous (l ∷ ls) x h c =
    ground (arith, clip_level l ls x h.1, clip_none l ls x h.1, contains-Above l x ls h.1)

eligible_seats-length :
    (l : ℕ) (ps : List PotPlayer)
    → 0 < l
    → ltb 0 (length (eligible_seats l ps)) ≡ leb l (contender_top ps)
unfolding contender_top sort_by
eligible_seats-length l ps h = ap (ltb 0) (length-sort_by leb _ ∙ length-map _ _) ∙ counted ps
  where
    counted :
        (ps : List PotPlayer)
        → ltb 0
            (length (filter (λ (p : PotPlayer). is_contender_status p.status) (contributors l ps)))
          ≡ leb l (contender_top ps)
    counted [] = ground arith
    counted (p ∷ ps) = ground (arith, counted ps)

-- The chips of one level, player by player.
mul-length :
    (l d : ℕ) (ps : List PotPlayer)
    → d * length (contributors l ps) ≡ sum_of (λ p. if leb l p.invested_this_hand then d else 0) ps
mul-length l d [] = omega arith
mul-length l d (p ∷ ps) = elim (Bool-cases (leb l p.invested_this_hand)) [
  | inl e ↦ rw e (omega (arith, mul-length l d ps))
  | inr e ↦ rw e (omega (arith, mul-length l d ps))
]

capped :
    (l x top d : ℕ)
    → (if leb l (min x top) then d else 0) ≡ (if leb l top then (if leb l x then d else 0) else 0)
capped l x top d = ground arith

sum_of-level :
    (l top d : ℕ) (ps : List PotPlayer)
    → sum_of (λ p. if leb l (min p.invested_this_hand top) then d else 0) ps
      ≡ (if leb l top then d * length (contributors l ps) else 0)
sum_of-level l top d ps = elim (Bool-cases (leb l top)) [
  | inl e ↦
      rw (e, mul-length l d ps)
        (ap (λ f. sum_of f ps) (fun_ext λ p. rw (capped l p.invested_this_hand top d, e) refl))
  | inr e ↦ rw e (
      ap (λ f. sum_of f ps) (fun_ext λ p. rw (capped l p.invested_this_hand top d, e) refl)
      ∙ sum_of-zero ps)
]
  where
    sum_of-zero : (ps : List PotPlayer) → sum_of (λ _. 0) ps ≡ 0
    sum_of-zero [] = refl
    sum_of-zero (p ∷ ps) = omega (arith, sum_of-zero ps)

-- One round of the loop adds the level's chips if anyone is eligible.
sum_of-push :
    (a n : ℕ) (seats : List ℕ) (rest : List SidePot) (e : Bool)
    → ltb 0 (length seats) ≡ e
    → sum_of
        (λ (p : SidePot). p.amount)
        (if ltb 0 a && ltb 0 (length seats)
          then record { amount = a; eligible_seat_nos = seats } ∷ rest
          else rest)
      ≡ (if e then a else 0) + sum_of (λ (p : SidePot). p.amount) rest
sum_of-push a n seats rest e h = ground arith

sum_of-pots_from :
    (ps : List PotPlayer) (previous : ℕ) (ls : List ℕ)
    → Above previous ls
    → sum_of (λ p. p.amount) (pots_from ps previous ls)
      ≡ sum_of (λ p. clip previous ls (min p.invested_this_hand (contender_top ps))) ps
unfolding pots_from clip
sum_of-pots_from ps previous [] h = zero_sum ps
  where
    zero_sum : (ps : List PotPlayer) → 0 ≡ sum_of (λ _. 0) ps
    zero_sum [] = refl
    zero_sum (p ∷ ps) = omega (arith, zero_sum ps)
sum_of-pots_from ps previous (l ∷ ls) h =
    sum_of-push ((l - previous) * length (contributors l ps)) 0 (eligible_seats l ps)
      (pots_from ps l ls) (leb l (contender_top ps)) (eligible_seats-length l ps (omega arith))
    ∙ ap₂ ◌+◌ (sym (sum_of-level l (contender_top ps) (l - previous) ps))
        (sum_of-pots_from ps l ls h.1)
    ∙ sym (sum_of-add _ _ ps)

-- The levels are the stakes other than 0.
contains-pot_levels :
    (a : ℕ) (ps : List PotPlayer) → contains a (pot_levels ps) ≡ (contains a (stakes ps) && ltb 0 a)
unfolding sort_by
contains-pot_levels a ps =
    contains-sort_by leb a _ ∙ contains-dedup_from a [] _ ∙ and_true _ ∙ contains-filter a _ _
  where
    and_true : (b : Bool) → (b && true) ≡ b
    and_true true = refl
    and_true false = refl

pot_levels-Above : (ps : List PotPlayer) → Above 0 (pot_levels ps)
unfolding sort_by
pot_levels-Above ps =
    sort-Above (dedup_from [] paid) (dedup_from-Distinct [] paid)
      (ground (arith, contains-dedup_from 0 [] paid, contains-filter 0 (λ a. ltb 0 a) (stakes ps)))
  where
    paid : List ℕ
    paid = filter (λ a. ltb 0 a) (stakes ps)

contender_top-level :
    (ps : List PotPlayer)
    → (contender_top ps ≡ 0) ⊎ (contains (contender_top ps) (stakes ps) ≡ true)
unfolding contender_top
contender_top-level [] = inl refl
contender_top-level (p ∷ ps) = ground (arith, contender_top-level ps)

clip-level :
    (ps : List PotPlayer) (m : ℕ) → contains m (stakes ps) ≡ true → clip 0 (pot_levels ps) m ≡ m
clip-level ps m c = elim (Bool-cases (ltb 0 m)) [
  | inl e ↦
      clip_level 0 (pot_levels ps) m (pot_levels-Above ps) (contains-pot_levels m ps ∙ ap₂ ◌&&◌ c e)
      ∙ omega arith
  | inr e ↦
      let z : m ≡ 0 = ground arith in
      clip_none 0 (pot_levels ps) m (pot_levels-Above ps) (omega arith) ∙ sym z
]

clip-stake :
    (ps : List PotPlayer) (x : ℕ)
    → contains x (stakes ps) ≡ true
    → clip 0 (pot_levels ps) (min x (contender_top ps)) ≡ min x (contender_top ps)
clip-stake ps x c = elim (Bool-cases (leb x (contender_top ps))) [
  | inl e ↦
      let m : min x (contender_top ps) ≡ x = omega (arith, leb→le _ _ e) in rw m (clip-level ps x c)
  | inr e ↦
      let m : min x (contender_top ps) ≡ contender_top ps = omega (arith, leb_false→lt _ _ e) in
      rw m (elim (contender_top-level ps) [
        | inl z ↦ clip_none 0 (pot_levels ps) _ (pot_levels-Above ps) (omega arith) ∙ sym z
        | inr c' ↦ clip-level ps (contender_top ps) c'
      ])
]

-- The pots hold, of each player's chips, as many as the highest stake of a contender.
pub sum_of-build_side_pots :
    (ps : List PotPlayer)
    → sum_of (λ p. p.amount) (build_side_pots ps)
      ≡ sum_of (λ p. min p.invested_this_hand (contender_top ps)) ps
unfolding build_side_pots
sum_of-build_side_pots ps =
    sum_of-pots_from ps 0 (pot_levels ps) (pot_levels-Above ps) ∙ each ps (λ x c. c)
  where
    each :
        (qs : List PotPlayer)
        → ((x : ℕ) → contains x (stakes qs) ≡ true → contains x (stakes ps) ≡ true)
        → sum_of (λ p. clip 0 (pot_levels ps) (min p.invested_this_hand (contender_top ps))) qs
          ≡ sum_of (λ p. min p.invested_this_hand (contender_top ps)) qs
    each [] sub = refl
    each (q ∷ qs) sub =
        ap₂ ◌+◌ (clip-stake ps q.invested_this_hand (sub _ (ground arith)))
          (each qs (λ x c. sub x (ground arith)))
