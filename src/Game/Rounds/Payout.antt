-- ===== src/Game/Rounds/Payout.antt =====
-- The chips at a showdown: what the contenders are paid, and what is left out.
use allinle.Prelude.{
  ℕ, suc, ◌+◌, ◌-◌, min, ◌≡◌, refl, sym, ap, ap₂, ◌∙◌, ◌≢◌, subst, Bool, true, ◌&&◌, List, [], ◌∷◌,
  ◌++◌, map, none, some, ◌==◌, ==_refl, arith, find, filter, length, contains, ltb, leb,
  if◌then◌else◌, sum_of, Bool-cases, lt→ltb, ok, >>=-eq-ok, ok_injective, map_result, inl, inr,
  sort_by,
}
use allinle.Prelude.Sorted.{Distinct, sort_by-Distinct, contains-sort_by}
use allinle.Cards.{Card}
use allinle.Evaluator.{EvaluatedHand, evaluate_seven_cards}
use allinle.Types.{Player, SidePot, PotAllocation, is_contender_status}
use allinle.Pot.{
  PotPlayer, pots_from, pot_levels, build_side_pots, allocate_side_pots, best_rank, eligible_seats,
  contributors, lookup,
}
use allinle.Pot.Levels.{contender_top, sum_of-build_side_pots}
use allinle.Pot.Payouts.{paid_out, sum-allocate_pot, best_rank-above}
use allinle.Game.Seats.{at_seat, find_player, update_player, is_contender, total_invested}
use allinle.Game.Seats.Players.{seats_of, chips_in_hand, sum_of-update_player, find_player-ok}
use allinle.Game.Rounds.{give, pay_players, pay_allocations, pot_player, evaluate_player}

-- What was put into the pot beyond the highest stake of a contender.
abbrev pub stranded_in : List PotPlayer → ℕ
stranded_in qs = sum_of (λ q. q.invested_this_hand - contender_top qs) qs

abbrev pub stranded : List Player → ℕ
stranded ps = stranded_in (map pot_player ps)

pub give-pot_players :
    (k a : ℕ) (ps : List Player) → map pot_player (update_player k (give a) ps) ≡ map pot_player ps
unfolding update_player
give-pot_players k a [] = refl
give-pot_players k a (p ∷ ps) = ground (arith, give-pot_players k a ps)

pub give-chips :
    (k a : ℕ) (ps : List Player) (p : Player)
    → find (at_seat k) ps ≡ some p
    → chips_in_hand (update_player k (give a) ps) ≡ chips_in_hand ps + a
give-chips k a ps p e = omega (arith, sum_of-update_player (λ q. q.chips) k (give a) ps p e)

pay_players-chips :
    (ds : List (ℕ × ℕ)) (ps qs : List Player)
    → pay_players ds ps ≡ ok qs
    → (chips_in_hand qs ≡ chips_in_hand ps + paid_out ds) × (map pot_player qs ≡ map pot_player ps)
unfolding pay_players
pay_players-chips [] ps qs e =
    subst (λ q. (chips_in_hand q ≡ chips_in_hand ps + 0) × (map pot_player q ≡ map pot_player ps))
      (ok_injective e) (omega arith, refl)
pay_players-chips ((k, a) ∷ ds) ps qs e =
    let (p, f, g) = >>=-eq-ok (find_player ps k) _ e in
    let (h, i) = pay_players-chips ds (update_player k (give a) ps) qs g in
    (omega (arith, h, give-chips k a ps p (find_player-ok ps k p f)), i ∙ give-pot_players k a ps)

pub pay_allocations-chips :
    (as' : List PotAllocation) (ps qs : List Player)
    → pay_allocations as' ps ≡ ok qs
    → (chips_in_hand qs ≡ chips_in_hand ps + sum_of (λ a. paid_out a.payouts) as')
      × (map pot_player qs ≡ map pot_player ps)
unfolding pay_allocations
pay_allocations-chips [] ps qs e =
    subst (λ q. (chips_in_hand q ≡ chips_in_hand ps + 0) × (map pot_player q ≡ map pot_player ps))
      (ok_injective e) (omega arith, refl)
pay_allocations-chips (a ∷ as') ps qs e =
    let (rs, f, g) = >>=-eq-ok (pay_players a.payouts ps) _ e in
    let (h, i) = pay_players-chips a.payouts ps rs f in
    let (j, k) = pay_allocations-chips as' rs qs g in (omega (arith, h, j), k ∙ i)

-- Every pot has different seats, and someone among them with a rank.
abbrev Payable : List (ℕ × ℕ) → List SidePot → Type 0
Payable ranks [] = Unit
Payable ranks (p ∷ ps) =
    Distinct p.eligible_seat_nos × (best_rank ranks p.eligible_seat_nos ≢ none) × Payable ranks ps

sum-allocate_side_pots :
    (ranks : List (ℕ × ℕ)) (pots : List SidePot)
    → Payable ranks pots
    → sum_of (λ a. paid_out a.payouts) (allocate_side_pots pots ranks) ≡ sum_of (λ p. p.amount) pots
unfolding allocate_side_pots
sum-allocate_side_pots ranks [] h = refl
sum-allocate_side_pots ranks (p ∷ ps) h =
    ap₂ ◌+◌ (sum-allocate_pot ranks p h.0 h.1) (sum-allocate_side_pots ranks ps h.2)

seat_list : List PotPlayer → List ℕ
seat_list ps = map (λ p. p.seat_no) ps

contains-seats_filter :
    (a : ℕ) (q : PotPlayer → Bool) (ps : List PotPlayer)
    → contains a (seat_list (filter q ps)) ≡ true
    → contains a (seat_list ps) ≡ true
unfolding seat_list
contains-seats_filter a q [] h = h
contains-seats_filter a q (p ∷ ps) h = ground (arith, contains-seats_filter a q ps)

Distinct-seats_filter :
    (q : PotPlayer → Bool) (ps : List PotPlayer)
    → Distinct (seat_list ps)
    → Distinct (seat_list (filter q ps))
unfolding seat_list
Distinct-seats_filter q [] h = tt
Distinct-seats_filter q (p ∷ ps) h =
    ground (arith, Distinct-seats_filter q ps h.1, contains-seats_filter p.seat_no q ps)

-- The contenders' seats.
abbrev contender_seats : List PotPlayer → List ℕ
contender_seats ps =
    map (λ p. p.seat_no) (filter (λ (p : PotPlayer). is_contender_status p.status) ps)

contains-eligible :
    (a l : ℕ) (ps : List PotPlayer)
    → contains a (eligible_seats l ps) ≡ true
    → contains a (contender_seats ps) ≡ true
unfolding sort_by
contains-eligible a l ps h = among ps (sym (contains-sort_by leb a _) ∙ h)
  where
    among :
        (ps : List PotPlayer)
        → contains a (contender_seats (contributors l ps)) ≡ true
        → contains a (contender_seats ps) ≡ true
    among [] h = h
    among (p ∷ ps) h = ground (arith, among ps)

-- Every one of these seats has a rank.
abbrev Ranked : List (ℕ × ℕ) → List ℕ → Type 0
Ranked ranks ss = (s : ℕ) → contains s ss ≡ true → (r : ℕ) × (lookup s ranks ≡ some r)

best_rank-ne_none :
    (ranks : List (ℕ × ℕ)) (s : ℕ) (ss : List ℕ)
    → Ranked ranks (s ∷ ss)
    → best_rank ranks (s ∷ ss) ≢ none
best_rank-ne_none ranks s ss h e =
    let c : contains s (s ∷ ss) ≡ true = ground (arith, ==_refl s) in
    let (r, f) = h s c in let (b, g, _) = best_rank-above ranks (s ∷ ss) s r c f in cc

Payable-push :
    (ranks : List (ℕ × ℕ)) (a : ℕ) (seats : List ℕ) (rest : List SidePot)
    → Distinct seats
    → Ranked ranks seats
    → Payable ranks rest
    → Payable ranks (
        if ltb 0 a && ltb 0 (length seats)
        then record { amount = a; eligible_seat_nos = seats } ∷ rest
        else rest)
Payable-push ranks a [] rest d h k = elim (Bool-cases (ltb 0 a)) [ inl e ↦ rw e k | inr e ↦ rw e k ]
Payable-push ranks a (s ∷ ss) rest d h k = elim (Bool-cases (ltb 0 a)) [
  | inl e ↦ rw (e, lt→ltb 0 (suc (length ss)) (omega arith)) (d, best_rank-ne_none ranks s ss h, k)
  | inr e ↦ rw e k
]

eligible_seats-Distinct :
    (l : ℕ) (ps : List PotPlayer) → Distinct (seat_list ps) → Distinct (eligible_seats l ps)
unfolding sort_by seat_list
eligible_seats-Distinct l ps d =
    sort_by-Distinct leb _
      (Distinct-seats_filter _ (contributors l ps) (Distinct-seats_filter _ ps d))

pots_from-Payable :
    (ranks : List (ℕ × ℕ)) (ps : List PotPlayer) (previous : ℕ) (ls : List ℕ)
    → Distinct (seat_list ps)
    → Ranked ranks (contender_seats ps)
    → Payable ranks (pots_from ps previous ls)
unfolding pots_from
pots_from-Payable ranks ps previous [] d h = tt
pots_from-Payable ranks ps previous (l ∷ ls) d h =
    Payable-push ranks _ (eligible_seats l ps) _ (eligible_seats-Distinct l ps d)
      (λ s c. h s (contains-eligible s l ps c)) (pots_from-Payable ranks ps l ls d h)

-- If the players sit at different seats and every contender has a rank, then what is paid out of all
-- pots is each player's stake, up to the highest stake of a contender.
pub sum-payouts :
    (ranks : List (ℕ × ℕ)) (ps : List PotPlayer)
    → Distinct (map (λ p. p.seat_no) ps)
    → Ranked ranks (contender_seats ps)
    → sum_of (λ a. paid_out a.payouts) (allocate_side_pots (build_side_pots ps) ranks)
      ≡ sum_of (λ p. min p.invested_this_hand (contender_top ps)) ps
unfolding build_side_pots seat_list
sum-payouts ranks ps d h =
    sum-allocate_side_pots ranks (build_side_pots ps)
      (pots_from-Payable ranks ps 0 (pot_levels ps) d h)
    ∙ sum_of-build_side_pots ps

abbrev ranks_of : List (ℕ × EvaluatedHand) → List (ℕ × ℕ)
ranks_of hands = map (λ h. (h.0, h.1.rank_value)) hands

evaluate_player-seat :
    (board : List Card) (p : Player) (h : ℕ × EvaluatedHand)
    → evaluate_player board p ≡ ok h
    → h.0 ≡ p.seat_no
unfolding evaluate_player
evaluate_player-seat board p h e =
    let (v, f, g) = >>=-eq-ok (evaluate_seven_cards (p.hole_cards ++ board)) _ e in
    ap (λ x. x.0) (sym (ok_injective g))

all-Ranked :
    (board : List Card) (cs : List Player) (hands : List (ℕ × EvaluatedHand))
    → map_result (evaluate_player board) cs ≡ ok hands
    → Ranked (ranks_of hands) (seats_of cs)
all-Ranked board [] hands e = λ s c. cc
all-Ranked board (p ∷ ps) hands e =
    let (h, f, g) = >>=-eq-ok (evaluate_player board p) _ e in
    let (hs, i, j) = >>=-eq-ok (map_result (evaluate_player board) ps) _ g in
    subst (λ l. Ranked (ranks_of l) (seats_of (p ∷ ps))) (ok_injective j)
      (either h hs (evaluate_player-seat board p h f) (all-Ranked board ps hs i))
  where
    either :
        (h : ℕ × EvaluatedHand) (hs : List (ℕ × EvaluatedHand))
        → h.0 ≡ p.seat_no
        → Ranked (ranks_of hs) (seats_of ps)
        → Ranked (ranks_of (h ∷ hs)) (seats_of (p ∷ ps))
    either h hs same k s c = elim (Bool-cases (h.0 == s)) [
      | inl e ↦ (h.1.rank_value, rw e)
      | inr e ↦ let (r, f) = k s (ground arith) in (r, rw e f)
    ]

contender_seats-map :
    (ps : List Player) → contender_seats (map pot_player ps) ≡ seats_of (filter is_contender ps)
contender_seats-map [] = refl
contender_seats-map (p ∷ ps) = ground (arith, contender_seats-map ps)

-- The hands that were evaluated rank every contender.
pub hands-Ranked :
    (board : List Card) (ps : List Player) (hands : List (ℕ × EvaluatedHand))
    → map_result (evaluate_player board) (filter is_contender ps) ≡ ok hands
    → Ranked (ranks_of hands) (contender_seats (map pot_player ps))
hands-Ranked board ps hands e =
    rw (contender_seats-map ps) (all-Ranked board (filter is_contender ps) hands e)

-- The stakes are what is paid out and what is stranded.
pub stranded_split :
    (ps : List Player)
    → sum_of (λ q. min q.invested_this_hand (contender_top (map pot_player ps))) (map pot_player ps)
        + stranded ps
      ≡ total_invested ps
unfolding total_invested
stranded_split ps = split (contender_top (map pot_player ps)) ps
  where
    split :
        (top : ℕ) (ps : List Player)
        → sum_of (λ q. min q.invested_this_hand top) (map pot_player ps)
            + sum_of (λ q. q.invested_this_hand - top) (map pot_player ps)
          ≡ sum_of (λ p. p.invested_this_hand) ps
    split top [] = refl
    split top (p ∷ ps) = omega (arith, split top ps)

pub pot_seats : (ps : List Player) → map (λ q. q.seat_no) (map pot_player ps) ≡ seats_of ps
pot_seats [] = refl
pot_seats (p ∷ ps) = ap (◌∷◌ p.seat_no) (pot_seats ps)
