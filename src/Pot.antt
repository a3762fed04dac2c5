-- ===== src/Pot.antt =====
-- packages/shared/src/poker/pot.ts: the side pots of a hand, and how each is paid out.
pub mod Levels
pub mod Payouts
use allinle.Prelude.{
  ℕ, zero, suc, ◌+◌, ◌-◌, ◌*◌, ◌/◌, ◌%◌, Bool, true, false, ◌&&◌, List, [], ◌∷◌, map, Option, none,
  some, ltb, leb, ◌==◌, if◌then◌else◌, length, filter, dedup_from, sort_by, max,
}
use allinle.Types.{PlayerStatus, SidePot, PotAllocation, is_contender_status}

pub record PotPlayer : Type 0 where
  pub seat_no : ℕ
  pub invested_this_hand : ℕ
  pub status : PlayerStatus

abbrev pub sort_numbers : List ℕ → List ℕ
unfolding sort_by
sort_numbers = sort_by leb

abbrev pub pot_levels : List PotPlayer → List ℕ
pot_levels players =
    sort_numbers (dedup_from [] (filter (λ a. ltb 0 a) (map (λ p. p.invested_this_hand) players)))

abbrev pub contributors : ℕ → List PotPlayer → List PotPlayer
contributors level = filter (λ p. leb level p.invested_this_hand)

abbrev pub eligible_seats : ℕ → List PotPlayer → List ℕ
eligible_seats level players = sort_numbers (
    map (λ p. p.seat_no)
      (filter (λ (p : PotPlayer). is_contender_status p.status) (contributors level players)))

-- The `for` loop over the levels, from the level before.
unfoldable pub pots_from : List PotPlayer → ℕ → List ℕ → List SidePot
unfolding sort_by
pots_from players previous [] = []
pots_from players previous (level ∷ levels) =
    let amount = (level - previous) * length (contributors level players) in
    let seats = eligible_seats level players in
    let rest = pots_from players level levels in
    if ltb 0 amount && ltb 0 (length seats)
    then record { amount = amount; eligible_seat_nos = seats } ∷ rest
    else rest

unfoldable pub build_side_pots : List PotPlayer → List SidePot
unfolding pots_from
build_side_pots players = pots_from players 0 (pot_levels players)

-- Objects keyed by numbers.
abbrev pub lookup : ℕ → List (ℕ × ℕ) → Option ℕ
lookup k [] = none
lookup k ((j, v) ∷ d) = if j == k then some v else lookup k d

abbrev pub insert : ℕ → ℕ → List (ℕ × ℕ) → List (ℕ × ℕ)
insert k v [] = (k, v) ∷ []
insert k v ((j, w) ∷ d) = if j == k then (k, v) ∷ d else (j, w) ∷ insert k v d

-- `Math.max` over ranks, where `none` is the -1 of an unranked seat, below every rank.
abbrev pub higher : Option ℕ → Option ℕ → Option ℕ
higher none b = b
higher (some a) none = some a
higher (some a) (some b) = some (max a b)

abbrev pub best_rank : List (ℕ × ℕ) → List ℕ → Option ℕ
best_rank ranks [] = none
best_rank ranks (s ∷ ss) = higher (lookup s ranks) (best_rank ranks ss)

-- `rankValueBySeatNo[seatNo] === bestRank`, false for an unranked seat.
abbrev pub has_rank : Option ℕ → Option ℕ → Bool
has_rank (some a) (some b) = a == b
has_rank _ _ = false

unfoldable pub winner_seats : List (ℕ × ℕ) → List ℕ → List ℕ
unfolding sort_by
winner_seats ranks seats =
    sort_numbers (filter (λ s. has_rank (lookup s ranks) (best_rank ranks seats)) seats)

-- The `forEach` over the winners: one chip more for the first `remainder` of them.
unfoldable pub pay : ℕ → ℕ → ℕ → List ℕ → List (ℕ × ℕ) → List (ℕ × ℕ)
pay share remainder index [] payouts = payouts
pay share remainder index (s ∷ ss) payouts =
    pay share remainder (suc index) ss
      (insert s (share + (if ltb index remainder then 1 else 0)) payouts)

unfoldable pub allocate_pot : List (ℕ × ℕ) → SidePot → PotAllocation
unfolding winner_seats pay
allocate_pot ranks pot =
    let winners = winner_seats ranks pot.eligible_seat_nos in
    record {
      pot = pot;
      winner_seat_nos = winners;
      payouts = pay (pot.amount / length winners) (pot.amount % length winners) 0 winners [];
    }

unfoldable pub allocate_side_pots : List SidePot → List (ℕ × ℕ) → List PotAllocation
unfolding allocate_pot
allocate_side_pots pots ranks = map (allocate_pot ranks) pots
