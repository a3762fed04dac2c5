-- ===== src/Game/Seats.antt =====
-- Seats: the next one, the dealer, the blinds, and the players found by their seats.
pub mod Players
use allinle.Prelude.{
  ℕ, zero, suc, ◌+◌, ◌%◌, Bool, true, false, ◌&&◌, ◌||◌, not, List, [], ◌∷◌, map, Option, none,
  some, ltb, ◌==◌, if◌then◌else◌, length, get_or, find, filter, contains, sort_by, Result, ok, err,
  or_throw, throw_if, ◌>>=◌, ◌>>◌, sum_of,
}
use allinle.Errors.{PokerError, seat_not_in_hand, too_few_seats}
use allinle.Types.{Player, GameState, is_active, is_contender_status}
use allinle.Pot.{sort_numbers}

abbrev pub find_index : ℕ → List ℕ → Option ℕ
find_index a [] = none
find_index a (x ∷ xs) =
    if x == a then some 0 else elim (find_index a xs) [ none ↦ none | some i ↦ some (suc i) ]

abbrev pub or_else : Option ℕ → ℕ → ℕ
or_else none d = d
or_else (some a) d = a

-- Of no seats at all the source makes `undefined`, and this makes 0; no caller passes none.
unfoldable pub next_seat : List ℕ → ℕ → ℕ
unfolding sort_by
next_seat seats current =
    let sorted = sort_numbers seats in
    elim (find_index current sorted) [
      | none ↦ or_else (find (λ s. ltb current s) sorted) (get_or sorted 0 0)
      | some i ↦ get_or sorted ((i + 1) % length sorted) 0
    ]

unfoldable pub normalize_dealer_seat : ℕ → List ℕ → ℕ
normalize_dealer_seat dealer seats =
    if contains dealer seats
    then dealer
    else or_else (find (λ s. ltb dealer s) seats) (get_or seats 0 0)

pub record BlindSeats : Type 0 where
  pub dealer_seat : ℕ
  pub small_blind_seat : ℕ
  pub big_blind_seat : ℕ

unfoldable pub resolve_blind_seats : List ℕ → ℕ → Result PokerError BlindSeats
unfolding next_seat normalize_dealer_seat sort_by
resolve_blind_seats active_seats dealer_seat = do
  let seats = sort_numbers active_seats
  throw_if (ltb (length seats) 2) too_few_seats
  let dealer = normalize_dealer_seat dealer_seat seats
  let next = next_seat seats dealer
  ok (
      if length seats == 2
      then record { dealer_seat = dealer; small_blind_seat = dealer; big_blind_seat = next }
      else record {
        dealer_seat = dealer;
        small_blind_seat = next;
        big_blind_seat = next_seat seats next;
      })

-- `null` when fewer than two players have chips.
unfoldable pub next_dealer_seat : List Player → ℕ → Option ℕ
unfolding next_seat normalize_dealer_seat sort_by
next_dealer_seat players current =
    let seats =
      sort_numbers (map (λ p. p.seat_no) (filter (λ (p : Player). ltb 0 p.chips) players)) in
    if ltb (length seats) 2
    then none
    else some (next_seat seats (normalize_dealer_seat current seats))

abbrev pub at_seat : ℕ → Player → Bool
at_seat s p = p.seat_no == s

unfoldable pub find_player : List Player → ℕ → Result PokerError Player
find_player players seat = or_throw (find (at_seat seat) players) seat_not_in_hand

-- A write to the player object of a seat: `findPlayer(state, seat).field = …`.
unfoldable pub update_player : ℕ → (Player → Player) → List Player → List Player
update_player seat f [] = []
update_player seat f (p ∷ ps) = if at_seat seat p then f p ∷ ps else p ∷ update_player seat f ps

unfoldable pub total_invested : List Player → ℕ
total_invested players = sum_of (λ p. p.invested_this_hand) players

abbrev pub is_contender : Player → Bool
is_contender p = is_contender_status p.status

abbrev pub can_act : Player → Bool
can_act p = is_active p.status && ltb 0 p.chips

-- What `firstActionableSeatAfter` looks for.
abbrev pub must_act : ℕ → Player → Bool
must_act current_bet p =
    can_act p && (not p.has_acted_this_street || ltb p.invested_this_street current_bet)

-- The rounds of the loop that are left, and its cursor.
unfoldable pub scan_seats : GameState → List ℕ → ℕ → ℕ → Result PokerError (Option ℕ)
unfolding find_player
scan_seats state seats zero cursor = ok none
scan_seats state seats (suc n) cursor =
    let rest = scan_seats state seats n (next_seat seats cursor) in
    find_player state.players (next_seat seats cursor) >>= λ p.
    if must_act state.current_bet p then ok (some p.seat_no) else rest

unfoldable pub first_actionable_seat_after : GameState → ℕ → Result PokerError (Option ℕ)
unfolding scan_seats next_seat
first_actionable_seat_after state seat =
    let seats = sort_numbers (map (λ p. p.seat_no) state.players) in
    scan_seats state seats (length seats) seat
