-- ===== src/PracticeRoom/Sound/Seats.antt =====
-- The seat of a member who joins, in apps/api/src/practice-room/practice-room.service.ts.
use allinle.Prelude.{
  ℕ, suc, zero, ◌+◌, ◌≤◌, ◌<◌, ◌≡◌, refl, ap, subst, true, false, List, [], ◌∷◌, map, Option, none,
  some, contains, filter, length, leb, arith, ok, leb_false→lt, leb→le, ◌⊎◌, Option-cases,
  Bool-cases, inl, inr, err,
}
use allinle.PracticeRoom.{Room, RoomPlayer, room_full, new_player, first_free, take_seat, seats_of}

pub first_free-some :
    (n seat : ℕ) (occupied : List ℕ) (k : ℕ)
    → first_free n seat occupied ≡ some k
    → (contains k occupied ≡ false) × (seat ≤ k) × (k < seat + n)
unfolding first_free
first_free-some zero seat occupied k e = cc
first_free-some (suc n) seat occupied k e = elim (Bool-cases (contains seat occupied)) [
  | inl b ↦
      let (c, lo, hi) = first_free-some n (suc seat) occupied k (rw b at e) in
      (c, omega arith, omega arith)
  | inr b ↦
      let same : seat ≡ k = some_injective (rw b at e) in
      (subst (λ j. contains j occupied ≡ false) same b, omega arith, omega arith)
]
  where
    some_injective : {a b : ℕ} → ◌≡◌ {A = Option ℕ} (some a) (some b) → a ≡ b
    some_injective h = cc

-- The occupied seats from a seat on.
abbrev from_on : ℕ → List ℕ → List ℕ
from_on seat occupied = filter (leb seat) occupied

from_on-suc : (seat : ℕ) (os : List ℕ) → length (from_on (suc seat) os) ≤ length (from_on seat os)
from_on-suc seat [] = omega arith
from_on-suc seat (o ∷ os) = ground (arith, from_on-suc seat os)

from_on-occupied :
    (seat : ℕ) (os : List ℕ)
    → contains seat os ≡ true
    → length (from_on (suc seat) os) < length (from_on seat os)
from_on-occupied seat [] h = cc
from_on-occupied seat (o ∷ os) h = ground (arith, from_on-occupied seat os, from_on-suc seat os)

length-from_on : (seat : ℕ) (os : List ℕ) → length (from_on seat os) ≤ length os
length-from_on seat [] = omega arith
length-from_on seat (o ∷ os) = ground (arith, length-from_on seat os)

-- If none of `n` seats is free, at least `n` are occupied.
first_free-none :
    (n seat : ℕ) (os : List ℕ) → first_free n seat os ≡ none → n ≤ length (from_on seat os)
unfolding first_free
first_free-none zero seat os e = omega arith
first_free-none (suc n) seat os e = elim (Bool-cases (contains seat os)) [
  | inl b ↦ omega (arith, first_free-none n (suc seat) os (rw b at e), from_on-occupied seat os b)
  | inr b ↦ cc (rw b at e)
]

length-seats :
    (players : List RoomPlayer)
    → length (map (λ (p : RoomPlayer). p.seat_no) players) ≡ length players
length-seats [] = refl
length-seats (p ∷ ps) = ap suc (length-seats ps)

first_free-found :
    (room : Room)
    → length room.players < room.player_count
    → (k : ℕ) × (first_free room.player_count 1 (seats_of room) ≡ some k)
first_free-found room fits = elim (Option-cases (first_free room.player_count 1 (seats_of room))) [
  | inl f ↦ absurd (
      ground (
        arith,
        first_free-none room.player_count 1 (seats_of room) f,
        length-from_on 1 (seats_of room),
        length-seats room.players,
      ))
  | inr found ↦ found
]

-- Either a room has fewer players than it may have, and a member who joins gets a seat of the room that
-- nobody has, with the room's chips, or it has as many or more, and he is refused because it is full.
pub take_seat-cases :
    (room : Room) (user : ℕ)
    → ((length room.players < room.player_count)
        × ((k : ℕ) × (take_seat room user ≡ ok (new_player user k room.initial_practice_chips))
            × (contains k (seats_of room) ≡ false)
            × (1 ≤ k)
            × (k ≤ room.player_count)))
      ⊎ ((room.player_count ≤ length room.players) × (take_seat room user ≡ err room_full))
unfolding take_seat
take_seat-cases room user = elim (Bool-cases (leb room.player_count (length room.players))) [
  | inl b ↦ inr (leb→le room.player_count (length room.players) b, rw b refl)
  | inr b ↦
      let fits = leb_false→lt room.player_count (length room.players) b in
      let (k, f) = first_free-found room fits in
      let (free, lo, hi) = first_free-some room.player_count 1 (seats_of room) k f in
      inl (fits, (k, rw (b, f) refl, free, lo, omega arith))
]
