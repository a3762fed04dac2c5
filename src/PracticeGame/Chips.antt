-- ===== src/PracticeGame/Chips.antt =====
-- Where the chips of a room are: at its seats between hands, and in the state while a hand is played.
pub mod Actions
pub mod Rooms
pub mod Starts
use Prim.Native.String.{String}
use allinle.Prelude.{
  ℕ, suc, zero, ◌+◌, ◌≡◌, ◌≢◌, refl, sym, ap, ap₂, ◌∙◌, subst, Bool, true, false, ◌||◌, not, List,
  [], ◌∷◌, ◌++◌, map, Option, none, some, find, contains, any, ◌==◌, ==→eq, ==_refl, if◌then◌else◌,
  sum_of, arith, Bool-cases, inl, inr, map_result, Result, ok, err, throw_if, or_throw, ◌>>=◌,
  Ensures, good, failed, Ensures-guard, Ensures-bind, Ensures-if, Ensures-value, ensured, >>=-eq-ok,
  ok_injective,
}
use allinle.Prelude.Sorted.{Distinct}
use allinle.Types.{Player, GameState, GameStatus, GameAction, is_playing}
use allinle.Game.Seats.Players.{seats_of, chips_in_hand, stakes, hands_of-seats}
use allinle.Game.Rounds.{Event}
use allinle.PracticeGame.{
  RoomSeat, RoomForGame, Games, GameError, PracticeHand, update_row, is_at, has_room_id,
  has_hand_id,
}
use allinle.PracticeGame.Hands.{
  write_seats, persist_chips, persist_actions, persist_finished_hand, persist_aborted_hand,
  persist_players, merge_finished, merge_aborted, hand_player_aborted, hand_player_result,
  finished_system_actions, closed_hand, is_finished,
}

abbrev pub chips_of : Option RoomSeat → ℕ
chips_of none = 0
chips_of (some seat) = seat.chips

-- The chips that the room has for a seat, and for some seats together.
abbrev pub chips_at : List RoomSeat → ℕ → ℕ
chips_at seats k = chips_of (find (is_at k) seats)

abbrev pub chips_at_all : List RoomSeat → List ℕ → ℕ
chips_at_all seats ks = sum_of (chips_at seats) ks

-- The row of each player's seat has the chips that he has in hand.
abbrev pub Seated : List Player → List RoomSeat → Type 0
Seated [] seats = Unit
Seated (p ∷ ps) seats = (chips_at seats p.seat_no ≡ p.chips) × Seated ps seats

Seated-sum :
    (ps : List Player) (seats : List RoomSeat)
    → Seated ps seats
    → chips_at_all seats (seats_of ps) ≡ chips_in_hand ps
Seated-sum [] seats h = refl
Seated-sum (p ∷ ps) seats (e, h) = ap₂ ◌+◌ e (Seated-sum ps seats h)

abbrev set_chips : ℕ → RoomSeat → RoomSeat
set_chips n seat = record seat { chips = n }

-- A write to one seat.
record Wrote (k n : ℕ) (before after : List RoomSeat) : Type 0 where
  here : chips_at after k ≡ n
  elsewhere : (j : ℕ) → j ≢ k → chips_at after j ≡ chips_at before j

set_chips-Wrote :
    (k n : ℕ) (seats : List RoomSeat)
    → Ensures (Wrote k n seats) (update_row (is_at k) (set_chips n) seats)
unfolding update_row
set_chips-Wrote k n [] = failed
set_chips-Wrote k n (x ∷ xs) = elim (Bool-cases (is_at k x)) [
  | inl b ↦ rw b (good (record { here = rw b refl; elsewhere = λ j ne. ground (arith, ne) }))
  | inr b ↦ rw b (
      Ensures-bind (update_row (is_at k) (set_chips n) xs) _ λ ys e.
        let w = Ensures-value (set_chips-Wrote k n xs) e in
        good (record {
          here = rw b w.here;
          elsewhere = λ j ne. elim (Bool-cases (is_at j x)) [
            | inl c ↦ rw c refl
            | inr c ↦ rw c (w.elsewhere j ne)
          ];
        }))
]

-- After all writes each of the players' seats has his chips, and the other seats have theirs.
record WroteAll (ps : List Player) (before after : List RoomSeat) : Type 0 where
  here : Seated ps after
  elsewhere : (j : ℕ) → contains j (seats_of ps) ≡ false → chips_at after j ≡ chips_at before j

write_seats-WroteAll :
    (ps : List Player) (seats : List RoomSeat)
    → Distinct (seats_of ps)
    → Ensures (WroteAll ps seats) (write_seats ps seats)
unfolding write_seats
write_seats-WroteAll [] seats d = good (record { here = tt; elsewhere = λ j c. refl })
write_seats-WroteAll (p ∷ ps) seats d =
    Ensures-bind (update_row (is_at p.seat_no) (set_chips p.chips) seats) _ λ rest e.
      let w = Ensures-value (set_chips-Wrote p.seat_no p.chips seats) e in
      ensured (write_seats ps rest) λ after f.
        let v = Ensures-value (write_seats-WroteAll ps rest d.1) f in
        record {
          here = (v.elsewhere p.seat_no d.0 ∙ w.here, v.here);
          elsewhere = λ j c. v.elsewhere j (ground arith) ∙ w.elsewhere j (λ q. ground (arith, q));
        }

-- The room after the writes of a hand's chips.
pub record Stored (id : String) (ps : List Player) (r : RoomForGame) (rooms : List RoomForGame)
    : Type 0 where
  pub seats : List RoomSeat
  pub found : find (has_room_id id) rooms ≡ some (record r { players = seats })
  pub written : Seated ps seats
  pub sum : chips_at_all seats (seats_of ps) ≡ chips_in_hand ps

persist_chips-Stored :
    (id : String) (ps : List Player) (rooms : List RoomForGame) (r : RoomForGame)
    → Distinct (seats_of ps)
    → find (has_room_id id) rooms ≡ some r
    → Ensures (Stored id ps r) (persist_chips id ps rooms)
unfolding persist_chips
persist_chips-Stored id ps [] r d e = cc
persist_chips-Stored id ps (x ∷ rooms) r d e = elim (Bool-cases (has_room_id id x)) [
  | inl b ↦
      let same : x ≡ r = ground arith in
      rw b (
        subst
          (λ y.
            Ensures (Stored id ps y)
              (write_seats ps x.players >>= λ seats. ok (record x { players = seats } ∷ rooms)))
          same
          (Ensures-bind (write_seats ps x.players) _ λ seats f. good (record {
            seats = seats;
            found = rw b refl;
            written = (Ensures-value (write_seats-WroteAll ps x.players d) f).here;
            sum = Seated-sum ps seats (Ensures-value (write_seats-WroteAll ps x.players d) f).here;
          })))
  | inr b ↦ rw b (
      Ensures-bind (persist_chips id ps rooms) _ λ qs f.
        let k = Ensures-value (persist_chips-Stored id ps rooms r d (ground arith)) f in
        good (record { seats = k.seats; found = rw b k.found; written = k.written; sum = k.sum }))
]

pub persist_actions-rooms :
    (s : Games) (id : String) (as' : List GameAction)
    → Ensures (λ t. t.rooms ≡ s.rooms) (persist_actions s id as')
unfolding persist_actions
persist_actions-rooms s id [] = good refl
persist_actions-rooms s id (a ∷ as') =
    Ensures-bind (update_row (has_hand_id id) _ s.hands) _ λ _ _. good refl

module _ (s : Games) (g : GameState) (now : String) (r : RoomForGame)
    (d : Distinct (seats_of g.players)) (e : find (has_room_id g.room_id) s.rooms ≡ some r) where
  pub persist_finished_hand-Stored :
      Ensures (λ (t : Games). Stored g.room_id g.players r t.rooms) (persist_finished_hand s g now)
  unfolding persist_finished_hand
  persist_finished_hand-Stored =
      Ensures-bind (update_row (has_hand_id g.hand_id) _ s.hands) _ λ closed _.
        Ensures-bind (persist_chips g.room_id g.players s.rooms) _ λ rooms f.
          Ensures-bind (map_result (λ p. hand_player_result p g) g.players) _ λ rows _.
            Ensures-bind (update_row (has_hand_id g.hand_id) _ closed) _ λ hands _.
              let t : Games = record s { rooms = rooms; hands = hands } in
              ensured (persist_actions t g.hand_id (finished_system_actions g now)) λ u h.
                subst (Stored g.room_id g.players r)
                  (sym (
                    Ensures-value
                      (persist_actions-rooms t g.hand_id (finished_system_actions g now)) h))
                  (Ensures-value (persist_chips-Stored g.room_id g.players s.rooms r d e) f)

  pub persist_aborted_hand-Stored :
      Ensures (λ (t : Games). Stored g.room_id g.players r t.rooms) (persist_aborted_hand s g now)
  unfolding persist_aborted_hand
  persist_aborted_hand-Stored =
      Ensures-bind (update_row (has_hand_id g.hand_id) _ s.hands) _ λ closed _.
        Ensures-bind (persist_chips g.room_id g.players s.rooms) _ λ rooms f.
          Ensures-bind (update_row (has_hand_id g.hand_id) _ closed) _ λ hands _.
            good (Ensures-value (persist_chips-Stored g.room_id g.players s.rooms r d e) f)
