-- ===== src/PracticeGame/Chips/Rooms.antt =====
-- The chips of a room when its first hand starts, and when its owner ends it.
use Prim.Native.String.{String}
use allinle.Prelude.{
  ℕ, ◌+◌, ◌≡◌, refl, sym, ap, ◌∙◌, subst, Bool, true, false, List, [], ◌∷◌, some, find,
  if◌then◌else◌, arith, Bool-cases, inl, inr, ok, Ensures, good, failed, Ensures-bind,
  Ensures-value, ensured,
}
use allinle.Prelude.Sorted.{Distinct}
use allinle.Types.{GameState, playing, is_playing}
use allinle.Game.Seats.{total_invested}
use allinle.Game.Seats.Players.{seats_of, chips_in_hand, stakes}
use allinle.Game.Rounds.Conserve.{stakes_split}
use allinle.PracticeGame.{
  RoomSeat, RoomForGame, Games, update_row, has_room_id, get_state, delete_state, clear_bot_timer,
  get_room, assert_room_owner,
}
use allinle.PracticeGame.Hands.{persist_aborted_hand}
use allinle.PracticeGame.Calls.{end_room, abort_hand, finishes}
use allinle.PracticeGame.Chips.{chips_at_all, Stored, persist_aborted_hand-Stored}
use allinle.PracticeGame.Chips.Actions.{Holds, Balanced}

-- The players of a room, whatever becomes of its other columns.
abbrev pub SeatsOf : String → List RoomSeat → List RoomForGame → Type 0
SeatsOf id seats rooms =
    (q : RoomForGame) × (find (has_room_id id) rooms ≡ some q) × (q.players ≡ seats)

pub update_row-SeatsOf :
    (f : RoomForGame → RoomForGame)
    → ((x : RoomForGame) → (f x).id ≡ x.id)
    → ((x : RoomForGame) → (f x).players ≡ x.players)
    → (test : RoomForGame → Bool) (id : String) (seats : List RoomSeat) (rooms : List RoomForGame)
    → SeatsOf id seats rooms
    → Ensures (SeatsOf id seats) (update_row test f rooms)
unfolding update_row
update_row-SeatsOf f same_id same_players test id seats [] h = failed
update_row-SeatsOf f same_id same_players test id seats (x ∷ rooms) (q, e, p) =
    elim (Bool-cases (test x)) [
      | inl t ↦ rw t (
          good (elim (Bool-cases (has_room_id id x)) [
            | inl b ↦
                let is_row : x ≡ q = ground arith in
                (
                  f x,
                  rw (same_id x, b) refl,
                  same_players x ∙ ap (λ (r : RoomForGame). r.players) is_row ∙ p,
                )
            | inr b ↦ (q, rw (same_id x, b) (rw b at e), p)
          ]))
      | inr t ↦ rw t (
          Ensures-bind (update_row test f rooms) _ λ rest u.
            good (elim (Bool-cases (has_room_id id x)) [
              | inl b ↦
                  let is_row : x ≡ q = ground arith in
                  (x, rw b refl, ap (λ (r : RoomForGame). r.players) is_row ∙ p)
              | inr b ↦
                  let (r, g, k) =
                    Ensures-value
                      (update_row-SeatsOf f same_id same_players test id seats rooms
                        (q, rw b at e, p))
                      u in
                  (r, rw b g, k)
            ]))
    ]

abort_hand-Stored :
    (s : Games) (g : GameState) (now : String) (r : RoomForGame)
    → Distinct (seats_of g.players)
    → find (has_room_id g.room_id) s.rooms ≡ some r
    → is_playing g.status ≡ true
    → Ensures (λ (a : Games). Stored g.room_id g.players r a.rooms) (abort_hand s (some g) now)
unfolding abort_hand
abort_hand-Stored s g now r d e on = by_test (is_playing g.status) on
  where
    by_test :
        (b : Bool)
        → b ≡ true
        → Ensures
            (λ (a : Games). Stored g.room_id g.players r a.rooms)
            (if b then persist_aborted_hand s g now else ok s)
    by_test true h = persist_aborted_hand-Stored s g now r d e
    by_test false h = cc

-- The owner ends a room in the middle of a hand: the rows of the seats are left with what the players
-- have in hand, and the chips that they have put into the pot are at no seat.
pub end_room-chips :
    (n : ℕ) (code id user now : String) (s t : Games) (h : Holds n code id s)
    → h.state.status ≡ playing
    → end_room s user code now ≡ ok t
    → (q : RoomForGame) × (find (has_room_id id) t.rooms ≡ some q)
      × (chips_at_all q.players (seats_of h.state.players) + total_invested h.state.players ≡ n)
unfolding end_room delete_state clear_bot_timer
end_room-chips n code id user now s t h on e = Ensures-value whole e
  where
    Left : List RoomForGame → Type 0
    Left rooms =
        (q : RoomForGame) × (find (has_room_id id) rooms ≡ some q)
        × (chips_at_all q.players (seats_of h.state.players) + total_invested h.state.players ≡ n)

    aborted :
        Ensures
          (λ (a : Games).
            (seats : List RoomSeat) × SeatsOf id seats a.rooms
            × (chips_at_all seats (seats_of h.state.players) ≡ chips_in_hand h.state.players))
          (abort_hand s (get_state s.states code) now)
    aborted = rw h.kept_state (
        ensured (abort_hand s (some h.state) now) λ a f.
          let stored =
            Ensures-value
              (abort_hand-Stored s h.state now h.room h.distinct
                (ap (λ i. find (has_room_id i) s.rooms) h.same_id ∙ h.kept_room) (ap is_playing on))
              f in
          (
            stored.seats,
            (
              record h.room { players = stored.seats },
              ap (λ i. find (has_room_id i) a.rooms) (sym h.same_id) ∙ stored.found,
              refl,
            ),
            stored.sum,
          ))

    staked : stakes h.state.players ≡ n
    staked = (subst (λ st. Balanced st n h.room h.state) on h.balanced).0

    whole : Ensures (λ (u : Games). Left u.rooms) (end_room s user code now)
    whole = Ensures-bind (get_room s code) _ λ room _.
        Ensures-bind (assert_room_owner room user) _ λ _ _.
          Ensures-bind (abort_hand s (get_state s.states code) now) _ λ a f.
            Ensures-bind (update_row (has_room_id room.id) (finishes now) a.rooms) _ λ rooms g.
              let (seats, kept, sum) = Ensures-value aborted f in
              let (q, found, same) =
                Ensures-value
                  (update_row-SeatsOf (finishes now) (λ _. refl) (λ _. refl) (has_room_id room.id)
                    id seats a.rooms kept)
                  g in
              good (
                q,
                found,
                ap
                      (λ ss.
                        chips_at_all ss (seats_of h.state.players) + total_invested h.state.players)
                      same
                    ∙ ap (λ m. m + total_invested h.state.players) sum
                    ∙ sym (stakes_split h.state.players)
                    ∙ staked,
              )
