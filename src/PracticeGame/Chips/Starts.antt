-- ===== src/PracticeGame/Chips/Starts.antt =====
-- The chips of a room when its first hand starts.
use Prim.Native.String.{String}
use text.Mathlib.Text.{◌==◌ as str_eq}
use text.Mathlib.TextEquality.{eq_iff}
use allinle.Prelude.{
  ℕ, ◌+◌, ◌≡◌, refl, sym, ap, ap₂, ◌∙◌, subst, true, false, List, [], ◌∷◌, ◌++◌, map, some, find,
  contains, ==_refl, if◌then◌else◌, sum_of, sort_by, leb, arith, Bool-cases, inl, inr, ok, or_throw,
  ◌>>=◌, ◌>>◌, Ensures, good, Ensures-bind, Ensures-value, ensured,
}
use allinle.Prelude.Sorted.{Distinct, sum_of-sort_by, sort_by-Distinct}
use allinle.Types.{GameState, GameStatus, playing, hand_finished, room_finished}
use allinle.Game.Seats.{resolve_blind_seats}
use allinle.Game.Seats.Players.{seats_of}
use allinle.Game.Start.{create_initial_game_state}
use allinle.Game.Start.Opening.{create_initial_game_state-Opened}
use allinle.Game.Rounds.Conserve.{accounted, accounted_by, lost}
use allinle.PracticeGame.{
  RoomSeat, RoomForGame, PracticeHand, Games, engine_error, room_not_found, from_engine, update_row,
  has_room_id, has_room_code, get_state, save_state, schedule_bot_turn, clear_bot_timer, get_room,
  assert_room_owner, assert_room_ready_to_start,
}
use allinle.PracticeGame.Hands.{
  Dealing, seat_input, hand_input, new_hand, hand_player_dealt, active_seats, is_finished,
  persist_actions, persist_finished_hand, create_and_persist_hand,
}
use allinle.PracticeGame.Calls.{going_on, next_hand_no, first_seat, begins, start_first_hand}
use allinle.PracticeGame.Chips.{
  Seated, chips_at, chips_at_all, persist_actions-rooms, persist_finished_hand-Stored,
}
use allinle.PracticeGame.Chips.Actions.{Holds, Balanced, After, from_engine-ok, saved}
use allinle.PracticeGame.Chips.Rooms.{update_row-SeatsOf}

abbrev pub room_seats : RoomForGame → List ℕ
room_seats r = map (λ (p : RoomSeat). p.seat_no) r.players

abbrev pub room_chips : RoomForGame → ℕ
room_chips r = sum_of (λ (p : RoomSeat). p.chips) r.players

chips_brought-seats :
    (ps : List RoomSeat)
    → sum_of (λ p. p.chips) (map seat_input ps) ≡ sum_of (λ (p : RoomSeat). p.chips) ps
chips_brought-seats [] = refl
chips_brought-seats (p ∷ ps) = ap (λ n. p.chips + n) (chips_brought-seats ps)

input_seats-seats :
    (ps : List RoomSeat)
    → map (λ p. p.seat_no) (map seat_input ps) ≡ map (λ (p : RoomSeat). p.seat_no) ps
input_seats-seats [] = refl
input_seats-seats (p ∷ ps) = ap (λ ss. p.seat_no ∷ ss) (input_seats-seats ps)

chips_at_all-skip :
    (p : RoomSeat) (ps : List RoomSeat) (ks : List ℕ)
    → contains p.seat_no ks ≡ false
    → chips_at_all (p ∷ ps) ks ≡ chips_at_all ps ks
chips_at_all-skip p ps [] h = refl
chips_at_all-skip p ps (k ∷ ks) h =
    ap₂ ◌+◌ (ground arith) (chips_at_all-skip p ps ks (ground arith))

-- At different seats, the seats have all the chips.
chips_at_all-own :
    (ps : List RoomSeat)
    → Distinct (map (λ (p : RoomSeat). p.seat_no) ps)
    → chips_at_all ps (map (λ (p : RoomSeat). p.seat_no) ps) ≡ sum_of (λ (p : RoomSeat). p.chips) ps
chips_at_all-own [] d = refl
chips_at_all-own (p ∷ ps) d =
    ap₂ ◌+◌ (rw (==_refl p.seat_no) refl)
      (chips_at_all-skip p ps (map (λ (q : RoomSeat). q.seat_no) ps) d.0 ∙ chips_at_all-own ps d.1)

Balanced-players :
    (st : GameStatus) (n : ℕ) (r q : RoomForGame) (g : GameState)
    → q.players ≡ r.players
    → Balanced st n r g
    → Balanced st n q g
Balanced-players playing n r q g e b =
    (b.0, ap (λ ss. chips_at_all ss (seats_of g.players)) e ∙ b.1)
Balanced-players hand_finished n r q g e b = (
  subst (Seated g.players) (sym e) (b.0),
  ap (λ ss. chips_at_all ss (seats_of g.players) + lost g.winner_info g.players) e ∙ b.1,
)
Balanced-players room_finished n r q g e b = tt

-- A hand that has been made from the rows of a room.
record Made (room : RoomForGame) (u : Games) (g : GameState) : Type 0 where
  code : g.room_code ≡ room.room_code
  id : g.room_id ≡ room.id
  distinct : Distinct (seats_of g.players)
  after : After (room_chips room) room.id g u

finished-After :
    (s : Games) (g : GameState) (now : String) (r : RoomForGame) (n : ℕ)
    → Distinct (seats_of g.players)
    → find (has_room_id g.room_id) s.rooms ≡ some r
    → chips_at_all r.players (seats_of g.players) ≡ n
    → accounted g ≡ n
    → Ensures
        (After n g.room_id g)
        (if is_finished g.status then persist_finished_hand s g now else ok s)
finished-After s g now r n d e c a = by_status g.status a
  where
    by_status :
        (st : GameStatus)
        → accounted_by st g ≡ n
        → Ensures
            (λ t.
              (q : RoomForGame) × (find (has_room_id g.room_id) t.rooms ≡ some q)
              × Balanced st n q g)
            (if is_finished st then persist_finished_hand s g now else ok s)
    by_status playing b = good (r, e, (b, c))
    by_status hand_finished b = ensured (persist_finished_hand s g now) λ t f.
        let stored = Ensures-value (persist_finished_hand-Stored s g now r d e) f in
        (
          record r { players = stored.seats },
          stored.found,
          (stored.written, ap (λ m. m + lost g.winner_info g.players) stored.sum ∙ b),
        )
    by_status room_finished b = good (r, e, tt)

create_and_persist_hand-Made :
    (s : Games) (room : RoomForGame) (hand_no dealer : ℕ) (dealing : Dealing)
    → Distinct (room_seats room)
    → find (has_room_id room.id) s.rooms ≡ some room
    → Ensures
        (λ (r : Games × GameState). Made room (r.0) (r.1))
        (create_and_persist_hand s room hand_no dealer dealing)
unfolding create_and_persist_hand
create_and_persist_hand-Made s room hand_no dealer dealing d e =
    Ensures-bind
      (from_engine engine_error (resolve_blind_seats (sort_by leb (active_seats room)) dealer)) _
      λ blinds _.
        let input = hand_input room hand_no blinds dealing in
        let seats_same = input_seats-seats room.players in
        Ensures-bind
          (from_engine engine_error (create_initial_game_state input dealing.draw dealing.now)) _
          λ g f.
            let opened =
              Ensures-value
                (create_initial_game_state-Opened input dealing.draw dealing.now
                  (subst Distinct (sym seats_same) d))
                (from_engine-ok engine_error
                  (create_initial_game_state input dealing.draw dealing.now) g f) in
            let id : g.room_id ≡ room.id = ap (λ (i : String × String × String). i.0) opened.ids in
            let seats : seats_of g.players ≡ sort_by leb (room_seats room) =
              opened.seats ∙ ap (sort_by leb) seats_same in
            let apart : Distinct (seats_of g.players) =
              subst Distinct (sym seats) (sort_by-Distinct leb (room_seats room) d) in
            let row : PracticeHand = record (new_hand room hand_no blinds dealing) {
              players = map hand_player_dealt g.players;
            } in
            Ensures-bind
              (persist_actions (record s { hands = s.hands ++ row ∷ [] }) g.hand_id
                g.action_history)
              _
              λ dealt k.
                Ensures-bind
                  (if is_finished g.status
                    then persist_finished_hand dealt g dealing.now
                    else ok dealt)
                  _
                  λ u l. good (record {
                    code = ap (λ (i : String × String × String). i.1) opened.ids;
                    id = id;
                    distinct = apart;
                    after =
                        subst (λ i. After (room_chips room) i g u) id
                          (Ensures-value
                            (finished-After dealt g dealing.now room (room_chips room) apart
                              (ap (find (has_room_id g.room_id)) (
                                  Ensures-value (persist_actions-rooms _ g.hand_id g.action_history)
                                    k)
                                ∙ ap (λ i. find (has_room_id i) s.rooms) id
                                ∙ e)
                              (ap (chips_at_all room.players) seats
                                ∙ sum_of-sort_by leb (chips_at room.players) (room_seats room)
                                ∙ chips_at_all-own room.players d)
                              (opened.balance ∙ chips_brought-seats room.players))
                            l);
                  })

find-code :
    (code : String) (rooms : List RoomForGame) (r : RoomForGame)
    → find (has_room_code code) rooms ≡ some r
    → str_eq r.room_code code ≡ true
find-code code [] r e = cc
find-code code (x ∷ rooms) r e = elim (Bool-cases (has_room_code code x)) [
  | inl b ↦
      let is_row : x ≡ r = ground arith in
      subst (λ (y : RoomForGame). str_eq y.room_code code ≡ true) is_row b
  | inr b ↦ find-code code rooms r (rw b at e)
]

-- The owner starts the first hand of a room whose players sit at different seats: the chips of the room
-- are those that its players have, in hand and in the pot, and the rows keep them; if the hand is over
-- at once, the rows have them, but for those that the showdown stranded.
pub start_first_hand-Holds :
    (s t : Games) (user code : String) (dealing : Dealing) (r : RoomForGame)
    → find (has_room_code code) s.rooms ≡ some r
    → find (has_room_id r.id) s.rooms ≡ some r
    → Distinct (room_seats r)
    → going_on (get_state s.states code) ≡ false
    → start_first_hand s user code dealing ≡ ok t
    → Holds (room_chips r) code r.id t
unfolding start_first_hand get_room schedule_bot_turn clear_bot_timer save_state
start_first_hand-Holds s t user code dealing r by_code by_id d off e =
    Ensures-value whole (rw off at e)
  where
    whole : Ensures (Holds (room_chips r) code r.id) (do
      room ← or_throw (find (has_room_code code) s.rooms) room_not_found
      assert_room_owner room user
      assert_room_ready_to_start room
      dealt ←
          create_and_persist_hand s room (next_hand_no s.hands room.id) (first_seat room) dealing
      rooms ← update_row (has_room_id room.id) (begins dealing.now) dealt.0.rooms
      ok (schedule_bot_turn (save_state (record (dealt.0) { rooms = rooms }) (dealt.1)) code))
    whole = rw by_code (
        Ensures-bind (assert_room_owner r user) _ λ _ _.
          Ensures-bind (assert_room_ready_to_start r) _ λ _ _.
            Ensures-bind
              (create_and_persist_hand s r (next_hand_no s.hands r.id) (first_seat r) dealing) _
              λ dealt f.
                Ensures-bind (update_row (has_room_id r.id) (begins dealing.now) dealt.0.rooms) _
                  λ rooms g.
                    let made =
                      Ensures-value
                        (create_and_persist_hand-Made s r (next_hand_no s.hands r.id) (first_seat r)
                          dealing d by_id)
                        f in
                    let (q, found, balanced) = made.after in
                    let (p, kept, same) =
                      Ensures-value
                        (update_row-SeatsOf (begins dealing.now) (λ _. refl) (λ _. refl)
                          (has_room_id r.id) r.id q.players dealt.0.rooms (q, found, refl))
                        g in
                    let code_same : dealt.1.room_code ≡ code =
                      made.code ∙ (eq_iff r.room_code code).0 (find-code code s.rooms r by_code) in
                    good (record {
                      state = dealt.1;
                      room = p;
                      kept_state =
                          subst
                            (λ c.
                              get_state
                                (save_state (record (dealt.0) { rooms = rooms }) (dealt.1)).states c
                              ≡ some (dealt.1))
                            code_same (saved (record (dealt.0) { rooms = rooms }) (dealt.1));
                      kept_room = kept;
                      same_code = code_same;
                      same_id = made.id;
                      distinct = made.distinct;
                      balanced =
                          Balanced-players dealt.1.status (room_chips r) q p (dealt.1) same
                            balanced;
                    }))
