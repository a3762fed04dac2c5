-- ===== src/PracticeRoom/Sound/Calls.antt =====
-- The calls on a room, and the seats and the readiness of the rooms after them.
use allinle.Prelude.{
  ℕ, ◌≤◌, ◌≡◌, ◌≢◌, refl, sym, ap, ap₂, ◌∙◌, subst, Bool, true, false, not, ◌&&◌, List, [], ◌∷◌,
  ◌++◌, map, some, contains, length, leb, ltb, ◌==◌, any, find, if◌then◌else◌, arith, Bool-cases,
  inl, inr, Result, ok, or_throw, Ensures, good, Ensures-guard, Ensures-bind, Ensures-if,
  Ensures-value,
}
use allinle.Prelude.Sorted.{Distinct}
use allinle.PracticeRoom.{
  Room, RoomPlayer, Practice, PracticeError, PracticeRoomStatus, ready, playing, room_full,
  no_free_seat, first_free, take_seat, seats_of, seated, refresh_ready_status, keeps_status,
  all_confirmed, update_players, all_set_chips, chips_not_set_by_all, not_the_owner, not_all_ready,
  cannot_start, serialize_players, write_room, has_code, has_id, get_by_room_code, room_not_found,
  waiting_room_of, assert_user_can_use_practice, assert_room_player,
  assert_room_can_change_waiting_state, join_room, confirm_initial_chips, set_initial_chips,
  set_ready, with_ready, confirm, with_chips, bring, unconfirm, of_user, start_room, close_room,
  admin_close_room, with_status, shut, is_friends, mode_not_joinable, room_not_joinable,
  is_over_or_playing,
}
use allinle.PracticeRoom.Hands.{
  begin_first_hand, begin_next_hand, finish_room, assert_room_ready_to_begin, over,
}
use allinle.PracticeRoom.Refresh.{refresh-id}
use allinle.PracticeRoom.Tables.{
  ids-write_room, write_room-AllRooms, find-AllRooms, get_by_room_code-found,
}
use allinle.PracticeRoom.Sound.{IsSound, AllSound, SeatsWithin}
use allinle.PracticeRoom.Sound.Seats.{first_free-some}

-- A room whose status has just been refreshed needs sound seats only.
refresh-IsSound :
    (r : Room)
    → Distinct (seats_of r)
    → SeatsWithin r.player_count (seats_of r)
    → IsSound (refresh_ready_status r)
unfolding refresh_ready_status
refresh-IsSound r d w = elim (Bool-cases (keeps_status r.status)) [
  | inl k ↦ rw k (record { distinct = d; within = w; ready_confirmed = λ e. ground arith })
  | inr k ↦ rw k (elim (Bool-cases (ltb 0 (length r.players) && all_confirmed r.players)) [
    | inl b ↦
        rw b
          (record { distinct = d; within = w; ready_confirmed = λ e. (ground arith, ground arith) })
    | inr b ↦ rw b (record { distinct = d; within = w; ready_confirmed = λ e. cc })
  ])
]

map-seat_no :
    (test : RoomPlayer → Bool) (f : RoomPlayer → RoomPlayer)
    → ((p : RoomPlayer) → (f p).seat_no ≡ p.seat_no)
    → (ps : List RoomPlayer)
    → map (λ (p : RoomPlayer). p.seat_no) (map (λ p. if test p then f p else p) ps)
      ≡ map (λ p. p.seat_no) ps
map-seat_no test f h [] = refl
map-seat_no test f h (p ∷ ps) =
    ap₂ ◌∷◌ (elim (Bool-cases (test p)) [ inl e ↦ rw e (h p) | inr e ↦ rw e refl ])
      (map-seat_no test f h ps)

-- An update of the players that leaves their seats.
updated-IsSound :
    (test : RoomPlayer → Bool) (f : RoomPlayer → RoomPlayer)
    → ((p : RoomPlayer) → (f p).seat_no ≡ p.seat_no)
    → (r : Room) → IsSound r
    → IsSound (refresh_ready_status (update_players test f r))
updated-IsSound test f h r s =
    refresh-IsSound (update_players test f r)
      (subst Distinct (sym (map-seat_no test f h r.players)) s.distinct)
      (subst (SeatsWithin r.player_count) (sym (map-seat_no test f h r.players)) s.within)

with_chips-IsSound :
    (user chips : ℕ) (r : Room)
    → IsSound r
    → IsSound (refresh_ready_status (with_chips user chips r))
with_chips-IsSound user chips r s =
    let same =
      map-seat_no (of_user user) (bring chips) (λ p. refl) (map unconfirm r.players)
      ∙ map-seat_no (λ _. true) unconfirm (λ p. refl) r.players in
    refresh-IsSound (with_chips user chips r) (subst Distinct (sym same) s.distinct)
      (subst (SeatsWithin r.player_count) (sym same) s.within)

pub append-Distinct :
    (k : ℕ) (ss : List ℕ) → contains k ss ≡ false → Distinct ss → Distinct (ss ++ k ∷ [])
append-Distinct k [] n d = (refl, tt)
append-Distinct k (s ∷ ss) n d =
    (apart s ss (ground arith) d.0, append-Distinct k ss (ground arith) d.1)
  where
    apart :
        (s : ℕ) (ss : List ℕ)
        → (s == k) ≡ false
        → contains s ss ≡ false
        → contains s (ss ++ k ∷ []) ≡ false
    apart s [] n c = ground arith
    apart s (t ∷ ss) n c = ground (arith, apart s ss n)

append-SeatsWithin :
    (n k : ℕ) (ss : List ℕ) → 1 ≤ k → k ≤ n → SeatsWithin n ss → SeatsWithin n (ss ++ k ∷ [])
append-SeatsWithin n k [] lo hi w = (lo, hi, tt)
append-SeatsWithin n k (s ∷ ss) lo hi w = (w.0, w.1, append-SeatsWithin n k ss lo hi w.2)

map-append-seat_no :
    (ps : List RoomPlayer) (p : RoomPlayer)
    → map (λ (q : RoomPlayer). q.seat_no) (ps ++ p ∷ [])
      ≡ map (λ (q : RoomPlayer). q.seat_no) ps ++ p.seat_no ∷ []
map-append-seat_no [] p = refl
map-append-seat_no (q ∷ ps) p = ap (λ ss. q.seat_no ∷ ss) (map-append-seat_no ps p)

-- The room with the member who took a seat.
take_seat-IsSound :
    (r : Room) (user : ℕ)
    → IsSound r
    → Ensures (λ p. IsSound (refresh_ready_status (seated r p))) (take_seat r user)
unfolding take_seat
take_seat-IsSound r user s = Ensures-guard (leb r.player_count (length r.players)) room_full _ λ _.
    Ensures-bind (or_throw (first_free r.player_count 1 (seats_of r)) no_free_seat) _ λ k e.
      let (free, lo, hi) = first_free-some r.player_count 1 (seats_of r) k (found k e) in
      good (
        refresh-IsSound _
          (subst Distinct (sym (map-append-seat_no r.players _))
            (append-Distinct k (seats_of r) free s.distinct))
          (subst (SeatsWithin r.player_count) (sym (map-append-seat_no r.players _))
            (append-SeatsWithin r.player_count k (seats_of r) lo (omega arith) s.within)))
  where
    found :
        (k : ℕ)
        → ◌≡◌ {A = Result PracticeError ℕ}
            (or_throw (first_free r.player_count 1 (seats_of r)) no_free_seat)
            (ok k)
        → first_free r.player_count 1 (seats_of r) ≡ some k
    found k e = ground arith

-- A write to the room that was looked up.
write-AllSound :
    (f : Room → Room) (test : Room → Bool) (r : Room) (s : Practice)
    → ((x : Room) → (f x).id ≡ x.id)
    → find test s.rooms ≡ some r
    → (IsSound r → IsSound (f r))
    → AllSound s
    → AllSound (record s { rooms = write_room r.id f s.rooms })
write-AllSound f test r s same e keep h = record {
  rooms =
      write_room-AllRooms IsSound f test s.rooms r h.unique e
        (keep (find-AllRooms IsSound test s.rooms r e h.rooms)) h.rooms;
  unique = subst Distinct (sym (ids-write_room f same r.id s.rooms)) h.unique;
}

pub waiting_room_of-found :
    (s : Practice) (user : ℕ) (code : List ℕ)
    → Ensures (λ r. find (has_code code) s.rooms ≡ some r) (waiting_room_of s user code)
unfolding waiting_room_of
waiting_room_of-found s user code =
    Ensures-bind (assert_user_can_use_practice s.users user) _ λ _ _.
      Ensures-bind (get_by_room_code s.rooms code) _ λ r e.
        Ensures-bind (assert_room_can_change_waiting_state r.status) _ λ _ _.
          Ensures-bind (assert_room_player r user) _
            λ _ _. good (get_by_room_code-found s.rooms code r e)

pub join_room-AllSound :
    (s : Practice) (user : ℕ) (code : List ℕ)
    → AllSound s
    → Ensures AllSound (join_room s user code)
unfolding join_room
join_room-AllSound s user code h = Ensures-bind (assert_user_can_use_practice s.users user) _ λ _ _.
    Ensures-bind (get_by_room_code s.rooms code) _ λ r e.
      Ensures-guard (not (is_friends r.mode)) mode_not_joinable _ λ _.
        Ensures-guard (is_over_or_playing r.status) room_not_joinable _ λ _.
          Ensures-if (any (of_user user) r.players) _ _ (good h) (
            Ensures-bind (take_seat r user) _ λ p t. good (
              write-AllSound (λ x. refresh_ready_status (seated x p)) (has_code code) r s
                (λ x. refresh-id (seated x p)) (get_by_room_code-found s.rooms code r e)
                (λ i. Ensures-value (take_seat-IsSound r user i) t) h))

pub confirm_initial_chips-AllSound :
    (s : Practice) (user : ℕ) (code : List ℕ)
    → AllSound s
    → Ensures AllSound (confirm_initial_chips s user code)
unfolding confirm_initial_chips
confirm_initial_chips-AllSound s user code h = Ensures-bind (waiting_room_of s user code) _ λ r e.
    Ensures-guard (not (all_set_chips r.players)) chips_not_set_by_all _ λ _. good (
      write-AllSound (λ x. refresh_ready_status (update_players (of_user user) confirm x))
        (has_code code) r s (λ x. refresh-id (update_players (of_user user) confirm x))
        (Ensures-value (waiting_room_of-found s user code) e)
        (updated-IsSound (of_user user) confirm (λ p. refl) r) h)

pub set_initial_chips-AllSound :
    (s : Practice) (user : ℕ) (code : List ℕ) (chips : ℕ)
    → AllSound s
    → Ensures AllSound (set_initial_chips s user code chips)
unfolding set_initial_chips
set_initial_chips-AllSound s user code chips h = Ensures-bind (waiting_room_of s user code) _ λ r e.
    good (
      write-AllSound (λ x. refresh_ready_status (with_chips user chips x)) (has_code code) r s
        (λ x. refresh-id (with_chips user chips x))
        (Ensures-value (waiting_room_of-found s user code) e) (with_chips-IsSound user chips r) h)

pub set_ready-AllSound :
    (s : Practice) (user : ℕ) (code : List ℕ) (st : Bool)
    → AllSound s
    → Ensures AllSound (set_ready s user code st)
unfolding set_ready
set_ready-AllSound s user code st h = Ensures-bind (waiting_room_of s user code) _ λ r e. good (
    write-AllSound (λ x. refresh_ready_status (update_players (of_user user) (with_ready st) x))
      (has_code code) r s (λ x. refresh-id (update_players (of_user user) (with_ready st) x))
      (Ensures-value (waiting_room_of-found s user code) e)
      (updated-IsSound (of_user user) (with_ready st) (λ p. refl) r) h)

-- A room that is not ready.
with_status-IsSound :
    (st : PracticeRoomStatus) (r : Room) → st ≢ ready → IsSound r → IsSound (with_status st r)
with_status-IsSound st r n s = record {
  distinct = s.distinct;
  within = s.within;
  ready_confirmed = λ e. absurd (n e);
}

shut-IsSound : (now : ℕ) (r : Room) → IsSound r → IsSound (shut now r)
shut-IsSound now r s = record {
  distinct = s.distinct;
  within = s.within;
  ready_confirmed = λ e. cc;
}

pub start_room-AllSound :
    (s : Practice) (user : ℕ) (code : List ℕ)
    → AllSound s
    → Ensures AllSound (start_room s user code)
unfolding start_room
start_room-AllSound s user code h =
    Ensures-bind (assert_user_can_use_practice s.users user) _ λ _ _.
      Ensures-bind (get_by_room_code s.rooms code) _ λ r e.
        Ensures-guard (not (r.owner_user_id == user)) not_the_owner _ λ _.
          Ensures-guard (cannot_start r.status (serialize_players s.users r.players)) not_all_ready
            _
            λ _. good (
              write-AllSound (with_status playing) (has_code code) r s (λ x. refl)
                (get_by_room_code-found s.rooms code r e) (with_status-IsSound playing r (λ n. cc))
                h)

pub close_room-AllSound :
    (s : Practice) (user : ℕ) (code : List ℕ) (now : ℕ)
    → AllSound s
    → Ensures AllSound (close_room s user code now)
unfolding close_room
close_room-AllSound s user code now h = Ensures-bind (get_by_room_code s.rooms code) _ λ r e.
    Ensures-guard (not (r.owner_user_id == user)) not_the_owner _ λ _. good (
      write-AllSound (shut now) (has_code code) r s (λ x. refl)
        (get_by_room_code-found s.rooms code r e) (shut-IsSound now r) h)

pub admin_close_room-AllSound :
    (s : Practice) (id now : ℕ) → AllSound s → Ensures AllSound (admin_close_room s id now)
unfolding admin_close_room
admin_close_room-AllSound s id now h =
    Ensures-bind (or_throw (find (has_id id) s.rooms) room_not_found) _ λ r e.
      good
        (write-AllSound (shut now) (has_id id) r s (λ x. refl) (found r e) (shut-IsSound now r) h)
  where
    found :
        (r : Room)
        → ◌≡◌ {A = Result PracticeError Room}
            (or_throw (find (has_id id) s.rooms) room_not_found)
            (ok r)
        → find (has_id id) s.rooms ≡ some r
    found r e = ground arith

-- The status that another service writes to a room, under its own checks.
pub begin_first_hand-AllSound :
    (s : Practice) (user : ℕ) (code : List ℕ)
    → AllSound s
    → Ensures AllSound (begin_first_hand s user code)
unfolding begin_first_hand
begin_first_hand-AllSound s user code h = Ensures-bind (get_by_room_code s.rooms code) _ λ r e.
    Ensures-guard (not (r.owner_user_id == user)) not_the_owner _ λ _.
      Ensures-bind (assert_room_ready_to_begin r) _ λ _ _. good (
        write-AllSound (with_status playing) (has_code code) r s (λ x. refl)
          (get_by_room_code-found s.rooms code r e) (with_status-IsSound playing r (λ n. cc)) h)

pub begin_next_hand-AllSound :
    (s : Practice) (user : ℕ) (code : List ℕ)
    → AllSound s
    → Ensures AllSound (begin_next_hand s user code)
unfolding begin_next_hand
begin_next_hand-AllSound s user code h = Ensures-bind (get_by_room_code s.rooms code) _ λ r e.
    Ensures-guard (not (r.owner_user_id == user)) not_the_owner _ λ _. good (
      write-AllSound (with_status playing) (has_code code) r s (λ x. refl)
        (get_by_room_code-found s.rooms code r e) (with_status-IsSound playing r (λ n. cc)) h)

over-IsSound : (now : ℕ) (r : Room) → IsSound r → IsSound (over now r)
over-IsSound now r s = record {
  distinct = s.distinct;
  within = s.within;
  ready_confirmed = λ e. cc;
}

pub finish_room-AllSound :
    (s : Practice) (user : ℕ) (code : List ℕ) (now : ℕ)
    → AllSound s
    → Ensures AllSound (finish_room s user code now)
unfolding finish_room
finish_room-AllSound s user code now h = Ensures-bind (get_by_room_code s.rooms code) _ λ r e.
    Ensures-guard (not (r.owner_user_id == user)) not_the_owner _ λ _. good (
      write-AllSound (over now) (has_code code) r s (λ x. refl)
        (get_by_room_code-found s.rooms code r e) (over-IsSound now r) h)
