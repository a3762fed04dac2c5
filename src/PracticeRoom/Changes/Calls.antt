-- ===== src/PracticeRoom/Changes/Calls.antt =====
-- The calls on a room, against the diagram of its status.
use allinle.Prelude.{
  ℕ, ◌≡◌, refl, Bool, true, false, not, ◌&&◌, List, [], ◌∷◌, ◌++◌, some, find, any, length, ltb,
  ◌==◌, if◌then◌else◌, arith, Result, ok, or_throw, Ensures, good, Ensures-guard, Ensures-bind,
  Ensures-if, Ensures-value,
}
use allinle.PracticeRoom.{
  Room, RoomPlayer, Practice, PracticeError, PracticeRoomStatus, waiting, ready, playing, finished,
  closed, is_over_or_playing, all_confirmed, refresh_ready_status, seated, update_players, of_user,
  confirm, with_chips, with_ready, has_code, has_id, write_room, room_not_found, cannot_start,
  serialize_players, status_not_waiting, not_all_ready, not_the_owner, chips_not_set_by_all,
  all_set_chips, is_friends, mode_not_joinable, room_not_joinable, with_status, shut,
  get_by_room_code, assert_user_can_use_practice, assert_room_player,
  assert_room_can_change_waiting_state, waiting_room_of, take_seat, join_room,
  confirm_initial_chips, set_initial_chips, set_ready, start_room, close_room, admin_close_room,
}
use allinle.PracticeRoom.Hands.{
  begin_first_hand, begin_next_hand, finish_room, assert_room_ready_to_begin, over,
}
use allinle.PracticeRoom.Refresh.{not_over-keeps_status}
use allinle.PracticeRoom.Tables.{get_by_room_code-found}
use allinle.PracticeRoom.Sound.{AllSound}
use allinle.PracticeRoom.Sound.Calls.{waiting_room_of-found}
use allinle.PracticeRoom.Changes.{
  ◌⟶*◌, all_confirm, someone_takes_back, play, finish, end, here, move, Continues, Continues-trans,
  Follows, Follows-refl, Follows-write,
}

-- The status that `refreshReadyStatus` sets.
refreshed-⟶* :
    (a : PracticeRoomStatus) (b : Bool)
    → is_over_or_playing a ≡ false
    → a ⟶* (if b then ready else waiting)
refreshed-⟶* waiting true h = move all_confirm here
refreshed-⟶* waiting false h = here
refreshed-⟶* ready true h = here
refreshed-⟶* ready false h = move someone_takes_back here
refreshed-⟶* playing b h = cc
refreshed-⟶* finished b h = cc
refreshed-⟶* closed b h = cc

-- A room that still waits, after a change of its players.
refresh-Continues :
    (r : Room) → is_over_or_playing r.status ≡ false → Continues r (refresh_ready_status r)
unfolding refresh_ready_status
refresh-Continues r h = rw (not_over-keeps_status r.status h) (record {
  id = refl;
  room_code = refl;
  owner = refl;
  mode = refl;
  seats = refl;
  status = refreshed-⟶* r.status (ltb 0 (length r.players) && all_confirmed r.players) h;
})

-- A room whose players have changed.
with_players : (r : Room) (ps : List RoomPlayer) → Continues r (record r { players = ps })
with_players r ps = record {
  id = refl;
  room_code = refl;
  owner = refl;
  mode = refl;
  seats = refl;
  status = here;
}

refresh_players-Continues :
    (r : Room) (ps : List RoomPlayer)
    → is_over_or_playing r.status ≡ false
    → Continues r (refresh_ready_status (record r { players = ps }))
refresh_players-Continues r ps h =
    Continues-trans (with_players r ps) (refresh-Continues (record r { players = ps }) h)

waiting_room_of-waits :
    (s : Practice) (user : ℕ) (code : List ℕ)
    → Ensures (λ r. is_over_or_playing r.status ≡ false) (waiting_room_of s user code)
unfolding waiting_room_of assert_room_can_change_waiting_state
waiting_room_of-waits s user code =
    Ensures-bind (assert_user_can_use_practice s.users user) _ λ _ _.
      Ensures-bind (get_by_room_code s.rooms code) _ λ r e.
        Ensures-guard (is_over_or_playing r.status) status_not_waiting _
          λ w. Ensures-bind (assert_room_player r user) _ λ _ _. good w

-- The tables of a call continue those before it.
abbrev pub Onward : Practice → Practice → Type 0
Onward s t = Follows s.rooms t.rooms

written-Onward :
    (f : Room → Room) (test : Room → Bool) (r : Room) (s : Practice)
    → AllSound s
    → find test s.rooms ≡ some r
    → Continues r (f r)
    → Onward s (record s { rooms = write_room r.id f s.rooms })
written-Onward f test r s h e c = Follows-write f test s.rooms r h.unique e c

plays-Continues : (r : Room) → Continues r (with_status playing r)
plays-Continues r = record {
  id = refl;
  room_code = refl;
  owner = refl;
  mode = refl;
  seats = refl;
  status = move play here;
}

over-Continues : (now : ℕ) (r : Room) → Continues r (over now r)
over-Continues now r = record {
  id = refl;
  room_code = refl;
  owner = refl;
  mode = refl;
  seats = refl;
  status = move finish here;
}

shut-Continues : (now : ℕ) (r : Room) → Continues r (shut now r)
shut-Continues now r = record {
  id = refl;
  room_code = refl;
  owner = refl;
  mode = refl;
  seats = refl;
  status = move end here;
}

found_by_id :
    (s : Practice) (id : ℕ) (r : Room)
    → ◌≡◌ {A = Result PracticeError Room}
        (or_throw (find (has_id id) s.rooms) room_not_found)
        (ok r)
    → find (has_id id) s.rooms ≡ some r
found_by_id s id r e = ground arith

module _ (s : Practice) (h : AllSound s) where
  pub join_room-Onward : (user : ℕ) (code : List ℕ) → Ensures (Onward s) (join_room s user code)
  unfolding join_room
  join_room-Onward user code = Ensures-bind (assert_user_can_use_practice s.users user) _ λ _ _.
      Ensures-bind (get_by_room_code s.rooms code) _ λ r e.
        Ensures-guard (not (is_friends r.mode)) mode_not_joinable _ λ _.
          Ensures-guard (is_over_or_playing r.status) room_not_joinable _ λ w.
            Ensures-if (any (of_user user) r.players) _ _ (good (Follows-refl s.rooms)) (
              Ensures-bind (take_seat r user) _ λ p _. good (
                written-Onward (λ x. refresh_ready_status (seated x p)) (has_code code) r s h
                  (get_by_room_code-found s.rooms code r e)
                  (refresh_players-Continues r (r.players ++ p ∷ []) w)))

  waiting-Onward :
      (user : ℕ) (code : List ℕ) (r : Room) (f : Room → Room)
      → waiting_room_of s user code ≡ ok r
      → (is_over_or_playing r.status ≡ false → Continues r (refresh_ready_status (f r)))
      → Onward s (record s { rooms = write_room r.id (λ x. refresh_ready_status (f x)) s.rooms })
  waiting-Onward user code r f e c =
      written-Onward (λ x. refresh_ready_status (f x)) (has_code code) r s h
        (Ensures-value (waiting_room_of-found s user code) e)
        (c (Ensures-value (waiting_room_of-waits s user code) e))

  pub confirm_initial_chips-Onward :
      (user : ℕ) (code : List ℕ) → Ensures (Onward s) (confirm_initial_chips s user code)
  unfolding confirm_initial_chips
  confirm_initial_chips-Onward user code = Ensures-bind (waiting_room_of s user code) _ λ r e.
      Ensures-guard (not (all_set_chips r.players)) chips_not_set_by_all _ λ _. good (
        waiting-Onward user code r (update_players (of_user user) confirm) e
          (refresh_players-Continues r (update_players (of_user user) confirm r).players))

  pub set_initial_chips-Onward :
      (user : ℕ) (code : List ℕ) (chips : ℕ)
      → Ensures (Onward s) (set_initial_chips s user code chips)
  unfolding set_initial_chips
  set_initial_chips-Onward user code chips = Ensures-bind (waiting_room_of s user code) _ λ r e.
      good (
        waiting-Onward user code r (with_chips user chips) e
          (refresh_players-Continues r (with_chips user chips r).players))

  pub set_ready-Onward :
      (user : ℕ) (code : List ℕ) (st : Bool) → Ensures (Onward s) (set_ready s user code st)
  unfolding set_ready
  set_ready-Onward user code st = Ensures-bind (waiting_room_of s user code) _ λ r e. good (
      waiting-Onward user code r (update_players (of_user user) (with_ready st)) e
        (refresh_players-Continues r (update_players (of_user user) (with_ready st) r).players))

  pub start_room-Onward : (user : ℕ) (code : List ℕ) → Ensures (Onward s) (start_room s user code)
  unfolding start_room
  start_room-Onward user code = Ensures-bind (assert_user_can_use_practice s.users user) _ λ _ _.
      Ensures-bind (get_by_room_code s.rooms code) _ λ r e.
        Ensures-guard (not (r.owner_user_id == user)) not_the_owner _ λ _.
          Ensures-guard (cannot_start r.status (serialize_players s.users r.players)) not_all_ready
            _
            λ _. good (
              written-Onward (with_status playing) (has_code code) r s h
                (get_by_room_code-found s.rooms code r e) (plays-Continues r))

  pub begin_first_hand-Onward :
      (user : ℕ) (code : List ℕ) → Ensures (Onward s) (begin_first_hand s user code)
  unfolding begin_first_hand
  begin_first_hand-Onward user code = Ensures-bind (get_by_room_code s.rooms code) _ λ r e.
      Ensures-guard (not (r.owner_user_id == user)) not_the_owner _ λ _.
        Ensures-bind (assert_room_ready_to_begin r) _ λ _ _. good (
          written-Onward (with_status playing) (has_code code) r s h
            (get_by_room_code-found s.rooms code r e) (plays-Continues r))

  pub begin_next_hand-Onward :
      (user : ℕ) (code : List ℕ) → Ensures (Onward s) (begin_next_hand s user code)
  unfolding begin_next_hand
  begin_next_hand-Onward user code = Ensures-bind (get_by_room_code s.rooms code) _ λ r e.
      Ensures-guard (not (r.owner_user_id == user)) not_the_owner _ λ _. good (
        written-Onward (with_status playing) (has_code code) r s h
          (get_by_room_code-found s.rooms code r e) (plays-Continues r))

  pub finish_room-Onward :
      (user : ℕ) (code : List ℕ) (now : ℕ) → Ensures (Onward s) (finish_room s user code now)
  unfolding finish_room
  finish_room-Onward user code now = Ensures-bind (get_by_room_code s.rooms code) _ λ r e.
      Ensures-guard (not (r.owner_user_id == user)) not_the_owner _ λ _. good (
        written-Onward (over now) (has_code code) r s h (get_by_room_code-found s.rooms code r e)
          (over-Continues now r))

  pub close_room-Onward :
      (user : ℕ) (code : List ℕ) (now : ℕ) → Ensures (Onward s) (close_room s user code now)
  unfolding close_room
  close_room-Onward user code now = Ensures-bind (get_by_room_code s.rooms code) _ λ r e.
      Ensures-guard (not (r.owner_user_id == user)) not_the_owner _ λ _. good (
        written-Onward (shut now) (has_code code) r s h (get_by_room_code-found s.rooms code r e)
          (shut-Continues now r))

  pub admin_close_room-Onward : (id now : ℕ) → Ensures (Onward s) (admin_close_room s id now)
  unfolding admin_close_room
  admin_close_room-Onward id now =
      Ensures-bind (or_throw (find (has_id id) s.rooms) room_not_found) _ λ r e.
        good (
          written-Onward (shut now) (has_id id) r s h (found_by_id s id r e) (shut-Continues now r))
