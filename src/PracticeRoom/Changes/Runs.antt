-- ===== src/PracticeRoom/Changes/Runs.antt =====
-- The diagram of the status of a room, and the steps of its tables.
use allinle.Prelude.{
  ℕ, refl, sym, subst, ◌&&◌, List, [], ◌∷◌, ◌++◌, map, none, any, leb, Bool-cases, inl, inr, Result,
  ok, err, throw_if, ◌>>◌, Ensures-value,
}
use allinle.Prelude.Text.{same_text}
use allinle.PracticeRoom.{
  Room, Practice, PracticeError, touch, is_live, assert_user_can_use_practice, touch_rooms,
}
use allinle.PracticeRoom.Create.{
  create_friends_room, create_solo_room, insert_room, insert_row, after_checks, Created, Fresh,
  Limits, RoomInput,
}
use allinle.PracticeRoom.Sound.{AllSound}
use allinle.PracticeRoom.Changes.{
  here, Continues, same, Follows, Follows-refl, Follows-trans, Follows-append,
}
use allinle.PracticeRoom.{BotLevel, big_blind_not_greater, mode_not_friends}
use allinle.PracticeRoom.Create.{
  write_create_room_risk_logs, generate_unique_room_code, friends_room, solo_room, is_other_mode,
}
use allinle.PracticeRoom.Sound.Creations.{logs-rooms}
use allinle.PracticeRoom.Sound.Runs.{
  Steps, start, friends_room_created, solo_room_created, joined, chips_set, chips_confirmed,
  ready_set, started, first_hand_begun, next_hand_begun, room_finished, room_closed, admin_closed,
  touched, Steps-AllSound,
}
use allinle.PracticeRoom.Changes.Calls.{
  Onward, join_room-Onward, confirm_initial_chips-Onward, set_initial_chips-Onward,
  set_ready-Onward, start_room-Onward, begin_first_hand-Onward, begin_next_hand-Onward,
  finish_room-Onward, close_room-Onward, admin_close_room-Onward,
}

insert_row-Onward :
    (s t : Practice) (id : ℕ) (row : List ℕ → Room)
    → Onward s t
    → (m : Result PracticeError (List ℕ)) → Onward s (insert_row t id row m).0
insert_row-Onward s t id row h (err e) = h
insert_row-Onward s t id row h (ok code) =
    Follows-trans s.rooms t.rooms (t.rooms ++ row code ∷ []) h (Follows-append t.rooms (row code))

insert_room-Onward :
    (s : Practice) (user : ℕ) (input : RoomInput) (limits : Limits) (fresh : Fresh)
    (row : List ℕ → Room)
    → Onward s (insert_room s user input limits fresh row).0
unfolding insert_room
insert_room-Onward s user input limits fresh row =
    let (logged, risk) =
      write_create_room_risk_logs s user input.initial_practice_chips input.note limits fresh.now in
    insert_row-Onward s logged fresh.id row
      (subst (Follows s.rooms)
        (sym (logs-rooms s user input.initial_practice_chips input.note limits fresh.now))
        (Follows-refl s.rooms))
      (risk >> generate_unique_room_code fresh.draw logged.rooms)

after_checks-Onward :
    (s : Practice) (c : Created)
    → Onward s c.0
    → (m : Result PracticeError (Unit {0})) → Onward s (after_checks s m c).0
after_checks-Onward s c k (err e) = Follows-refl s.rooms
after_checks-Onward s c k (ok u) = k

create_friends_room-Onward :
    (s : Practice) (user : ℕ) (input : RoomInput) (limits : Limits) (fresh : Fresh)
    → Onward s (create_friends_room s user input limits fresh).0
unfolding create_friends_room
create_friends_room-Onward s user input limits fresh =
    after_checks-Onward s _
      (insert_room-Onward s user input limits fresh (friends_room user input fresh))
      (assert_user_can_use_practice s.users user
        >> throw_if (is_other_mode input.mode) mode_not_friends
        >> throw_if (leb input.big_blind input.small_blind) big_blind_not_greater)

create_solo_room-Onward :
    (s : Practice) (user : ℕ) (input : RoomInput) (n : ℕ) (level : BotLevel) (limits : Limits)
    (fresh : Fresh)
    → Onward s (create_solo_room s user input n level limits fresh).0
unfolding create_solo_room
create_solo_room-Onward s user input n level limits fresh =
    after_checks-Onward s _
      (insert_room-Onward s user (record input { note = none }) limits fresh
        (solo_room user input n level fresh))
      (assert_user_can_use_practice s.users user
        >> throw_if (leb input.big_blind input.small_blind) big_blind_not_greater)

touched-Continues :
    (room_codes : List (List ℕ)) (now : ℕ) (r : Room) → Continues r (touch room_codes now r)
touched-Continues room_codes now r =
    elim (Bool-cases (any (same_text r.room_code) room_codes && is_live r.status)) [
      | inl e ↦ rw e (record {
        id = refl;
        room_code = refl;
        owner = refl;
        mode = refl;
        seats = refl;
        status = here;
      })
      | inr e ↦ rw e (same r)
    ]

touch_rooms-Onward :
    (s : Practice) (room_codes : List (List ℕ)) (now : ℕ) → Onward s (touch_rooms s room_codes now)
unfolding touch_rooms
touch_rooms-Onward s room_codes now = all_touched s.rooms
  where
    all_touched : (rs : List Room) → Follows rs (map (touch room_codes now) rs)
    all_touched [] = tt
    all_touched (r ∷ rs) = (touched-Continues room_codes now r, all_touched rs)

-- A call after the others.
last_call : (s m t : Practice) → Onward s m → Onward m t → Onward s t
last_call s m t = Follows-trans s.rooms m.rooms t.rooms

-- After any sequence of these steps, from tables whose rooms are sound, every room is still there with the
-- code, the owner, the mode and the number of seats it had, and its status has followed the diagram: it
-- becomes ready only while it waits, and waits again only from ready; from any status a room can be played,
-- finished or closed, since nextHand and endRoom do not look at its status.
pub Steps-Follows : (s t : Practice) → AllSound s → Steps s t → Follows s.rooms t.rooms
Steps-Follows s t all start = Follows-refl s.rooms
Steps-Follows s t all (friends_room_created {t = m} user input limits fresh h seats new e) =
    last_call s m t (Steps-Follows s m all h)
      (subst (Onward m) e (create_friends_room-Onward m user input limits fresh))
Steps-Follows s t all (solo_room_created {t = m} user input n level limits fresh h new e) =
    last_call s m t (Steps-Follows s m all h)
      (subst (Onward m) e (create_solo_room-Onward m user input n level limits fresh))
Steps-Follows s t all (joined {t = m} user code h e) =
    last_call s m t (Steps-Follows s m all h)
      (Ensures-value (join_room-Onward m (Steps-AllSound s m all h) user code) e)
Steps-Follows s t all (chips_set {t = m} user code chips h e) =
    last_call s m t (Steps-Follows s m all h)
      (Ensures-value (set_initial_chips-Onward m (Steps-AllSound s m all h) user code chips) e)
Steps-Follows s t all (chips_confirmed {t = m} user code h e) =
    last_call s m t (Steps-Follows s m all h)
      (Ensures-value (confirm_initial_chips-Onward m (Steps-AllSound s m all h) user code) e)
Steps-Follows s t all (ready_set {t = m} user code st h e) =
    last_call s m t (Steps-Follows s m all h)
      (Ensures-value (set_ready-Onward m (Steps-AllSound s m all h) user code st) e)
Steps-Follows s t all (started {t = m} user code h e) =
    last_call s m t (Steps-Follows s m all h)
      (Ensures-value (start_room-Onward m (Steps-AllSound s m all h) user code) e)
Steps-Follows s t all (first_hand_begun {t = m} user code h e) =
    last_call s m t (Steps-Follows s m all h)
      (Ensures-value (begin_first_hand-Onward m (Steps-AllSound s m all h) user code) e)
Steps-Follows s t all (next_hand_begun {t = m} user code h e) =
    last_call s m t (Steps-Follows s m all h)
      (Ensures-value (begin_next_hand-Onward m (Steps-AllSound s m all h) user code) e)
Steps-Follows s t all (room_finished {t = m} user code now h e) =
    last_call s m t (Steps-Follows s m all h)
      (Ensures-value (finish_room-Onward m (Steps-AllSound s m all h) user code now) e)
Steps-Follows s t all (room_closed {t = m} user code now h e) =
    last_call s m t (Steps-Follows s m all h)
      (Ensures-value (close_room-Onward m (Steps-AllSound s m all h) user code now) e)
Steps-Follows s t all (admin_closed {t = m} id now h e) =
    last_call s m t (Steps-Follows s m all h)
      (Ensures-value (admin_close_room-Onward m (Steps-AllSound s m all h) id now) e)
Steps-Follows s t all (touched {t = m} room_codes now h e) =
    last_call s m t (Steps-Follows s m all h)
      (subst (Onward m) e (touch_rooms-Onward m room_codes now))
