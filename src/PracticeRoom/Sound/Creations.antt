-- ===== src/PracticeRoom/Sound/Creations.antt =====
-- The two calls that make a room, and the one that touches rooms.
use allinle.Prelude.{
  ℕ, suc, zero, ◌+◌, ◌≤◌, ◌≡◌, refl, sym, ap, ap₂, ◌∙◌, subst, true, false, ◌&&◌, List, [], ◌∷◌,
  ◌++◌, map, Option, none, contains, leb, ltb, any, arith, Bool-cases, inl, inr, Result, ok, err,
  throw_if, ◌>>◌,
}
use allinle.Prelude.Sorted.{Distinct, Above, contains-Above}
use allinle.Prelude.Text.{same_text}
use allinle.PracticeRoom.{
  Room, RoomPlayer, Practice, PracticeError, BotLevel, all_confirmed, big_blind_not_greater,
  mode_not_friends, assert_user_can_use_practice, touch_rooms, touch, is_live,
}
use allinle.PracticeRoom.Create.{
  Limits, Fresh, RoomInput, Created, recent_rooms, is_other_mode, log_frequency,
  write_create_room_risk_logs, generate_unique_room_code, insert_room, insert_row, after_checks,
  friends_room, create_friends_room, solo_room, create_solo_room, bots,
}
use allinle.PracticeRoom.Tables.{AllRooms, AllRooms-append, AllRooms-map, ids_of}
use allinle.PracticeRoom.Sound.{IsSound, AllSound, SeatsWithin}
use allinle.PracticeRoom.Sound.Calls.{append-Distinct}

log_frequency-rooms :
    (s : Practice) (user : ℕ) (limits : Limits) (now : ℕ)
    → (log_frequency s user limits now).rooms ≡ s.rooms
unfolding log_frequency
log_frequency-rooms s user limits now =
    elim (Bool-cases (leb limits.create_limit (recent_rooms s.rooms user now))) [
      | inl e ↦ rw e refl
      | inr e ↦ rw e refl
    ]

pub logs-rooms :
    (s : Practice) (user chips : ℕ) (remark : Option (List ℕ)) (limits : Limits) (now : ℕ)
    → (write_create_room_risk_logs s user chips remark limits now).0.rooms ≡ s.rooms
unfolding write_create_room_risk_logs
logs-rooms s user chips remark limits now =
    elim (Bool-cases (ltb limits.max_initial_practice_chips chips)) [
      | inl e ↦ rw e (log_frequency-rooms s user limits now)
      | inr e ↦ rw e (log_frequency-rooms s user limits now)
    ]

map-ids-append : (rs : List Room) (r : Room) → ids_of (rs ++ r ∷ []) ≡ ids_of rs ++ r.id ∷ []
map-ids-append [] r = refl
map-ids-append (x ∷ rs) r = ap (λ is. x.id ∷ is) (map-ids-append rs r)

inserted-AllSound :
    (s : Practice) (r : Room)
    → contains r.id (ids_of s.rooms) ≡ false
    → IsSound r
    → AllSound s
    → AllSound (record s { rooms = s.rooms ++ r ∷ [] })
inserted-AllSound s r fresh sound h = record {
  rooms = AllRooms-append IsSound s.rooms r h.rooms sound;
  unique =
      subst Distinct (sym (map-ids-append s.rooms r))
        (append-Distinct r.id (ids_of s.rooms) fresh h.unique);
}

-- Only the rooms matter.
same_rooms-AllSound : (s t : Practice) → t.rooms ≡ s.rooms → AllSound s → AllSound t
same_rooms-AllSound s t e h = record {
  rooms = subst (AllRooms IsSound) (sym e) h.rooms;
  unique = subst (λ rs. Distinct (ids_of rs)) (sym e) h.unique;
}

insert_row-AllSound :
    (s : Practice) (id : ℕ) (row : List ℕ → Room)
    → ((code : List ℕ) → (contains (row code).id (ids_of s.rooms) ≡ false) × IsSound (row code))
    → AllSound s
    → (m : Result PracticeError (List ℕ)) → AllSound (insert_row s id row m).0
insert_row-AllSound s id row new h (err e) = h
insert_row-AllSound s id row new h (ok code) =
    inserted-AllSound s (row code) (new code).0 (new code).1 h

after_checks-AllSound :
    (s : Practice) (c : Created)
    → AllSound s
    → AllSound c.0
    → (m : Result PracticeError (Unit {0})) → AllSound (after_checks s m c).0
after_checks-AllSound s c h k (err e) = h
after_checks-AllSound s c h k (ok u) = k

insert_room-AllSound :
    (s : Practice) (user : ℕ) (input : RoomInput) (limits : Limits) (fresh : Fresh)
    (row : List ℕ → Room)
    → contains fresh.id (ids_of s.rooms) ≡ false
    → ((code : List ℕ) → ((row code).id ≡ fresh.id) × IsSound (row code))
    → AllSound s
    → AllSound (insert_room s user input limits fresh row).0
unfolding insert_room
insert_room-AllSound s user input limits fresh row new sound h =
    let (logged, risk) =
      write_create_room_risk_logs s user input.initial_practice_chips input.note limits fresh.now in
    let same = logs-rooms s user input.initial_practice_chips input.note limits fresh.now in
    insert_row-AllSound logged fresh.id row
      (λ code. (
        ap (contains (row code).id) (ap ids_of same)
            ∙ ap (λ i. contains i (ids_of s.rooms)) (sound code).0
            ∙ new,
        (sound code).1,
      ))
      (same_rooms-AllSound s logged same h)
      (risk >> generate_unique_room_code fresh.draw logged.rooms)

friends_room-IsSound :
    (user : ℕ) (input : RoomInput) (fresh : Fresh) (code : List ℕ)
    → 1 ≤ input.player_count
    → IsSound (friends_room user input fresh code)
unfolding friends_room
friends_room-IsSound user input fresh code h = record {
  distinct = (refl, tt);
  within = (omega arith, h, tt);
  ready_confirmed = λ e. cc;
}

-- The seats of bots ascend, and end with the last one.
bots-Above :
    (n seat chips : ℕ) (level : BotLevel)
    → Above seat (map (λ (p : RoomPlayer). p.seat_no) (bots n (suc seat) chips level))
unfolding bots
bots-Above zero seat chips level = tt
bots-Above (suc n) seat chips level = (omega arith, bots-Above n (suc seat) chips level)

Above-Distinct : (lo : ℕ) (xs : List ℕ) → Above lo xs → Distinct xs
Above-Distinct lo [] h = tt
Above-Distinct lo (x ∷ xs) h = (
  elim (Bool-cases (contains x xs)) [
    | inl c ↦ absurd (omega (arith, contains-Above x x xs h.1 c))
    | inr c ↦ c
  ],
  Above-Distinct x xs h.1,
)

bots-SeatsWithin :
    (k n seat chips : ℕ) (level : BotLevel)
    → 1 ≤ seat
    → seat + n ≤ suc k
    → SeatsWithin k (map (λ (p : RoomPlayer). p.seat_no) (bots n seat chips level))
unfolding bots
bots-SeatsWithin k zero seat chips level lo hi = tt
bots-SeatsWithin k (suc n) seat chips level lo hi =
    (lo, omega arith, bots-SeatsWithin k n (suc seat) chips level (omega arith) (omega arith))

bots-confirmed :
    (n seat chips : ℕ) (level : BotLevel) → all_confirmed (bots n seat chips level) ≡ true
unfolding bots
bots-confirmed zero seat chips level = refl
bots-confirmed (suc n) seat chips level = bots-confirmed n (suc seat) chips level

solo_room-IsSound :
    (user : ℕ) (input : RoomInput) (n : ℕ) (level : BotLevel) (fresh : Fresh) (code : List ℕ)
    → IsSound (solo_room user input n level fresh code)
unfolding solo_room
solo_room-IsSound user input n level fresh code = record {
  distinct =
      Above-Distinct 0
        (1 ∷ map (λ (p : RoomPlayer). p.seat_no) (bots n 2 input.initial_practice_chips level))
        (omega arith, bots-Above n 1 input.initial_practice_chips level);
  within = (
    omega arith,
    omega arith,
    bots-SeatsWithin (n + 1) n 2 input.initial_practice_chips level (omega arith) (omega arith),
  );
  ready_confirmed = λ e. (omega arith, bots-confirmed n 2 input.initial_practice_chips level);
}

pub create_friends_room-AllSound :
    (s : Practice) (user : ℕ) (input : RoomInput) (limits : Limits) (fresh : Fresh)
    → 1 ≤ input.player_count
    → contains fresh.id (ids_of s.rooms) ≡ false
    → AllSound s
    → AllSound (create_friends_room s user input limits fresh).0
unfolding create_friends_room
create_friends_room-AllSound s user input limits fresh seats new h =
    after_checks-AllSound s _ h
      (insert_room-AllSound s user input limits fresh (friends_room user input fresh) new
        (λ code. (unfold friends_room in refl, friends_room-IsSound user input fresh code seats)) h)
      (assert_user_can_use_practice s.users user
        >> throw_if (is_other_mode input.mode) mode_not_friends
        >> throw_if (leb input.big_blind input.small_blind) big_blind_not_greater)

pub create_solo_room-AllSound :
    (s : Practice) (user : ℕ) (input : RoomInput) (n : ℕ) (level : BotLevel) (limits : Limits)
    (fresh : Fresh)
    → contains fresh.id (ids_of s.rooms) ≡ false
    → AllSound s
    → AllSound (create_solo_room s user input n level limits fresh).0
unfolding create_solo_room
create_solo_room-AllSound s user input n level limits fresh new h =
    after_checks-AllSound s _ h
      (insert_room-AllSound s user (record input { note = none }) limits fresh
        (solo_room user input n level fresh) new
        (λ code. (unfold solo_room in refl, solo_room-IsSound user input n level fresh code)) h)
      (assert_user_can_use_practice s.users user
        >> throw_if (leb input.big_blind input.small_blind) big_blind_not_greater)

pub touch_rooms-AllSound :
    (s : Practice) (room_codes : List (List ℕ)) (now : ℕ)
    → AllSound s
    → AllSound (touch_rooms s room_codes now)
unfolding touch_rooms
touch_rooms-AllSound s room_codes now h = record {
  rooms = AllRooms-map IsSound _ s.rooms touched h.rooms;
  unique = subst Distinct (sym (touched_ids s.rooms)) h.unique;
}
  where
    touched : (r : Room) → IsSound r → IsSound (touch room_codes now r)
    touched r i = elim (Bool-cases (any (same_text r.room_code) room_codes && is_live r.status)) [
      | inl e ↦
          rw e (record {
            distinct = i.distinct;
            within = i.within;
            ready_confirmed = i.ready_confirmed;
          })
      | inr e ↦ rw e i
    ]

    touched_ids : (rs : List Room) → ids_of (map (touch room_codes now) rs) ≡ ids_of rs
    touched_ids [] = refl
    touched_ids (r ∷ rs) = ap₂ ◌∷◌ (ground arith) (touched_ids rs)
