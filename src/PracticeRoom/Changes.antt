-- ===== src/PracticeRoom/Changes.antt =====
-- The life of a room as a diagram of its status.
pub mod Calls
pub mod Runs
use allinle.Prelude.{
  ℕ, suc, zero, ◌≡◌, refl, sym, ap, ◌∙◌, subst, Bool, contains, true, false, not, ◌&&◌, ◌||◌, List,
  [], ◌∷◌, ◌++◌, map, none, some, find, any, every, length, ltb, leb, ◌==◌, ==_refl, if◌then◌else◌,
  arith, Bool-cases, inl, inr, Result, ok, err, throw_if, throw_if-eq-ok, or_throw, ◌>>◌, Ensures,
  good, Ensures-guard, Ensures-bind, Ensures-if, Ensures-value,
}
use allinle.Prelude.Sorted.{Distinct}
use allinle.Prelude.Text.{same_text}
use allinle.PracticeRoom.{
  Room, RoomPlayer, Practice, PracticeError, PracticeRoomMode, PracticeRoomStatus, waiting, ready,
  playing, finished, closed, is_over_or_playing, keeps_status, all_confirmed, refresh_ready_status,
  seated, update_players, of_user, confirm, with_chips, with_ready, has_code, has_id, write_room,
  room_not_found, is_ready, cannot_start, serialize_players, status_not_waiting, not_all_ready,
  not_the_owner, chips_not_set_by_all, all_set_chips, is_friends, mode_not_joinable,
  room_not_joinable, with_status, shut, touch, is_live, get_by_room_code,
  assert_user_can_use_practice, assert_room_player, assert_room_can_change_waiting_state,
  waiting_room_of, take_seat, join_room, confirm_initial_chips, set_initial_chips, set_ready,
  start_room, close_room, admin_close_room, touch_rooms,
}
use allinle.PracticeRoom.Create.{
  create_friends_room, create_solo_room, insert_room, insert_row, after_checks, Created, Fresh,
  Limits, RoomInput,
}
use allinle.PracticeRoom.Tables.{ids_of, contains-ids, get_by_room_code-found}
use allinle.PracticeRoom.Sound.{AllSound}
use allinle.PracticeRoom.Sound.Calls.{waiting_room_of-found}

infix 40 ◌⟶◌ ◌⟶*◌
pub data ◌⟶◌ : PracticeRoomStatus → PracticeRoomStatus → Type 0 where
  all_confirm : waiting ⟶ ready
  someone_takes_back : ready ⟶ waiting
  play : {a : PracticeRoomStatus} → a ⟶ playing
  finish : {a : PracticeRoomStatus} → a ⟶ finished
  end : {a : PracticeRoomStatus} → a ⟶ closed

pub data ◌⟶*◌ : PracticeRoomStatus → PracticeRoomStatus → Type 0 where
  here : {a : PracticeRoomStatus} → a ⟶* a
  move : {a b c : PracticeRoomStatus} → a ⟶ b → b ⟶* c → a ⟶* c

pub then_on : {a b c : PracticeRoomStatus} → a ⟶* b → b ⟶* c → a ⟶* c
then_on here k = k
then_on (move m h) k = move m (then_on h k)

-- A room and what has become of it.
pub record Continues (x y : Room) : Type 0 where
  pub id : x.id ≡ y.id
  pub room_code : x.room_code ≡ y.room_code
  pub owner : x.owner_user_id ≡ y.owner_user_id
  pub mode : x.mode ≡ y.mode
  pub seats : x.player_count ≡ y.player_count
  pub status : x.status ⟶* y.status

pub same : (x : Room) → Continues x x
same x = record {
  id = refl;
  room_code = refl;
  owner = refl;
  mode = refl;
  seats = refl;
  status = here;
}

pub Continues-trans : {x y z : Room} → Continues x y → Continues y z → Continues x z
Continues-trans h k = record {
  id = h.id ∙ k.id;
  room_code = h.room_code ∙ k.room_code;
  owner = h.owner ∙ k.owner;
  mode = h.mode ∙ k.mode;
  seats = h.seats ∙ k.seats;
  status = then_on h.status k.status;
}

-- Every room of the first table is at its place in the second, which may have more.
abbrev pub Follows : List Room → List Room → Type 0
Follows [] ys = Unit
Follows (x ∷ xs) [] = ⊥
Follows (x ∷ xs) (y ∷ ys) = Continues x y × Follows xs ys

pub Follows-refl : (xs : List Room) → Follows xs xs
Follows-refl [] = tt
Follows-refl (x ∷ xs) = (same x, Follows-refl xs)

pub Follows-trans : (xs ys zs : List Room) → Follows xs ys → Follows ys zs → Follows xs zs
Follows-trans [] ys zs h k = tt
Follows-trans (x ∷ xs) [] zs h k = absurd h
Follows-trans (x ∷ xs) (y ∷ ys) [] h k = absurd k
Follows-trans (x ∷ xs) (y ∷ ys) (z ∷ zs) h k =
    (Continues-trans h.0 k.0, Follows-trans xs ys zs h.1 k.1)

pub Follows-append : (xs : List Room) (r : Room) → Follows xs (xs ++ r ∷ [])
Follows-append [] r = tt
Follows-append (x ∷ xs) r = (same x, Follows-append xs r)

pub Follows-write :
    (f : Room → Room) (test : Room → Bool) (rs : List Room) (r : Room)
    → Distinct (ids_of rs)
    → find test rs ≡ some r
    → Continues r (f r)
    → Follows rs (write_room r.id f rs)
unfolding write_room
Follows-write f test [] r d e c = tt
Follows-write f test (x ∷ rs) r d e c = elim (Bool-cases (test x)) [
  | inl b ↦
      let is_row : r ≡ x = ground arith in
      subst (λ y. Follows (x ∷ rs) (write_room y.id f (x ∷ rs))) (sym is_row)
        (rw (==_refl x.id) (subst (λ y. Continues y (f y)) is_row c, Follows-refl rs))
  | inr b ↦
      let later : find test rs ≡ some r = ground arith in
      let apart : (x.id == r.id) ≡ false = ground (arith, contains-ids test rs r later, d.0) in
      rw apart (same x, Follows-write f test rs r d.1 later c)
]
