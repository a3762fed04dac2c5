-- ===== src/PracticeRoom/Start.antt =====
-- The way of a waiting room from the confirmations of its players to its start.
use allinle.Prelude.{
  ℕ, suc, ◌<◌, ◌≡◌, refl, sym, ap, ap₂, ◌∙◌, subst, Bool, true, false, ◌&&◌, ◌||◌, List, [], ◌∷◌,
  map, some, find, any, every, length, ltb, ==_refl, if◌then◌else◌, arith, insert_by, sort_by,
  Bool-cases, inl, inr, Result, ok, ◌>>=◌,
}
use allinle.Prelude.Sorted.{Distinct}
use allinle.Prelude.Text.{same_text}
use allinle.PracticeRoom.{
  Room, RoomPlayer, Practice, PracticeError, User, ready, playing, is_over_or_playing, keeps_status,
  all_confirmed, all_set_chips, refresh_ready_status, update_players, of_user, confirm, with_status,
  has_code, write_room, serialize_players, by_seat, get_by_room_code, assert_user_can_use_practice,
  assert_room_player, assert_room_can_change_waiting_state, waiting_room_of, confirm_initial_chips,
  start_room, PlayerView,
}
use allinle.PracticeRoom.Refresh.{
  refresh-id, refresh-players, refresh-code, refresh-owner, not_over-keeps_status,
}
use allinle.PracticeRoom.Tables.{ids_of, ids-write_room, find-write_room}

-- The calls of these users, one after another.
unfoldable pub confirm_all : Practice → List ℕ → List ℕ → Result PracticeError Practice
confirm_all s [] code = ok s
confirm_all s (u ∷ us) code = confirm_initial_chips s u code >>= λ t. confirm_all t us code

abbrev is_done : RoomPlayer → Bool
is_done p = p.initial_chips_confirmed && p.ready_status

-- Has confirmed, or is one of those who will.
abbrev pub done_or_due : List ℕ → RoomPlayer → Bool
done_or_due us p = is_done p || any (λ u. of_user u p) us

-- Every one of these users may use the service, and is a player.
abbrev pub MayConfirm : List User → List RoomPlayer → List ℕ → Type 0
MayConfirm users players [] = Unit
MayConfirm users players (u ∷ us) =
    (assert_user_can_use_practice users u ≡ ok tt)
    × (any (of_user u) players ≡ true)
    × MayConfirm users players us

-- A room that waits for these users to confirm, and for no one else.
pub record WaitsFor (users : List User) (r : Room) (us : List ℕ) : Type 0 where
  pub waits : is_over_or_playing r.status ≡ false
  pub chips : all_set_chips r.players ≡ true
  pub due : every (done_or_due us) r.players ≡ true
  pub may : MayConfirm users r.players us

abbrev confirmed_by : ℕ → Room → Room
confirmed_by u r = refresh_ready_status (update_players (of_user u) confirm r)

abbrev after_confirm : ℕ → List RoomPlayer → List RoomPlayer
after_confirm u ps = map (λ p. if of_user u p then confirm p else p) ps

due-confirm :
    (u : ℕ) (us : List ℕ) (ps : List RoomPlayer)
    → every (done_or_due (u ∷ us)) ps ≡ true
    → every (done_or_due us) (after_confirm u ps) ≡ true
due-confirm u us [] h = refl
due-confirm u us (p ∷ ps) h = ground (arith, due-confirm u us ps)

chips-confirm :
    (u : ℕ) (ps : List RoomPlayer) → all_set_chips (after_confirm u ps) ≡ all_set_chips ps
chips-confirm u [] = refl
chips-confirm u (p ∷ ps) = ground (arith, chips-confirm u ps)

any-confirm :
    (u v : ℕ) (ps : List RoomPlayer) → any (of_user v) (after_confirm u ps) ≡ any (of_user v) ps
any-confirm u v [] = refl
any-confirm u v (p ∷ ps) =
    ap₂ ◌||◌ (elim (Bool-cases (of_user u p)) [ inl e ↦ rw e refl | inr e ↦ rw e refl ])
      (any-confirm u v ps)

may-confirm :
    (users : List User) (u : ℕ) (ps : List RoomPlayer) (us : List ℕ)
    → MayConfirm users ps us
    → MayConfirm users (after_confirm u ps) us
may-confirm users u ps [] h = tt
may-confirm users u ps (v ∷ us) h = (h.0, any-confirm u v ps ∙ h.1, may-confirm users u ps us h.2)

-- The status follows the confirmations.
abbrev Settled : Room → Type 0
Settled r = 0 < length r.players → all_confirmed r.players ≡ true → r.status ≡ ready

refresh-Settled : (r : Room) → keeps_status r.status ≡ false → Settled (refresh_ready_status r)
unfolding refresh_ready_status
refresh-Settled r k = rw k λ n c. ground arith

refresh-waits :
    (r : Room)
    → keeps_status r.status ≡ false
    → is_over_or_playing (refresh_ready_status r).status ≡ false
unfolding refresh_ready_status
refresh-waits r k = rw k (elim (Bool-cases (ltb 0 (length r.players) && all_confirmed r.players)) [
  | inl e ↦ rw e refl
  | inr e ↦ rw e refl
])

confirm-WaitsFor :
    (users : List User) (r : Room) (u : ℕ) (us : List ℕ)
    → WaitsFor users r (u ∷ us)
    → WaitsFor users (confirmed_by u r) us
confirm-WaitsFor users r u us h = record {
  waits =
      refresh-waits (update_players (of_user u) confirm r) (not_over-keeps_status r.status h.waits);
  chips =
      ap all_set_chips (refresh-players (update_players (of_user u) confirm r))
      ∙ chips-confirm u r.players
      ∙ h.chips;
  due =
      ap (every (done_or_due us)) (refresh-players (update_players (of_user u) confirm r))
      ∙ due-confirm u us r.players h.due;
  may =
      subst (λ ps. MayConfirm users ps us)
        (sym (refresh-players (update_players (of_user u) confirm r)))
        (may-confirm users u r.players us h.may.2);
}

-- The calls read this room, whose identifier no other row has, and these users.
pub record Reads (t : Practice) (users : List User) (code : List ℕ) (r : Room) : Type 0 where
  pub same_users : t.users ≡ users
  pub found : find (has_code code) t.rooms ≡ some r
  pub unique : Distinct (ids_of t.rooms)

-- A write to the room that is read.
write-Reads :
    (f : Room → Room) (t : Practice) (users : List User) (code : List ℕ) (r : Room)
    → ((x : Room) → (f x).id ≡ x.id)
    → ((x : Room) → (f x).room_code ≡ x.room_code)
    → Reads t users code r
    → Reads (record t { rooms = write_room r.id f t.rooms }) users code (f r)
write-Reads f t users code r same_id same_code h = record {
  same_users = h.same_users;
  found =
      find-write_room f same_id (has_code code) t.rooms r h.unique
        (λ x. ap (λ c. same_text c code) (same_code x)) h.found;
  unique = subst Distinct (sym (ids-write_room f same_id r.id t.rooms)) h.unique;
}

find-any :
    (u : ℕ) (ps : List RoomPlayer)
    → any (of_user u) ps ≡ true
    → (p : RoomPlayer) × (find (of_user u) ps ≡ some p)
find-any u [] h = cc
find-any u (p ∷ ps) h = elim (Bool-cases (of_user u p)) [
  | inl e ↦ (p, ground arith)
  | inr e ↦ let (q, f) = find-any u ps (ground arith) in (q, ground arith)
]

confirm-ok :
    (t : Practice) (users : List User) (code : List ℕ) (r : Room) (u : ℕ) (us : List ℕ)
    → Reads t users code r
    → WaitsFor users r (u ∷ us)
    → (v : Practice) × (confirm_initial_chips t u code ≡ ok v)
      × Reads v users code (confirmed_by u r)
unfolding confirm_initial_chips waiting_room_of get_by_room_code assert_room_player
    assert_room_can_change_waiting_state
confirm-ok t users code r u us h w =
    let (p, f) = find-any u r.players w.may.1 in
    (
      record t { rooms = write_room r.id (confirmed_by u) t.rooms },
      rw (h.same_users, w.may.0, h.found, w.waits, f, w.chips) refl,
      write-Reads (confirmed_by u) t users code r
          (λ x. refresh-id (update_players (of_user u) confirm x))
          (λ x. refresh-code (update_players (of_user u) confirm x)) h,
    )

every-insert_by :
    (f : RoomPlayer → Bool) (p : RoomPlayer) (ps : List RoomPlayer)
    → every f (insert_by by_seat p ps) ≡ (f p && every f ps)
every-insert_by f p [] = refl
every-insert_by f p (q ∷ ps) = ground (arith, every-insert_by f p ps)

every-sort_by :
    (f : RoomPlayer → Bool) (ps : List RoomPlayer) → every f (sort_by by_seat ps) ≡ every f ps
unfolding sort_by
every-sort_by f [] = refl
every-sort_by f (p ∷ ps) =
    every-insert_by f p (sort_by by_seat ps) ∙ ap (◌&&◌ (f p)) (every-sort_by f ps)

every-shown :
    (f : RoomPlayer → Bool) (g : RoomPlayer → PlayerView)
    → ((p : RoomPlayer) → (g p).player ≡ p)
    → (ps : List RoomPlayer) → every (λ (v : PlayerView). f v.player) (map g ps) ≡ every f ps
every-shown f g h [] = refl
every-shown f g h (p ∷ ps) = ap₂ ◌&&◌ (ap f (h p)) (every-shown f g h ps)

every-serialize_players :
    (f : RoomPlayer → Bool) (users : List User) (ps : List RoomPlayer)
    → every (λ (v : PlayerView). f v.player) (serialize_players users ps) ≡ every f ps
unfolding serialize_players
every-serialize_players f users ps =
    every-shown f _ (λ p. refl) (sort_by by_seat ps) ∙ every-sort_by f ps

none_due :
    (ps : List RoomPlayer)
    → every (done_or_due []) ps ≡ true
    → (all_confirmed ps ≡ true) × (every (λ (p : RoomPlayer). p.ready_status) ps ≡ true)
none_due [] h = (refl, refl)
none_due (p ∷ ps) h = let (a, b) = none_due ps (ground arith) in (ground arith, ground arith)

-- Nobody is left to confirm.
start-ok :
    (t : Practice) (users : List User) (code : List ℕ) (r : Room)
    → Reads t users code r
    → WaitsFor users r []
    → Settled r
    → 0 < length r.players
    → assert_user_can_use_practice users r.owner_user_id ≡ ok tt
    → (v : Practice) × (start_room t r.owner_user_id code ≡ ok v)
      × Reads v users code (with_status playing r)
unfolding start_room get_by_room_code
start-ok t users code r h w settled some_player owner =
    let (a, b) = none_due r.players w.due in
    let status = settled some_player a in
    (
      record t { rooms = write_room r.id (with_status playing) t.rooms },
      rw
          (
            h.same_users,
            owner,
            h.found,
            ==_refl r.owner_user_id,
            status,
            every-serialize_players (λ p. p.initial_chips_confirmed) users r.players,
            a,
            every-serialize_players (λ p. p.ready_status) users r.players,
            b,
          )
          refl,
      write-Reads (with_status playing) t users code r (λ x. refl) (λ x. refl) h,
    )

-- The room is read, its owner may use the service, and it has a player.
record Startable (t : Practice) (users : List User) (code : List ℕ) (owner : ℕ) (us : List ℕ)
    (r : Room) : Type 0 where
  reads : Reads t users code r
  waits_for : WaitsFor users r us
  owned : r.owner_user_id ≡ owner
  some_player : 0 < length r.players

length-confirm : (u : ℕ) (ps : List RoomPlayer) → length (after_confirm u ps) ≡ length ps
length-confirm u [] = refl
length-confirm u (p ∷ ps) = ap suc (length-confirm u ps)

confirm-Startable :
    (t : Practice) (users : List User) (code : List ℕ) (owner u : ℕ) (us : List ℕ) (r : Room)
    → Startable t users code owner (u ∷ us) r
    → (v : Practice) × (confirm_initial_chips t u code ≡ ok v)
      × Startable v users code owner us (confirmed_by u r)
confirm-Startable t users code owner u us r h =
    let (v, e, reads) = confirm-ok t users code r u us h.reads h.waits_for in
    let same = refresh-players (update_players (of_user u) confirm r) in
    (
      v,
      e,
      record {
        reads = reads;
        waits_for = confirm-WaitsFor users r u us h.waits_for;
        owned = refresh-owner (update_players (of_user u) confirm r) ∙ h.owned;
        some_player =
            subst (λ n. 0 < n) (sym (ap length same ∙ length-confirm u r.players)) h.some_player;
      },
    )

-- A table whose room with this code is played.
abbrev pub Played : Practice → List ℕ → Type 0
Played t code = (q : Room) × (find (has_code code) t.rooms ≡ some q) × (q.status ≡ playing)

Settled-starts :
    (t : Practice) (users : List User) (code : List ℕ) (owner : ℕ) (us : List ℕ) (r : Room)
    → assert_user_can_use_practice users owner ≡ ok tt
    → Settled r
    → Startable t users code owner us r
    → (v : Practice) × ((confirm_all t us code >>= λ m. start_room m owner code) ≡ ok v)
      × Played v code
unfolding confirm_all
Settled-starts t users code owner [] r may settled h =
    let (v, e, k) =
      start-ok t users code r h.reads h.waits_for settled h.some_player
        (subst (λ u. assert_user_can_use_practice users u ≡ ok tt) (sym h.owned) may) in
    (v, subst (λ u. start_room t u code ≡ ok v) h.owned e, (with_status playing r, k.found, refl))
Settled-starts t users code owner (u ∷ us) r may settled h =
    let (m, e, k) = confirm-Startable t users code owner u us r h in
    let (v, f, q) =
      Settled-starts m users code owner us (confirmed_by u r) may
        (confirmed-Settled t users code owner u us r h) k in
    (v, rw e f, q)
  where
    confirmed-Settled :
        (t : Practice) (users : List User) (code : List ℕ) (owner u : ℕ) (us : List ℕ) (r : Room)
        → Startable t users code owner (u ∷ us) r
        → Settled (confirmed_by u r)
    confirmed-Settled t users code owner u us r h =
        refresh-Settled (update_players (of_user u) confirm r)
          (not_over-keeps_status r.status h.waits_for.waits)

-- If a room with a player is found by its code, waits, its players have all brought chips, and each of
-- them has confirmed or is among these users, each of whom is a player and may use the service, then the
-- calls of these users that confirm the chips succeed one after another, the owner's call that starts
-- the room then succeeds, and the room is played. One user at least confirms, identifiers are unique,
-- and the owner may use the service.
pub confirm_all-starts :
    (s : Practice) (code : List ℕ) (r : Room) (u : ℕ) (us : List ℕ)
    → Distinct (ids_of s.rooms)
    → find (has_code code) s.rooms ≡ some r
    → 0 < length r.players
    → WaitsFor s.users r (u ∷ us)
    → assert_user_can_use_practice s.users r.owner_user_id ≡ ok tt
    → (v : Practice) × ((confirm_all s (u ∷ us) code >>= λ t. start_room t r.owner_user_id code)
        ≡ ok v)
      × Played v code
unfolding confirm_all
confirm_all-starts s code r u us unique found some_player waits may =
    let first : Startable s s.users code r.owner_user_id (u ∷ us) r = record {
      reads = record { same_users = refl; found = found; unique = unique };
      waits_for = waits;
      owned = refl;
      some_player = some_player;
    } in
    let (m, e, k) = confirm-Startable s s.users code r.owner_user_id u us r first in
    let (v, f, q) =
      Settled-starts m s.users code r.owner_user_id us (confirmed_by u r) may
        (refresh-Settled (update_players (of_user u) confirm r)
          (not_over-keeps_status r.status waits.waits))
        k in
    (v, rw e f, q)
