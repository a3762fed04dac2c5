-- ===== src/Tests/Rooms.antt =====
-- The theorems on practice rooms at concrete inputs: a room of two users, from its creation to its start.
use allinle.Prelude.{
  ℕ, ◌↔◌, get_or, false, contains, length, ◌≤◌, ◌<◌, ◌≡◌, ◌⊎◌, refl, true, List, [], ◌∷◌, map, none,
  some, arith, Result, ok, err, ◌>>=◌,
}
use allinle.Prelude.Text.{codes, same_text}
use allinle.Risk.{create_risk_log, log_sensitive_content, contains_sensitive_word, sensitive_words}
use allinle.Risk.Words.{HasWord, contains_sensitive_word_iff}
use allinle.PracticeRoom.{
  friends, finished, no_room_code, UserStatus, PracticeError, Room, Practice, first_free, take_seat,
  new_player, seats_of, room_full, refresh_ready_status, write_room, get_by_room_code,
  assert_user_can_use_practice, assert_room_player, assert_room_can_change_waiting_state,
  waiting_room_of, join_room, set_initial_chips, start_room, close_room,
}
use allinle.PracticeRoom.Create.{
  Limits, Fresh, RoomInput, log_frequency, write_create_room_risk_logs, generate_room_code,
  generate_unique_room_code, code_of_bytes, insert_room, friends_room, create_friends_room,
}
use allinle.PracticeRoom.Codes.{IsNew, AllTaken, generate_unique_room_code-cases}
use allinle.PracticeRoom.Sound.{AllSound}
use allinle.PracticeRoom.Sound.Seats.{take_seat-cases}
use allinle.PracticeRoom.Sound.Runs.{
  Steps, start, friends_room_created, joined, room_closed, Steps-AllSound,
}
use allinle.PracticeRoom.Changes.{Follows}
use allinle.PracticeRoom.Changes.Runs.{Steps-Follows}
use allinle.PracticeRoom.Start.{confirm_all, Played, WaitsFor, confirm_all-starts}

abbrev empty : Practice
empty = record {
  users =
      record { id = 1; nickname = some "Ann"; status = UserStatus.normal }
      ∷ record { id = 2; nickname = none; status = UserStatus.limited }
      ∷ [];
  rooms = [];
  risk_logs = [];
}

abbrev input : RoomInput
input = record {
  mode = none;
  player_count = 6;
  small_blind = 5;
  big_blind = 10;
  initial_practice_chips = 1000;
  note = none;
}

abbrev limits : Limits
limits = record { create_limit = 20; max_initial_practice_chips = 100000 }

abbrev drawn : ℕ → List ℕ
drawn i = 0 ∷ 33 ∷ 255 ∷ i ∷ 0 ∷ 0 ∷ []

abbrev fresh : Fresh
fresh = record { id = 7; now = 5000000; draw = drawn }

unfoldable created : Practice
unfolding create_friends_room insert_room friends_room write_create_room_risk_logs log_frequency
    log_sensitive_content create_risk_log same_text generate_unique_room_code generate_room_code
    code_of_bytes assert_user_can_use_practice
created = (create_friends_room empty 1 input limits fresh).0

abbrev room_code : List ℕ
room_code = codes "AB9VAA"

abbrev or_empty : Result PracticeError Practice → Practice
or_empty (ok s) = s
or_empty (err e) = empty

unfoldable both : Practice
unfolding same_text created join_room take_seat first_free get_by_room_code
    assert_user_can_use_practice write_room refresh_ready_status
both = or_empty (join_room created 2 room_code)

unfoldable one_brought : Practice
unfolding same_text both set_initial_chips waiting_room_of assert_room_player
    assert_room_can_change_waiting_state get_by_room_code assert_user_can_use_practice write_room
    refresh_ready_status
one_brought = or_empty (set_initial_chips both 2 room_code 1500)

unfoldable brought : Practice
unfolding same_text one_brought set_initial_chips waiting_room_of assert_room_player
    assert_room_can_change_waiting_state get_by_room_code assert_user_can_use_practice write_room
    refresh_ready_status
brought = or_empty (set_initial_chips one_brought 1 room_code 1000)

unfoldable over : Practice
unfolding same_text both close_room get_by_room_code write_room
over = or_empty (close_room both 1 room_code 6000000)

abbrev no_room : Room
no_room = record {
  id = 0;
  room_code = [];
  owner_user_id = 0;
  mode = friends;
  player_count = 0;
  small_blind = 0;
  big_blind = 0;
  initial_practice_chips = 0;
  status = finished;
  ended_at = none;
  created_at = 0;
  updated_at = 0;
  players = [];
}

unfoldable both_room : Room
unfolding same_text both
both_room = get_or both.rooms 0 no_room

unfoldable brought_room : Room
unfolding same_text brought
brought_room = get_or brought.rooms 0 no_room

room_codes_run : map (λ r. r.room_code) brought.rooms ≡ room_code ∷ []
unfolding same_text brought
room_codes_run = refl

chips_run : map (λ r. map (λ p. p.chips) r.players) brought.rooms ≡ (1000 ∷ 1500 ∷ []) ∷ []
unfolding same_text brought
chips_run = refl

empty_sound : AllSound empty
empty_sound = record { rooms = tt; unique = tt }

both_steps : Steps empty both
unfolding same_text both
both_steps =
    joined 2 room_code (friends_room_created 1 input limits fresh start (omega arith) refl refl)
      refl

Steps-AllSound_example : AllSound both
Steps-AllSound_example = Steps-AllSound empty both empty_sound both_steps

over_steps : Steps both over
unfolding same_text over
over_steps = room_closed 1 room_code 6000000 start refl

both_sound : AllSound both
unfolding same_text both
both_sound = record {
  rooms = (
    record {
      distinct = (refl, (refl, tt));
      within = (omega arith, omega arith, (omega arith, omega arith, tt));
      ready_confirmed = λ e. cc;
    },
    tt,
  );
  unique = (refl, tt);
}

Steps-Follows_example : Follows both.rooms over.rooms
Steps-Follows_example = Steps-Follows both over both_sound over_steps

take_seat-cases_example :
    ((length both_room.players < both_room.player_count)
      × ((k : ℕ) × (take_seat both_room 3 ≡ ok (new_player 3 k both_room.initial_practice_chips))
          × (contains k (seats_of both_room) ≡ false)
          × (1 ≤ k)
          × (k ≤ both_room.player_count)))
    ⊎ ((both_room.player_count ≤ length both_room.players)
        × (take_seat both_room 3 ≡ err room_full))
take_seat-cases_example = take_seat-cases both_room 3

contains_sensitive_word_iff_example :
    (contains_sensitive_word (some (codes "good game")) ≡ true)
    ↔ HasWord sensitive_words (codes "good game")
contains_sensitive_word_iff_example = contains_sensitive_word_iff 103 (codes "ood game")

generate_unique_room_code-cases_example :
    ((code : List ℕ) × (generate_unique_room_code drawn both.rooms ≡ ok code)
      × IsNew both.rooms 6 code)
    ⊎ ((generate_unique_room_code drawn both.rooms ≡ err no_room_code)
        × AllTaken 20 drawn both.rooms)
generate_unique_room_code-cases_example =
    generate_unique_room_code-cases 6 drawn both.rooms (λ i. refl)

brought_waits : WaitsFor brought.users brought_room (2 ∷ 1 ∷ [])
unfolding same_text brought_room brought assert_user_can_use_practice
brought_waits = record {
  waits = refl;
  chips = refl;
  due = refl;
  may = (refl, refl, (refl, refl, tt));
}

confirm_all-starts_example :
    (v : Practice) × ((confirm_all brought (2 ∷ 1 ∷ []) room_code >>= λ t. start_room t 1 room_code)
      ≡ ok v)
    × Played v room_code
unfolding same_text brought_room brought assert_user_can_use_practice
confirm_all-starts_example =
    confirm_all-starts brought room_code brought_room 2 (1 ∷ []) (refl, tt) refl (omega arith)
      brought_waits refl
