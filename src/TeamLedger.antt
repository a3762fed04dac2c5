-- ===== src/TeamLedger.antt =====
-- apps/api/src/team-ledger/team-ledger.service.ts: the hands of a game that a group keeps scores of, and
-- who pays whom at its end. A room holds its participants and its hands; a call is on one room, without
-- the lookup by its code. Amounts are integers, in hundredths.
pub mod Settlement
pub mod Exact
pub mod Settled
pub mod Temps
use allinle.Prelude.{
  ℕ, suc, zero, ◌+◌, max, Bool, true, false, ◌&&◌, ◌||◌, not, List, [], ◌∷◌, ◌++◌, map, Option,
  none, some, find, filter, any, every, ltb, leb, ◌==◌, if◌then◌else◌, length, Result, ok, err,
  throw_if, or_throw, ◌>>=◌, ◌>>◌,
}
use allinle.Prelude.Int.{ℤ, pos, negsuc, ◌+ℤ◌}

pub data TeamLedgerRoomStatus : Type 0 where
  waiting active finished closed : TeamLedgerRoomStatus

pub data TeamLedgerHandStatus : Type 0 where
  opened confirming locked disputed : TeamLedgerHandStatus

pub data TeamLedgerEntryStatus : Type 0 where
  pending submitted confirmed disputed : TeamLedgerEntryStatus

-- A temporary participant has no user.
pub record Participant : Type 0 where
  pub id : ℕ
  pub user_id : Option ℕ
  pub seat_no : ℕ
  pub is_active : Bool

pub record Entry : Type 0 where
  pub participant_id : ℕ
  pub amount : ℤ
  pub status : TeamLedgerEntryStatus

pub record TeamHand : Type 0 where
  pub hand_no : ℕ
  pub status : TeamLedgerHandStatus
  pub entries : List Entry

pub record TeamRoom : Type 0 where
  pub owner_user_id : ℕ
  pub status : TeamLedgerRoomStatus
  pub current_hand_no : ℕ
  pub participants : List Participant
  pub hands : List TeamHand

pub data TeamLedgerError : Type 0 where
  not_the_owner not_waiting not_active hand_not_found hand_not_locked hand_locked
        not_a_participant :
      TeamLedgerError
  participant_not_found not_temporary not_balanced not_all_submitted not_confirming
        too_few_participants hand_exists :
      TeamLedgerError

abbrev pub assert_owner : TeamRoom → ℕ → Result TeamLedgerError (Unit {0})
assert_owner r user = throw_if (not (r.owner_user_id == user)) not_the_owner

abbrev pub has_no : ℕ → TeamHand → Bool
has_no n h = h.hand_no == n

unfoldable pub room_hand : TeamRoom → ℕ → Result TeamLedgerError TeamHand
room_hand r n = or_throw (find (has_no n) r.hands) hand_not_found

abbrev pub at_hand : ℕ → (TeamHand → TeamHand) → List TeamHand → List TeamHand
at_hand n f hands = map (λ h. if has_no n h then f h else h) hands

abbrev pub of_user : ℕ → Participant → Bool
of_user user p = elim p.user_id [ none ↦ false | some u ↦ u == user ]

abbrev pub is_locked : TeamLedgerHandStatus → Bool
is_locked locked = true
is_locked _ = false

abbrev pub is_confirming : TeamLedgerHandStatus → Bool
is_confirming confirming = true
is_confirming _ = false

abbrev pub is_submitted : TeamLedgerEntryStatus → Bool
is_submitted submitted = true
is_submitted confirmed = true
is_submitted _ = false

abbrev pub is_confirmed : TeamLedgerEntryStatus → Bool
is_confirmed confirmed = true
is_confirmed _ = false

abbrev pub of_participant : ℕ → Entry → Bool
of_participant id e = e.participant_id == id

-- `upsert` of an entry.
unfoldable pub upsert_entry : ℕ → ℤ → List Entry → List Entry
upsert_entry id amount [] = record { participant_id = id; amount = amount; status = submitted } ∷ []
upsert_entry id amount (e ∷ es) =
    if of_participant id e
    then record { participant_id = id; amount = amount; status = submitted } ∷ es
    else e ∷ upsert_entry id amount es

unfoldable pub total_of : List Entry → ℤ
total_of [] = pos 0
total_of (e ∷ es) = e.amount +ℤ total_of es

abbrev pub is_zero : ℤ → Bool
is_zero (pos n) = n == 0
is_zero (negsuc n) = false

abbrev pub active_participants : TeamRoom → List Participant
active_participants r = filter (λ (p : Participant). p.is_active) r.participants

abbrev pub with_status : TeamLedgerHandStatus → TeamHand → TeamHand
with_status st h = record h { status = st }

-- Each of the participants has an entry that passes the test.
abbrev pub all_have : (Entry → Bool) → List Participant → List Entry → Bool
all_have test ps es = every (λ (p : Participant). any (λ e. of_participant p.id e && test e) es) ps

abbrev pub is_open : TeamLedgerHandStatus → Bool
is_open opened = true
is_open _ = false

unfoldable pub auto_promote : List Participant → TeamHand → TeamHand
unfolding total_of
auto_promote ps h =
    let done = filter (λ (e : Entry). is_submitted e.status) h.entries in
    if is_open h.status && all_have (λ _. true) ps done && is_zero (total_of done)
    then with_status confirming h
    else h

unfoldable pub promote_locked : List Participant → TeamHand → TeamHand
promote_locked ps h =
    if all_have (λ (e : Entry). is_confirmed e.status) ps h.entries then with_status locked h else h

abbrev pub reopened : TeamHand → TeamHand
reopened h = elim h.status [ TeamLedgerHandStatus.disputed ↦ with_status opened h | _ ↦ h ]

abbrev pub with_entry : ℕ → ℤ → TeamHand → TeamHand
with_entry id amount h = record h { entries = upsert_entry id amount h.entries }

unfoldable pub submit_entry : TeamRoom → ℕ → ℕ → ℤ → Result TeamLedgerError TeamRoom
unfolding upsert_entry
submit_entry r user n amount = do
  h ← room_hand r n
  throw_if (is_locked h.status) hand_locked
  p ← or_throw (find (of_user user) r.participants) not_a_participant
  ok (record r {
    hands =
        at_hand n (λ h. auto_promote (active_participants r) (reopened (with_entry p.id amount h)))
          r.hands;
  })

abbrev pub has_id : ℕ → Participant → Bool
has_id id p = p.id == id

abbrev pub has_account : Participant → Bool
has_account p = elim p.user_id [ none ↦ false | some u ↦ true ]

unfoldable pub submit_entry_for_temp : TeamRoom → ℕ → ℕ → ℕ → ℤ → Result TeamLedgerError TeamRoom
unfolding upsert_entry
submit_entry_for_temp r user n id amount = do
  h ← room_hand r n
  assert_owner r user
  p ← or_throw (find (has_id id) r.participants) participant_not_found
  throw_if (has_account p) not_temporary
  ok (record r { hands = at_hand n (with_entry p.id amount) r.hands })

-- The sum and the completeness that `getHandBalance` reports, of the active participants.
unfoldable pub balance_entries : TeamRoom → TeamHand → List Entry
balance_entries r h =
    filter
      (λ (e : Entry).
        any (has_id e.participant_id) (active_participants r) && is_submitted e.status)
      h.entries

unfoldable pub request_confirm_hand : TeamRoom → ℕ → ℕ → Result TeamLedgerError TeamRoom
unfolding balance_entries total_of
request_confirm_hand r user n = do
  assert_owner r user
  h ← room_hand r n
  throw_if (not (is_zero (total_of (balance_entries r h)))) not_balanced
  throw_if (not (all_have (λ _. true) (active_participants r) (balance_entries r h)))
      not_all_submitted
  ok (record r { hands = at_hand n (with_status confirming) r.hands })

abbrev pub mark : (Entry → Bool) → TeamLedgerEntryStatus → TeamHand → TeamHand
mark test st h = record h {
  entries = map (λ e. if test e then record e { status = st } else e) h.entries;
}

unfoldable pub confirm_hand_entry : TeamRoom → ℕ → ℕ → Result TeamLedgerError TeamRoom
confirm_hand_entry r user n = do
  h ← room_hand r n
  throw_if (not (is_confirming h.status)) not_confirming
  p ← or_throw (find (of_user user) r.participants) not_a_participant
  ok (record r {
    hands =
        at_hand n
          (λ h. promote_locked (active_participants r) (mark (of_participant p.id) confirmed h))
          r.hands;
  })

unfoldable pub dispute_hand_entry : TeamRoom → ℕ → ℕ → Result TeamLedgerError TeamRoom
dispute_hand_entry r user n = do
  h ← room_hand r n
  p ← or_throw (find (of_user user) r.participants) not_a_participant
  ok (record r {
    hands =
        at_hand n
          (λ h. with_status TeamLedgerHandStatus.disputed (
            mark (of_participant p.id) TeamLedgerEntryStatus.disputed (mark (λ _. true) pending h)))
          r.hands;
  })

abbrev pub is_room_active : TeamLedgerRoomStatus → Bool
is_room_active active = true
is_room_active _ = false

-- The hand with the greatest number is locked, or there is none.
unfoldable pub last_is_locked : List TeamHand → Bool
last_is_locked [] = true
last_is_locked (h ∷ hs) =
    if any (λ (g : TeamHand). ltb h.hand_no g.hand_no) hs
    then last_is_locked hs
    else is_locked h.status

abbrev pub opened_hand : ℕ → TeamHand
opened_hand n = record { hand_no = n; status = opened; entries = [] }

-- The key of a hand is its room and its number.
unfoldable pub create_next_hand : TeamRoom → ℕ → Result TeamLedgerError TeamRoom
unfolding last_is_locked
create_next_hand r user = do
  assert_owner r user
  throw_if (not (is_room_active r.status)) not_active
  throw_if (not (last_is_locked r.hands)) hand_not_locked
  throw_if (any (has_no (r.current_hand_no + 1)) r.hands) hand_exists
  ok (record r {
    current_hand_no = r.current_hand_no + 1;
    hands = r.hands ++ opened_hand (r.current_hand_no + 1) ∷ [];
  })

unfoldable pub start_room : TeamRoom → ℕ → Result TeamLedgerError TeamRoom
start_room r user = do
  assert_owner r user
  throw_if (ltb (length (active_participants r)) 2) too_few_participants
  ok (record r { status = active; current_hand_no = 0 })

-- `endRoom`.
unfoldable pub end_room : TeamRoom → ℕ → Result TeamLedgerError TeamRoom
end_room r user = do assert_owner r user; ok (record r { status = finished })

-- The calls on the hands of a room.
pub data TeamCall : Type 0 where
  start : ℕ → TeamCall
  create_next : ℕ → TeamCall
  submit : ℕ → ℕ → ℤ → TeamCall
  submit_for : ℕ → ℕ → ℕ → ℤ → TeamCall
  request : ℕ → ℕ → TeamCall
  confirm_entry : ℕ → ℕ → TeamCall
  dispute : ℕ → ℕ → TeamCall
  finish : ℕ → TeamCall

unfoldable pub run_call : TeamCall → TeamRoom → Result TeamLedgerError TeamRoom
unfolding start_room create_next_hand submit_entry submit_entry_for_temp request_confirm_hand
    confirm_hand_entry dispute_hand_entry end_room
run_call (start user) r = start_room r user
run_call (create_next user) r = create_next_hand r user
run_call (submit user n amount) r = submit_entry r user n amount
run_call (submit_for user n id amount) r = submit_entry_for_temp r user n id amount
run_call (request user n) r = request_confirm_hand r user n
run_call (confirm_entry user n) r = confirm_hand_entry r user n
run_call (dispute user n) r = dispute_hand_entry r user n
run_call (finish user) r = end_room r user

-- A call that fails leaves the room as it is.
abbrev pub or_same : TeamRoom → Result TeamLedgerError TeamRoom → TeamRoom
or_same r (ok s) = s
or_same r (err e) = r

unfoldable pub run_calls : List TeamCall → TeamRoom → TeamRoom
unfolding run_call
run_calls [] r = r
run_calls (c ∷ cs) r = run_calls cs (or_same r (run_call c r))
