-- ===== src/TeamLedger/Temps.antt =====
-- The hands of a room that an active temporary participant takes part in.
use allinle.Prelude.{
  ℕ, ◌≡◌, refl, Bool, true, false, ◌&&◌, ◌||◌, not, List, [], ◌∷◌, ◌++◌, map, Option, none, some,
  find, filter, ltb, length, any, ◌==◌, if◌then◌else◌, arith, Bool-cases, ==→eq, subst, inl, inr,
  ok, err, or_throw, Ensures, good, failed, Ensures-guard, Ensures-bind, Result, ok_injective, ap,
  ◌+◌,
}
use allinle.Prelude.Int.{ℤ}
use allinle.TeamLedger.{
  not_the_owner, hand_exists, not_active, hand_not_locked, hand_locked, not_a_participant,
  participant_not_found, not_temporary, not_balanced, not_all_submitted, not_confirming,
  is_confirming, too_few_participants, is_room_active, TeamRoom, TeamHand, Participant, Entry,
  TeamLedgerEntryStatus, TeamLedgerHandStatus, TeamLedgerError, pending, confirmed, locked, opened,
  confirming, of_participant, is_confirmed, is_locked, is_open, is_submitted, is_zero, total_of,
  all_have, has_id, of_user, has_account, at_hand, has_no, opened_hand, upsert_entry,
  active_participants, with_entry, mark, reopened, room_hand, auto_promote, promote_locked,
  start_room, end_room, submit_entry, submit_entry_for_temp, request_confirm_hand,
  confirm_hand_entry, dispute_hand_entry, create_next_hand, balance_entries, last_is_locked,
  TeamCall, run_call, run_calls, or_same,
}

abbrev pub confirmed_of : ℕ → Entry → Bool
confirmed_of id e = of_participant id e && is_confirmed e.status

-- A hand that is not locked, with no confirmed amount of this participant.
abbrev pub HandWaits : ℕ → TeamHand → Type 0
HandWaits id h = (is_locked h.status ≡ false) × (any (confirmed_of id) h.entries ≡ false)

abbrev pub AllWait : ℕ → List TeamHand → Type 0
AllWait id [] = Unit
AllWait id (h ∷ hs) = HandWaits id h × AllWait id hs

-- An active participant has this identifier and no one with a user does.
abbrev pub IsTemp : ℕ → TeamRoom → Type 0
IsTemp id r =
    (any (has_id id) (active_participants r) ≡ true)
    × (any (λ p. has_account p && has_id id p) r.participants ≡ false)

abbrev pub RoomWaits : ℕ → TeamRoom → Type 0
RoomWaits id r = IsTemp id r × AllWait id r.hands

not_both : {b : Bool} → b ≡ true → b ≡ false → ⊥
not_both h k = cc

all_have-none :
    (id : ℕ) (ps : List Participant) (es : List Entry)
    → any (has_id id) ps ≡ true
    → any (confirmed_of id) es ≡ false
    → all_have (λ (e : Entry). is_confirmed e.status) ps es ≡ false
all_have-none id [] es h k = cc
all_have-none id (p ∷ ps) es h k =
    elim (Bool-cases (any (λ e. of_participant p.id e && is_confirmed e.status) es)) [
      | inr q ↦ rw q refl
      | inl q ↦ elim (Bool-cases (has_id id p)) [
        | inl r ↦
            let e : p.id ≡ id = ==→eq p.id id r in
            absurd (
              not_both
                (subst
                  (λ i. any (λ (e : Entry). of_participant i e && is_confirmed e.status) es ≡ true)
                  e q)
                k)
        | inr r ↦ rw q (all_have-none id ps es (ground arith) k)
      ]
    ]

of_user-account : (user : ℕ) (p : Participant) → of_user user p ≡ true → has_account p ≡ true
of_user-account user p h = go p.user_id h
  where
    go :
        (u : Option ℕ)
        → (elim u as (λ _. Bool) [ none ↦ false | some v ↦ v == user ]) ≡ true
        → (elim u as (λ _. Bool) [ none ↦ false | some v ↦ true ]) ≡ true
    go none h = h
    go (some v) h = refl

module _ {A : Type 0} (f : A → Bool) where
  find-first : (q : A) (xs : List A) (p : A) → f q ≡ true → find f (q ∷ xs) ≡ some p → q ≡ p
  find-first q xs p t e = let found : find f (q ∷ xs) ≡ some q = rw t refl in cc

  find-rest :
      (q : A) (xs : List A) (p : A) → f q ≡ false → find f (q ∷ xs) ≡ some p → find f xs ≡ some p
  find-rest q xs p t e = let found : find f (q ∷ xs) ≡ find f xs = rw t refl in cc

or_throw-eq-ok :
    {A : Type 0} {E : Type 0} (e : E) (o : Option A) {a : A} → or_throw o e ≡ ok a → o ≡ some a
or_throw-eq-ok e none h = cc
or_throw-eq-ok e (some b) h = ap some (ok_injective h)

second_false : (a b c : Bool) → a ≡ true → (a && b || c) ≡ false → b ≡ false
second_false true false false h k = refl
second_false true false true h k = refl
second_false true true c h k = cc
second_false false b c h k = cc

find-other :
    (id user : ℕ) (ps : List Participant) (p : Participant)
    → any (λ p. has_account p && has_id id p) ps ≡ false
    → find (of_user user) ps ≡ some p
    → has_id id p ≡ false
find-other id user [] p h e = cc
find-other id user (q ∷ ps) p h e = elim (Bool-cases (of_user user q)) [
  | inl t ↦
      let same : q ≡ p = find-first (of_user user) q ps p t e in
      let account : has_account q ≡ true = of_user-account user q t in
      subst (λ (x : Participant). has_id id x ≡ false) same
        (second_false (has_account q) (has_id id q) (any (λ p. has_account p && has_id id p) ps)
          account h)
  | inr t ↦ find-other id user ps p (ground arith) (find-rest (of_user user) q ps p t e)
]

at_hand-AllWait :
    (id n : ℕ) (f : TeamHand → TeamHand) (hs : List TeamHand)
    → ((h : TeamHand) → HandWaits id h → HandWaits id (f h))
    → AllWait id hs
    → AllWait id (at_hand n f hs)
at_hand-AllWait id n f [] k w = tt
at_hand-AllWait id n f (h ∷ hs) k (a, w) = elim (Bool-cases (has_no n h)) [
  | inl p ↦ rw p (k h a, at_hand-AllWait id n f hs k w)
  | inr p ↦ rw p (a, at_hand-AllWait id n f hs k w)
]

append-AllWait :
    (id n : ℕ) (hs : List TeamHand) → AllWait id hs → AllWait id (hs ++ opened_hand n ∷ [])
append-AllWait id n [] w = ((refl, refl), tt)
append-AllWait id n (h ∷ hs) (a, w) = (a, append-AllWait id n hs w)

upsert_entry-waits :
    (id k : ℕ) (a : ℤ) (es : List Entry)
    → any (confirmed_of id) es ≡ false
    → any (confirmed_of id) (upsert_entry k a es) ≡ false
unfolding upsert_entry
upsert_entry-waits id k a [] h = ground arith
upsert_entry-waits id k a (e ∷ es) h = ground (arith, upsert_entry-waits id k a es)

mark-waits :
    (id : ℕ) (test : Entry → Bool) (st : TeamLedgerEntryStatus) (es : List Entry)
    → is_confirmed st ≡ false
    → any (confirmed_of id) es ≡ false
    → any (confirmed_of id) (map (λ e. if test e then record e { status = st } else e) es) ≡ false
mark-waits id test st [] s h = refl
mark-waits id test st (e ∷ es) s h = ground (arith, mark-waits id test st es s)

confirm_entry-waits :
    (id k : ℕ) (es : List Entry)
    → (k == id) ≡ false
    → any (confirmed_of id) es ≡ false
    → any
        (confirmed_of id)
        (map (λ e. if of_participant k e then record e { status = confirmed } else e) es)
      ≡ false
confirm_entry-waits id k [] s h = refl
confirm_entry-waits id k (e ∷ es) s h = ground (arith, confirm_entry-waits id k es s)

abbrev done : TeamHand → List Entry
done h = filter (λ (e : Entry). is_submitted e.status) h.entries

auto_promote-waits :
    (id : ℕ) (ps : List Participant) (h : TeamHand)
    → HandWaits id h
    → HandWaits id (auto_promote ps h)
unfolding auto_promote total_of
auto_promote-waits id ps h (a, b) =
    elim (Bool-cases
      (is_open h.status && all_have (λ _. true) ps (done h) && is_zero (total_of (done h)))) [
        | inl p ↦ rw p (refl, b)
        | inr p ↦ rw p (a, b)
      ]

promote_locked-waits :
    (id : ℕ) (ps : List Participant) (h : TeamHand)
    → any (has_id id) ps ≡ true
    → HandWaits id h
    → HandWaits id (promote_locked ps h)
unfolding promote_locked
promote_locked-waits id ps h i (a, b) = rw (all_have-none id ps h.entries i b) (a, b)

reopened-waits : (id : ℕ) (h : TeamHand) → HandWaits id h → HandWaits id (reopened h)
reopened-waits id h (a, b) = go h.status a
  where
    go :
        (st : TeamLedgerHandStatus)
        → is_locked st ≡ false
        → HandWaits id (reopened (record h { status = st }))
    go opened a = (refl, b)
    go confirming a = (refl, b)
    go locked a = cc
    go TeamLedgerHandStatus.disputed a = (refl, b)

-- A change of one hand that leaves it waiting leaves the room waiting.
at_hand-RoomWaits :
    (id n : ℕ) (f : TeamHand → TeamHand) (r : TeamRoom)
    → ((h : TeamHand) → HandWaits id h → HandWaits id (f h))
    → RoomWaits id r
    → RoomWaits id (record r { hands = at_hand n f r.hands })
at_hand-RoomWaits id n f r k (i, w) = (i, at_hand-AllWait id n f r.hands k w)

pub submit_entry-waits :
    (id : ℕ) (r : TeamRoom) (user n : ℕ) (amount : ℤ)
    → RoomWaits id r
    → Ensures (RoomWaits id) (submit_entry r user n amount)
unfolding submit_entry
submit_entry-waits id r user n amount w = Ensures-bind (room_hand r n) _ λ h e.
    Ensures-guard (is_locked h.status) hand_locked _ λ e1.
      Ensures-bind (or_throw (find (of_user user) r.participants) not_a_participant) _ λ p e2.
        good (
          at_hand-RoomWaits id n _ r
            (λ h (a, b). auto_promote-waits id (active_participants r) _ (
              reopened-waits id (with_entry p.id amount h)
                (a, upsert_entry-waits id p.id amount h.entries b)))
            w)

submit_entry_for_temp-waits :
    (id : ℕ) (r : TeamRoom) (user n k : ℕ) (amount : ℤ)
    → RoomWaits id r
    → Ensures (RoomWaits id) (submit_entry_for_temp r user n k amount)
unfolding submit_entry_for_temp
submit_entry_for_temp-waits id r user n k amount w = Ensures-bind (room_hand r n) _ λ h e.
    Ensures-guard (not (r.owner_user_id == user)) not_the_owner _ λ e1.
      Ensures-bind (or_throw (find (has_id k) r.participants) participant_not_found) _ λ p e2.
        Ensures-guard (has_account p) not_temporary _ λ e3. good (
          at_hand-RoomWaits id n _ r
            (λ h (a, b). (a, upsert_entry-waits id p.id amount h.entries b)) w)

request_confirm_hand-waits :
    (id : ℕ) (r : TeamRoom) (user n : ℕ)
    → RoomWaits id r
    → Ensures (RoomWaits id) (request_confirm_hand r user n)
unfolding request_confirm_hand
request_confirm_hand-waits id r user n w =
    Ensures-guard (not (r.owner_user_id == user)) not_the_owner _ λ e1.
      Ensures-bind (room_hand r n) _ λ h e.
        Ensures-guard (not (is_zero (total_of (balance_entries r h)))) not_balanced _ λ e2.
          Ensures-guard (not (all_have (λ _. true) (active_participants r) (balance_entries r h)))
            not_all_submitted _ λ e3. good (at_hand-RoomWaits id n _ r (λ h (a, b). (refl, b)) w)

confirm_hand_entry-waits :
    (id : ℕ) (r : TeamRoom) (user n : ℕ)
    → RoomWaits id r
    → Ensures (RoomWaits id) (confirm_hand_entry r user n)
unfolding confirm_hand_entry
confirm_hand_entry-waits id r user n ((i, o), w) = Ensures-bind (room_hand r n) _ λ h e.
    Ensures-guard (not (is_confirming h.status)) not_confirming _ λ e1.
      Ensures-bind (or_throw (find (of_user user) r.participants) not_a_participant) _ λ p e2.
        let other : has_id id p ≡ false =
          find-other id user r.participants p o
            (or_throw-eq-ok not_a_participant (find (of_user user) r.participants) e2) in
        good (
          at_hand-RoomWaits id n _ r
            (λ h (a, b).
              promote_locked-waits id (active_participants r)
                (mark (of_participant p.id) confirmed h) i
                (a, confirm_entry-waits id p.id h.entries other b))
            ((i, o), w))

dispute_hand_entry-waits :
    (id : ℕ) (r : TeamRoom) (user n : ℕ)
    → RoomWaits id r
    → Ensures (RoomWaits id) (dispute_hand_entry r user n)
unfolding dispute_hand_entry
dispute_hand_entry-waits id r user n w = Ensures-bind (room_hand r n) _ λ h e.
    Ensures-bind (or_throw (find (of_user user) r.participants) not_a_participant) _ λ p e2. good (
      at_hand-RoomWaits id n _ r
        (λ h (a, b). (
          refl,
          mark-waits id (of_participant p.id) TeamLedgerEntryStatus.disputed
              (mark (λ _. true) pending h).entries refl
              (mark-waits id (λ _. true) pending h.entries refl b),
        ))
        w)

create_next_hand-waits :
    (id : ℕ) (r : TeamRoom) (user : ℕ)
    → RoomWaits id r
    → Ensures (RoomWaits id) (create_next_hand r user)
unfolding create_next_hand
create_next_hand-waits id r user (i, w) =
    Ensures-guard (not (r.owner_user_id == user)) not_the_owner _ λ e1.
      Ensures-guard (not (is_room_active r.status)) not_active _ λ e2.
        Ensures-guard (not (last_is_locked r.hands)) hand_not_locked _ λ e3.
          Ensures-guard (any (has_no (r.current_hand_no + 1)) r.hands) hand_exists _
            λ e4. good (i, append-AllWait id (r.current_hand_no + 1) r.hands w)

start_room-waits :
    (id : ℕ) (r : TeamRoom) (user : ℕ) → RoomWaits id r → Ensures (RoomWaits id) (start_room r user)
unfolding start_room
start_room-waits id r user w =
    Ensures-guard (not (r.owner_user_id == user)) not_the_owner _ λ e1.
      Ensures-guard (ltb (length (active_participants r)) 2) too_few_participants _ λ e2. good w

end_room-waits :
    (id : ℕ) (r : TeamRoom) (user : ℕ) → RoomWaits id r → Ensures (RoomWaits id) (end_room r user)
unfolding end_room
end_room-waits id r user w =
    Ensures-guard (not (r.owner_user_id == user)) not_the_owner _ λ e1. good w

run_call-waits :
    (id : ℕ) (c : TeamCall) (r : TeamRoom) → RoomWaits id r → Ensures (RoomWaits id) (run_call c r)
unfolding run_call
run_call-waits id (TeamCall.start user) r w = start_room-waits id r user w
run_call-waits id (TeamCall.create_next user) r w = create_next_hand-waits id r user w
run_call-waits id (TeamCall.submit user n amount) r w = submit_entry-waits id r user n amount w
run_call-waits id (TeamCall.submit_for user n k amount) r w =
    submit_entry_for_temp-waits id r user n k amount w
run_call-waits id (TeamCall.request user n) r w = request_confirm_hand-waits id r user n w
run_call-waits id (TeamCall.confirm_entry user n) r w = confirm_hand_entry-waits id r user n w
run_call-waits id (TeamCall.dispute user n) r w = dispute_hand_entry-waits id r user n w
run_call-waits id (TeamCall.finish user) r w = end_room-waits id r user w

or_same-waits :
    (id : ℕ) (r : TeamRoom) (m : Result TeamLedgerError TeamRoom)
    → RoomWaits id r
    → Ensures (RoomWaits id) m
    → RoomWaits id (or_same r m)
or_same-waits id r (ok s) w (good h) = h
or_same-waits id r (err e) w failed = w

-- Where an active participant has an identifier that no participant with a user has, and no hand is
-- locked or has a confirmed amount of his, this stays so whatever calls on the hands of the room are made,
-- in any order: no hand is ever locked, since he has no one to confirm his amount.
pub run_calls-RoomWaits :
    (id : ℕ) (cs : List TeamCall) (r : TeamRoom) → RoomWaits id r → RoomWaits id (run_calls cs r)
unfolding run_calls
run_calls-RoomWaits id [] r w = w
run_calls-RoomWaits id (c ∷ cs) r w =
    run_calls-RoomWaits id cs (or_same r (run_call c r))
      (or_same-waits id r (run_call c r) w (run_call-waits id c r w))
