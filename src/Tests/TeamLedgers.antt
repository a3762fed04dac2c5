-- ===== src/Tests/TeamLedgers.antt =====
-- Runs of the team ledger: a game with a temporary participant, one without, and a settlement.
use allinle.Prelude.{◌≡◌, refl, ℕ, true, Option, none, some, List, [], ◌∷◌, map, arith}
use allinle.Prelude.Int.{ℤ, pos, negsuc, ◌+ℤ◌, ◌-ℤ◌, ltb_ℤ}
use allinle.TeamLedger.{
  is_zero, Participant, TeamHand, TeamRoom, TeamLedgerHandStatus, TeamCall, waiting, locked,
  confirming, start, create_next, submit, submit_for, request, confirm_entry, run_calls,
}
use allinle.TeamLedger.{
  upsert_entry, total_of, auto_promote, promote_locked, room_hand, submit_entry,
  submit_entry_for_temp, balance_entries, request_confirm_hand, confirm_hand_entry, last_is_locked,
  create_next_hand, start_room, run_call, run_calls,
}
use allinle.TeamLedger.Temps.{RoomWaits, run_calls-RoomWaits}
use allinle.TeamLedger.Settlement.{Numbers, Suggestion, generate_settlement, settle_from}
use allinle.TeamLedger.Exact.{WholeNet, Payment, paid, received}
use allinle.TeamLedger.Settled.{IsExact, lesser, whole_net, suggested, generate_settlement-settled}

abbrev seated : ℕ → Option ℕ → Participant
seated id user = record { id = id; user_id = user; seat_no = id; is_active = true }

abbrev game : List Participant → TeamRoom
game ps = record {
  owner_user_id = 7;
  status = waiting;
  current_hand_no = 0;
  participants = ps;
  hands = [];
}

abbrev with_temp : TeamRoom
with_temp = game (seated 1 (some 7) ∷ seated 2 none ∷ [])

abbrev without_temp : TeamRoom
without_temp = game (seated 1 (some 7) ∷ seated 2 (some 8) ∷ [])

abbrev entered_for : List TeamCall
entered_for =
    start 7
    ∷ create_next 7
    ∷ submit 7 1 (pos 10)
    ∷ submit_for 7 1 2 (negsuc 9)
    ∷ request 7 1
    ∷ confirm_entry 7 1
    ∷ []

abbrev both_confirm : List TeamCall
both_confirm =
    start 7
    ∷ create_next 7
    ∷ submit 7 1 (pos 10)
    ∷ submit 8 1 (negsuc 9)
    ∷ confirm_entry 7 1
    ∷ confirm_entry 8 1
    ∷ []

abbrev statuses : List TeamCall → TeamRoom → List TeamLedgerHandStatus
statuses cs r = map (λ (h : TeamHand). h.status) (run_calls cs r).hands

-- The hand of the temporary participant is balanced and confirmed by everyone who can confirm it.
temp_runs : statuses entered_for with_temp ≡ confirming ∷ []
unfolding run_calls run_call start_room create_next_hand submit_entry submit_entry_for_temp
    request_confirm_hand confirm_hand_entry room_hand last_is_locked upsert_entry total_of
    auto_promote promote_locked balance_entries ◌+ℤ◌
temp_runs = refl

user_runs : statuses both_confirm without_temp ≡ locked ∷ []
unfolding run_calls run_call start_room create_next_hand submit_entry confirm_hand_entry room_hand
    last_is_locked upsert_entry total_of auto_promote promote_locked ◌+ℤ◌
user_runs = refl

run_calls-RoomWaits_example : RoomWaits 2 (run_calls entered_for with_temp)
run_calls-RoomWaits_example = run_calls-RoomWaits 2 entered_for with_temp ((refl, refl), tt)

-- Integers as numbers whose arithmetic is exact.
instance abbrev integers : Numbers ℤ
integers = record {
  nought = pos 0;
  plus = λ a b. a +ℤ b;
  minus = λ a b. a -ℤ b;
  negate = λ a. pos 0 -ℤ a;
  least = λ a b. lesser a b;
  less = ltb_ℤ;
  is_zero = is_zero;
}

abbrev integers_exact : IsExact ℤ 100
integers_exact = record {
  of = λ a. a;
  nought_of = refl;
  plus_of = λ a b _ _ _. refl;
  minus_of = λ a b _ _ _. refl;
  negate_of = λ a _. refl;
  least_of = λ a b _ _. refl;
  less_of = λ a b _ _. refl;
  is_zero_of = λ a _. refl;
}

abbrev nets : List WholeNet
nets =
    record { id = 1; amount = pos 50 }
    ∷ record { id = 2; amount = negsuc 29 }
    ∷ record { id = 3; amount = negsuc 19 }
    ∷ record { id = 4; amount = pos 0 }
    ∷ []

settlement_runs :
    map
      (λ (s : Suggestion ℤ). s.amount)
      (generate_settlement (map (λ (m : WholeNet). record { id = m.id; amount = m.amount }) nets))
    ≡ pos 30 ∷ pos 20 ∷ []
unfolding generate_settlement settle_from ◌+ℤ◌ ◌-ℤ◌
settlement_runs = refl

generate_settlement-settled_example :
    (out : List Payment) × (generate_settlement (map (whole_net 100 integers_exact) nets)
      ≡ map (suggested 100 integers_exact) out)
    × (paid 2 out ≡ 30)
    × (received 2 out ≡ 0)
generate_settlement-settled_example =
    generate_settlement-settled 100 integers_exact 2 nets
      (omega arith, (omega arith, (omega arith, (omega arith, tt)))) refl
