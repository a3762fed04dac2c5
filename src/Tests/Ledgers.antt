-- ===== src/Tests/Ledgers.antt =====
-- The theorems on ledgers at concrete inputs: a game of two players, of whom one is a member.
use allinle.Prelude.{
  false, ℕ, ◌≡◌, ◌↔◌, refl, subst, true, not, ◌&&◌, List, [], ◌∷◌, none, some, length, any, map,
  every, ◌==◌, if◌then◌else◌, Bool-cases, inl, inr, arith, Result, ok, err,
}
use allinle.Prelude.Int.{ℤ, pos, negsuc, ◌+ℤ◌, ◌-ℤ◌}
use allinle.Teams.Members.{is_manager, add_member-joins}
use allinle.Teams.{
  TeamRole, TeamMember, active, active_member, add_member, assert_admin, upsert_member, is_member,
  has_key, ApiError, assert_member,
}
use allinle.Ledger.{
  LedgerGameStatus, ongoing, adjustment, LedgerGame, Ledgers, find_game, write_game,
  assert_game_access, add_transactions, recalculate_player, add_players, recalculated,
  recalculate_game, create_transaction, create_if_positive, add_player, add_transaction, promoted,
  confirm_game,
}
use allinle.Ledger.Totals.{Tallied, sum_ℤ}
use allinle.Ledger.Invariant.{
  AllTallied, start, player_added, transaction_added, game_confirmed, Steps-AllTallied,
}
use allinle.Ledger.Access.{MayUse, linked, confirms, assert_game_access_iff, confirm_game-status}

abbrev new_game : LedgerGame
new_game = record {
  id = 7;
  owner_user_id = 1;
  team_id = some 3;
  status = ongoing;
  total_buy_in = pos 0;
  total_cash_out = pos 0;
  total_profit = pos 0;
  players = [];
  confirmations = [];
}

abbrev before : Ledgers
before = record {
  games = new_game ∷ [];
  members = record { team_id = 3; user_id = 2; role = TeamRole.member; status = active } ∷ [];
  adjustment_logs = [];
}

abbrev or_before : Result ApiError Ledgers → Ledgers
or_before (ok s) = s
or_before (err e) = before

unfoldable joined : Ledgers
unfolding write_game assert_member assert_game_access add_transactions recalculate_player
    add_players recalculated recalculate_game create_transaction create_if_positive add_player ◌+ℤ◌
    ◌-ℤ◌
joined = or_before (add_player before 2 7 20 (some 2) "Ann" (some (pos 5000)) (some (pos 6500)))

unfoldable adjusted : Ledgers
unfolding joined add_transaction
adjusted = or_before (add_transaction joined 1 7 20 adjustment (negsuc 99) none)

unfoldable confirmed_game : Ledgers
unfolding joined adjusted confirm_game promoted
confirmed_game = or_before (confirm_game adjusted 2 7 none "now")

abbrev sums_of : List LedgerGame → List (ℤ × ℤ × ℤ × LedgerGameStatus)
sums_of gs = map (λ g. (g.total_buy_in, g.total_cash_out, g.total_profit, g.status)) gs

-- A profit of 15 less an adjustment of 1, and an entry in the risk log.
adjusted_run :
    (sums_of confirmed_game.games ≡ (pos 5000, pos 6500, pos 1400, LedgerGameStatus.confirmed) ∷ [])
    × (confirmed_game.adjustment_logs ≡ 7 ∷ [])
unfolding confirmed_game
adjusted_run = (refl, refl)

before_tallied : AllTallied before
unfolding sum_ℤ
before_tallied id g e = elim (Bool-cases (7 == id)) [
  | inl b ↦
      subst Tallied {x = new_game} (ground (arith, b))
        (record { buys = refl; cash = refl; profits = refl; each_profit = refl })
  | inr b ↦ ground arith
]

Steps-AllTallied_example : AllTallied confirmed_game
unfolding confirmed_game
Steps-AllTallied_example = Steps-AllTallied before confirmed_game before_tallied (
    game_confirmed 2 7 none "now"
      (transaction_added {t = joined} 1 7 20 adjustment (negsuc 99) none
        (player_added {t = before} 2 7 20 (some 2) "Ann" (some (pos 5000)) (some (pos 6500)) start
          refl)
        refl)
      refl)

assert_game_access_iff_example :
    (assert_game_access before 2 7 ≡ ok new_game)
    ↔ ((find_game 7 before.games ≡ some new_game) × MayUse before.members 2 new_game)
assert_game_access_iff_example = assert_game_access_iff before 2 7 new_game

abbrev game_of : Ledgers → LedgerGame
game_of s = elim s.games [ [] ↦ new_game | g ∷ _ ↦ g ]

confirm_game-status_example :
    (g : LedgerGame) × (find_game 7 adjusted.games ≡ some g)
    × ((game_of confirmed_game).status ≡ (
        if not (length (linked g) == 0) && every (confirms 2) (linked g)
        then LedgerGameStatus.confirmed
        else g.status))
unfolding confirmed_game
confirm_game-status_example =
    confirm_game-status adjusted 2 7 none "now" confirmed_game (game_of confirmed_game) refl refl

-- User 1 owns team 3, and adds user 4.
abbrev owners : List TeamMember
owners = active_member 3 1 TeamRole.owner ∷ []

abbrev joined_team : List TeamMember
joined_team = active_member 3 1 TeamRole.owner ∷ active_member 3 4 TeamRole.member ∷ []

add_member-joins_example :
    (any (is_manager 3 1) owners ≡ true)
    × (any (is_member 3 4) joined_team ≡ true)
    × ((t u : ℕ)
        → has_key t u (active_member 3 4 TeamRole.member) ≡ false
        → any (is_member t u) joined_team ≡ any (is_member t u) owners)
unfolding add_member assert_admin assert_member upsert_member
add_member-joins_example = add_member-joins owners joined_team 1 3 4 none refl
