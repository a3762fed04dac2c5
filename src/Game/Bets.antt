-- ===== src/Game/Bets.antt =====
-- The betting actions of state-machine.ts: chips into the pot, and one player's action.
pub mod Kept
pub mod Accepts
use Prim.Native.String.{String}
use allinle.Prelude.{
  ℕ, zero, suc, ◌+◌, ◌-◌, min, max, Bool, true, false, ◌&&◌, ◌||◌, not, List, [], ◌∷◌, map, Option,
  none, some, ltb, leb, ◌==◌, if◌then◌else◌, Result, ok, err, throw_if, ◌>>=◌, ◌>>◌,
}
use allinle.Prelude.Int.{ℤ, pos, negsuc}
use allinle.Errors.{
  PokerError, cannot_check, nothing_to_call, bet_already_exists, bet_exceeds_chips, no_bet_to_raise,
  raise_not_greater, raise_exceeds_chips, raise_below_minimum, no_chips_for_all_in,
  invalid_chip_amount, amount_not_positive,
}
use allinle.Types.{
  Player, GameState, GameAction, PlayerStatus, ActionType, Street, is_active, folded,
}
use allinle.Game.Seats.{find_player, update_player, total_invested, can_act}

-- `amount?: number`: absent, a number that is no integer, or an integer.
pub data Amount : Type 0 where
  missing : Amount
  fractional : Amount
  integer : ℤ → Amount

pub data Choice : Type 0 where
  fold check call bet raise all_in : Choice

pub record ActionInput : Type 0 where
  pub seat_no : ℕ
  pub user_id : Option String
  pub action_type : Choice
  pub amount : Amount

unfoldable pub normalize_positive_amount : Amount → Result PokerError ℕ
normalize_positive_amount missing = err amount_not_positive
normalize_positive_amount fractional = err amount_not_positive
normalize_positive_amount (integer (negsuc n)) = err amount_not_positive
normalize_positive_amount (integer (pos zero)) = err amount_not_positive
normalize_positive_amount (integer (pos (suc n))) = ok (suc n)

unfoldable pub make_action : Player → ActionType → ℕ → Street → String → GameAction
make_action p t amount street now = record {
  seat_no = p.seat_no;
  user_id = p.user_id;
  action_type = t;
  amount = amount;
  street = street;
  created_at = now;
}

-- The chips of an amount, moved from the hand to the pot.
unfoldable pub invested : Player → ℕ → Player
invested p amount = record p {
  chips = p.chips - amount;
  invested_this_street = p.invested_this_street + amount;
  invested_this_hand = p.invested_this_hand + amount;
  status = if (p.chips == amount) && is_active p.status then PlayerStatus.all_in else p.status;
}

unfoldable pub invest_chips : Player → ℕ → Result PokerError Player
unfolding invested
invest_chips p amount = do throw_if (ltb p.chips amount) invalid_chip_amount; ok (invested p amount)

-- The player object of the state, written back.
unfoldable pub put_player : GameState → Player → GameState
put_player state p = record state { players = update_player p.seat_no (λ _. p) state.players }

unfoldable pub clear_acted : Player → Player
clear_acted p = if can_act p then record p { has_acted_this_street = false } else p

abbrev pub acted : Player → Player
acted p = record p { has_acted_this_street = true }

unfoldable pub mark_full_aggression : GameState → ℕ → Result PokerError GameState
mark_full_aggression state actor = do
  let cleared = map clear_acted state.players
  _ ← find_player cleared actor
  ok (record state {
    players = update_player actor acted cleared;
    last_aggressor_seat = some actor;
  })

unfoldable pub refresh_pot : GameState → GameState
refresh_pot state = record state { pot = total_invested state.players }

abbrev pub Acted : Type 0
Acted = Result PokerError (GameState × GameAction)

unfoldable pub apply_fold : GameState → Player → String → Acted
apply_fold state p now =
    let p' = record p { status = folded; has_acted_this_street = true } in
    ok (put_player state p', make_action p' ActionType.fold 0 state.street now)

unfoldable pub apply_check : GameState → Player → String → Acted
apply_check state p now = do
  throw_if (not (p.invested_this_street == state.current_bet)) cannot_check
  ok (put_player state (acted p), make_action p ActionType.check 0 state.street now)

unfoldable pub apply_call : GameState → Player → String → Acted
apply_call state p now = do
  throw_if (leb state.current_bet p.invested_this_street) nothing_to_call
  let amount = min p.chips (state.current_bet - p.invested_this_street)
  p' ← invest_chips p amount
  ok (
    refresh_pot (put_player state (acted p')),
    make_action p' ActionType.call amount state.street now,
  )

unfoldable pub apply_bet : GameState → Player → Amount → String → Acted
apply_bet state p input now = do
  amount ← normalize_positive_amount input
  throw_if (not (state.current_bet == 0)) bet_already_exists
  throw_if (ltb p.chips amount) bet_exceeds_chips
  p' ← invest_chips p amount
  marked ←
      mark_full_aggression
        (record (put_player state p') { current_bet = p'.invested_this_street; min_raise = amount })
        p'.seat_no
  ok (refresh_pot marked, make_action p' ActionType.bet amount state.street now)

-- Either a full raise, which reopens the betting, or a short one, which does not.
unfoldable pub settle_aggression : GameState → Player → Bool → ℕ → Result PokerError GameState
settle_aggression state p true min_raise =
    mark_full_aggression (record (put_player state p) { min_raise = min_raise }) p.seat_no
settle_aggression state p false min_raise = ok (put_player state (acted p))

unfoldable pub apply_raise : GameState → Player → Amount → String → Acted
apply_raise state p input now = do
  throw_if (state.current_bet == 0) no_bet_to_raise
  raise_to ← normalize_positive_amount input
  throw_if (leb raise_to state.current_bet) raise_not_greater
  throw_if (ltb (p.invested_this_street + p.chips) raise_to) raise_exceeds_chips
  let raise_size = raise_to - state.current_bet
  let additional = raise_to - p.invested_this_street
  throw_if (ltb raise_size state.min_raise && not (additional == p.chips)) raise_below_minimum
  throw_if (ltb raise_to p.invested_this_street) invalid_chip_amount
  p' ← invest_chips p additional
  settled ←
      settle_aggression (record state { current_bet = raise_to }) p'
        (leb state.min_raise raise_size) raise_size
  ok (refresh_pot settled, make_action p' ActionType.raise additional state.street now)

unfoldable pub apply_all_in : GameState → Player → String → Acted
apply_all_in state p now = do
  let amount = p.chips
  throw_if (amount == 0) no_chips_for_all_in
  let total = p.invested_this_street + amount
  let raise_size = total - state.current_bet
  p' ← invest_chips p amount
  settled ←
      if ltb state.current_bet total
      then settle_aggression (record state { current_bet = total }) p'
          ((total == amount) || leb state.min_raise raise_size) (max state.min_raise raise_size)
      else ok (put_player state (acted p'))
  ok (refresh_pot settled, make_action p' ActionType.all_in amount state.street now)

unfoldable pub apply_action_mutation : GameState → Player → ActionInput → String → Acted
apply_action_mutation state p input now = elim input.action_type [
  | fold ↦ apply_fold state p now
  | check ↦ apply_check state p now
  | call ↦ apply_call state p now
  | bet ↦ apply_bet state p input.amount now
  | raise ↦ apply_raise state p input.amount now
  | all_in ↦ apply_all_in state p now
]
