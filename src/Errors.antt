-- ===== src/Errors.antt =====
-- What packages/shared/src/poker throws: one constructor for each message.
use allinle.Prelude.{Result, Avoids}

pub data PokerError : Type 0 where
  invalid_card : PokerError
  not_enough_cards : PokerError
  not_seven_cards : PokerError
  missing_group : PokerError
  too_few_players : PokerError
  too_few_seats : PokerError
  seat_not_in_hand : PokerError
  hand_not_playable : PokerError
  not_your_turn : PokerError
  identity_mismatch : PokerError
  player_cannot_act : PokerError
  cannot_check : PokerError
  nothing_to_call : PokerError
  bet_already_exists : PokerError
  bet_exceeds_chips : PokerError
  no_bet_to_raise : PokerError
  raise_not_greater : PokerError
  raise_exceeds_chips : PokerError
  raise_below_minimum : PokerError
  no_chips_for_all_in : PokerError
  invalid_chip_amount : PokerError
  amount_not_positive : PokerError
  -- The recursion of `normalizeAfterAction` did not end within its fuel.
  out_of_fuel : PokerError

-- The result did not run out of fuel.
abbrev pub Stops {ℓ} : {A : Type ℓ} → Result PokerError A → Type ℓ
Stops m = Avoids out_of_fuel m
