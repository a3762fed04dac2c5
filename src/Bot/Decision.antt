-- ===== src/Bot/Decision.antt =====
-- bot-strategy.ts: what a bot does with its cards and the actions that it is offered. The reasons,
-- which are texts for the log, are left out.
use allinle.Prelude.{
  ℕ, suc, zero, ◌+◌, ◌-◌, max, Bool, true, false, ◌&&◌, ◌||◌, not, List, Option, none, some, find,
  leb, ltb, if◌then◌else◌,
}
use allinle.Prelude.Int.{ℤ, pos, ltb_ℤ}
use allinle.Cards.{Card}
use allinle.Types.{ActionType, Street, preflop}
use allinle.Game.Legal.{LegalAction}
use allinle.Game.Bets.{Amount, missing, integer, Choice}
use allinle.PracticeRoom.{BotLevel, beginner, advanced}
use allinle.Bot.{Double}
use allinle.Bot.Strength.{preflop_strength, postflop_strength, within_one}

pub data PositionType : Type 0 where
  early middle late blinds : PositionType

-- A bot has two hole cards. `random` has the random numbers in the order in which they are drawn.
pub record BotDecisionInput {ℓ} (F : Type ℓ) : Type ℓ where
  pub bot_level : BotLevel
  pub first_card : Card
  pub second_card : Card
  pub board_cards : List Card
  pub street : Street
  pub pot : ℕ
  pub current_bet : ℕ
  pub invested_this_street : ℕ
  pub chips : ℕ
  pub min_raise : ℕ
  pub position_type : PositionType
  pub active_player_count : ℕ
  pub legal_actions : List LegalAction
  pub random : ℕ → F

pub record BotDecision : Type 0 where
  pub action_type : Choice
  pub amount : Amount

abbrev pub plainly : Choice → BotDecision
plainly c = record { action_type = c; amount = missing }

pub record Profile {ℓ} (F : Type ℓ) : Type ℓ where
  pub raise_strong : F
  pub bet_strong : F
  pub call_threshold : F
  pub curiosity : F
  pub raise_frequency : F
  pub bet_frequency : F
  pub bluff_frequency : F
  pub position_bonus : F
  pub multiway_penalty : F

abbrev pub has_type : ActionType → LegalAction → Bool
has_type ActionType.fold a = elim a.action_type [ ActionType.fold ↦ true | _ ↦ false ]
has_type ActionType.check a = elim a.action_type [ ActionType.check ↦ true | _ ↦ false ]
has_type ActionType.call a = elim a.action_type [ ActionType.call ↦ true | _ ↦ false ]
has_type ActionType.bet a = elim a.action_type [ ActionType.bet ↦ true | _ ↦ false ]
has_type ActionType.raise a = elim a.action_type [ ActionType.raise ↦ true | _ ↦ false ]
has_type ActionType.all_in a = elim a.action_type [ ActionType.all_in ↦ true | _ ↦ false ]
has_type _ a = false

unfoldable pub find_action : List LegalAction → ActionType → Option LegalAction
find_action actions t = find (has_type t) actions

abbrev pub is_some : Option LegalAction → Bool
is_some none = false
is_some (some a) = true

unfoldable pub fallback : List LegalAction → BotDecision
unfolding find_action
fallback actions =
    if is_some (find_action actions ActionType.check)
    then plainly Choice.check
    else if is_some (find_action actions ActionType.fold)
    then plainly Choice.fold
    else if is_some (find_action actions ActionType.call)
    then plainly Choice.call
    else if is_some (find_action actions ActionType.all_in)
    then plainly Choice.all_in
    else plainly Choice.fold

-- `n || d`: 0 counts as absent.
abbrev pub or_number : Option ℕ → ℕ → ℕ
or_number none d = d
or_number (some zero) d = d
or_number (some (suc n)) d = suc n

-- `Math.max(lo, Math.min(hi, target))`
abbrev pub greatest_ℤ : ℤ → ℤ → ℤ
greatest_ℤ a b = if ltb_ℤ a b then b else a

abbrev pub least_ℤ : ℤ → ℤ → ℤ
least_ℤ a b = if ltb_ℤ b a then b else a

unfoldable pub clip : ℕ → ℕ → ℤ → ℤ
clip lo hi target = greatest_ℤ (pos lo) (least_ℤ (pos hi) target)

abbrev pub sized : Choice → ℤ → BotDecision
sized c n = record { action_type = c; amount = integer n }

-- A try that is worth a random number, the next one, and the number of those drawn after it.
abbrev pub drawn : Bool → ℕ → ℕ
drawn tried i = if tried then suc i else i

abbrev pub or_else : Bool → Option BotDecision → BotDecision → BotDecision
or_else true (some decision) rest = decision
or_else _ _ rest = rest

module _ {ℓ} {F : Type ℓ} ⦃d : Double F⦄ where
  unfoldable pub profile_for : BotLevel → Profile F
  profile_for beginner = record {
    raise_strong = d.over 78 100;
    bet_strong = d.over 6 10;
    call_threshold = d.over 25 100;
    curiosity = d.over 16 100;
    raise_frequency = d.over 5 10;
    bet_frequency = d.over 45 100;
    bluff_frequency = d.over 3 100;
    position_bonus = d.over 2 100;
    multiway_penalty = d.over 2 100;
  }
  profile_for BotLevel.normal = record {
    raise_strong = d.over 68 100;
    bet_strong = d.over 52 100;
    call_threshold = d.over 2 10;
    curiosity = d.over 6 100;
    raise_frequency = d.over 72 100;
    bet_frequency = d.over 62 100;
    bluff_frequency = d.over 7 100;
    position_bonus = d.over 6 100;
    multiway_penalty = d.over 35 1000;
  }
  profile_for advanced = record {
    raise_strong = d.over 6 10;
    bet_strong = d.over 46 100;
    call_threshold = d.over 16 100;
    curiosity = d.over 2 100;
    raise_frequency = d.over 82 100;
    bet_frequency = d.over 7 10;
    bluff_frequency = d.over 1 10;
    position_bonus = d.over 9 100;
    multiway_penalty = d.over 45 1000;
  }

  -- `a >= b`, of numbers.
  abbrev pub at_least : F → F → Bool
  at_least a b = not (d.less a b)

  abbrev pub bet_target : BotDecisionInput F → F → ℤ
  bet_target input strength =
      let part = if d.less (d.over 7 10) strength then d.over 65 100 else d.over 45 100 in
      d.round (d.greatest (d.of input.min_raise) (d.times (d.of input.pot) part))

  unfoldable pub choose_bet_amount : LegalAction → BotDecisionInput F → F → ℤ
  unfolding clip
  choose_bet_amount action input strength =
      clip (or_number action.min_amount 1) (or_number action.max_amount input.chips)
        (bet_target input strength)

  abbrev pub raise_target : BotDecisionInput F → F → ℤ
  raise_target input strength =
      let part = if d.less (d.over 8 10) strength then d.over 8 10 else d.over 55 100 in
      d.round (
        d.plus (d.of input.current_bet)
          (d.greatest (d.of input.min_raise) (d.times (d.of input.pot) part)))

  unfoldable pub choose_raise_amount : LegalAction → BotDecisionInput F → F → ℤ
  unfolding clip
  choose_raise_amount action input strength =
      clip (or_number action.min_amount (input.current_bet + input.min_raise))
        (or_number action.max_amount (input.invested_this_street + input.chips))
        (raise_target input strength)

  abbrev pub strength_of : BotDecisionInput F → F
  strength_of input = elim input.street [
    | preflop ↦ preflop_strength input.first_card input.second_card
    | _ ↦ postflop_strength input.first_card input.second_card input.board_cards
  ]

  abbrev pub late_bonus : PositionType → F → F
  late_bonus late bonus = bonus
  late_bonus _ bonus = d.of 0

  unfoldable pub adjusted_strength : BotDecisionInput F → F
  unfolding preflop_strength postflop_strength profile_for
  adjusted_strength input =
      let profile = profile_for input.bot_level in
      within_one (
        d.minus (d.plus (strength_of input) (late_bonus input.position_type profile.position_bonus))
          (d.times (d.of (input.active_player_count - 2)) profile.multiway_penalty))

  abbrev pub pressure_of : Option LegalAction → ℕ → F
  pressure_of none pot = d.of 0
  pressure_of (some a) pot = elim a.call_amount [
    | none ↦ d.of 0
    | some zero ↦ d.of 0
    | some (suc n) ↦ d.divided (d.of (suc n)) (d.of (max 1 (pot + suc n)))
  ]

  -- Without an aggressive action: a call, a fold, a check.
  unfoldable pub decide_passively : BotDecisionInput F → F → BotDecision
  unfolding find_action fallback profile_for
  decide_passively input strength =
      let profile = profile_for input.bot_level in
      let calls = find_action input.legal_actions ActionType.call in
      if ltb input.invested_this_street input.current_bet && is_some calls
      then (if at_least (d.plus strength profile.curiosity)
            (d.plus (pressure_of calls input.pot) profile.call_threshold)
          then plainly Choice.call
          else if is_some (find_action input.legal_actions ActionType.all_in)
              && d.less (d.over 86 100) strength
              && leb input.chips input.pot
          then plainly Choice.all_in
          else if is_some (find_action input.legal_actions ActionType.fold)
          then plainly Choice.fold
          else fallback input.legal_actions)
      else if is_some (find_action input.legal_actions ActionType.check)
      then plainly Choice.check
      else if is_some calls
      then plainly Choice.call
      else fallback input.legal_actions

  -- The bluff: a bet if one is offered, or else a raise.
  unfoldable pub bluff :
      Option LegalAction → Option LegalAction → BotDecisionInput F → Option BotDecision
  unfolding choose_bet_amount
  bluff (some a) raises input = some (sized Choice.bet (choose_bet_amount a input (d.over 4 10)))
  bluff none (some a) input = some (sized Choice.raise (choose_bet_amount a input (d.over 4 10)))
  bluff none none input = none

  unfoldable pub value_raise : Option LegalAction → BotDecisionInput F → F → Option BotDecision
  unfolding choose_raise_amount
  value_raise none input strength = none
  value_raise (some a) input strength =
      some (sized Choice.raise (choose_raise_amount a input strength))

  unfoldable pub value_bet : Option LegalAction → BotDecisionInput F → F → Option BotDecision
  unfolding choose_bet_amount
  value_bet none input strength = none
  value_bet (some a) input strength = some (sized Choice.bet (choose_bet_amount a input strength))

  unfoldable pub decide_bot_action : BotDecisionInput F → BotDecision
  unfolding find_action adjusted_strength profile_for decide_passively bluff value_raise value_bet
  decide_bot_action input =
      let strength = adjusted_strength input in
      let profile = profile_for input.bot_level in
      let raises = find_action input.legal_actions ActionType.raise in
      let bets = find_action input.legal_actions ActionType.bet in
      let raise_tried = is_some raises && at_least strength profile.raise_strong in
      let bet_tried = is_some bets && at_least strength profile.bet_strong in
      let bluff_tried = (is_some bets || is_some raises) && d.less strength (d.over 35 100) in
      let second = drawn raise_tried 0 in
      let third = drawn bet_tried second in
      or_else (raise_tried && d.less (input.random 0) profile.raise_frequency)
        (value_raise raises input strength)
        (or_else (bet_tried && d.less (input.random second) profile.bet_frequency)
          (value_bet bets input strength)
          (or_else (bluff_tried && d.less (input.random third) profile.bluff_frequency)
            (bluff bets raises input) (decide_passively input strength)))
