-- ===== src/Game/Legal.antt =====
-- packages/shared/src/poker/actions.ts: the actions that a seat is offered.
use allinle.Prelude.{
  ℕ, ◌+◌, ◌-◌, min, Bool, false, ◌&&◌, List, [], ◌∷◌, map, Option, none, some, ltb, ◌==◌,
  if◌then◌else◌, find,
}
use allinle.Types.{Player, GameState, ActionType, fold, check, call, bet, raise, is_playing}
use allinle.Game.Seats.{at_seat, can_act}

pub record LegalAction : Type 0 where
  pub action_type : ActionType
  pub min_amount : Option ℕ
  pub max_amount : Option ℕ
  pub call_amount : Option ℕ

abbrev pub plain : ActionType → LegalAction
plain t = record { action_type = t; min_amount = none; max_amount = none; call_amount = none }

abbrev pub ranged : ActionType → ℕ → ℕ → LegalAction
ranged t lo hi = record {
  action_type = t;
  min_amount = some lo;
  max_amount = some hi;
  call_amount = none;
}

abbrev pub is_turn : Option ℕ → ℕ → Bool
is_turn none s = false
is_turn (some t) s = t == s

-- `investedThisStreet` above `currentBet` would make the call negative in the source, and 0 here.
unfoldable pub check_or_call : GameState → Player → LegalAction
check_or_call state p =
    if p.invested_this_street == state.current_bet then plain check else record (plain call) {
      call_amount = some (min p.chips (state.current_bet - p.invested_this_street));
    }

unfoldable pub bet_or_raise : GameState → Player → List LegalAction
bet_or_raise state p =
    if state.current_bet == 0
    then ranged bet (min state.big_blind p.chips) p.chips ∷ []
    else if ltb state.current_bet (p.invested_this_street + p.chips)
    then ranged raise (min (state.current_bet + state.min_raise) (p.invested_this_street + p.chips))
        (p.invested_this_street + p.chips)
      ∷ []
    else []

unfoldable pub player_actions : GameState → Player → List LegalAction
unfolding check_or_call bet_or_raise
player_actions state p =
    plain fold ∷ plain ActionType.all_in ∷ check_or_call state p ∷ bet_or_raise state p

unfoldable pub get_legal_actions : GameState → ℕ → List LegalAction
unfolding player_actions
get_legal_actions state seat = elim (find (at_seat seat) state.players) [
  | none ↦ []
  | some p ↦
      if is_playing state.status && is_turn state.current_turn_seat seat && can_act p
      then player_actions state p
      else []
]

unfoldable pub get_legal_action_types : GameState → ℕ → List ActionType
unfolding get_legal_actions
get_legal_action_types state seat = map (λ a. a.action_type) (get_legal_actions state seat)
