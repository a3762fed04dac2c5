-- ===== src/PracticeGame/Played.antt =====
-- playBotTurn of apps/api/src/practice-game/practice-game.service.ts: whose turn is played, and on what the
-- decision rests.
use Prim.Native.String.{String}
use text.Mathlib.TextPositions.{eq_refl}
use allinle.Prelude.{
  ℕ, suc, ◌+◌, ◌≤◌, ◌≡◌, ◌⊎◌, inl, inr, refl, true, List, [], ◌∷◌, Option, none, some,
  if◌then◌else◌, ltb, ltb_false→le, Result, arith, Bool-cases, ok, err, ◌>>=◌, Ensures, good,
  failed, Ensures-bind, Ensures-value,
}
use allinle.Cards.{Card}
use allinle.Types.{Player, GameState}
use allinle.Game.Legal.{LegalAction, get_legal_actions, player_actions}
use allinle.Game.Rounds.{ActionResult}
use allinle.Bot.{Double}
use allinle.Bot.Decision.{BotDecisionInput, decide_bot_action}
use allinle.PracticeGame.{Games, GameError, no_hole_cards, get_state}
use allinle.PracticeGame.Due.{Due, Due-offered, turn_of-Due}
use allinle.PracticeGame.Calls.{apply_seat_action}
use allinle.PracticeGame.Turns.{
  Counts, count_for, is_hand, bot_input, play_decision, turn_of, play_bot_turn,
}

-- What a bot is told: its own cards, what all see, and the actions that are open to it.
pub record Informed {ℓ} {F : Type ℓ} (state : GameState) (bot : Player) (input : BotDecisionInput F)
    : Type 0 where
  pub more_cards : List Card
  pub own_cards : bot.hole_cards ≡ input.first_card ∷ input.second_card ∷ more_cards
  pub board : input.board_cards ≡ state.board_cards
  pub pot : input.pot ≡ state.pot
  pub current_bet : input.current_bet ≡ state.current_bet
  pub invested : input.invested_this_street ≡ bot.invested_this_street
  pub chips : input.chips ≡ bot.chips
  pub min_raise : input.min_raise ≡ state.min_raise
  pub offered : input.legal_actions ≡ player_actions state bot

-- A turn that was played for a bot.
pub record Played {ℓ} (F : Type ℓ) ⦃d : Double F⦄ (s : Games) (code : String) (counts : Counts)
    (now : String) (r : Games × Counts) : Type ℓ where
  pub state : GameState
  pub bot : Player
  pub kept : get_state s.states code ≡ some state
  pub due : Due state bot
  pub counted : count_for (r.1) code state.hand_id ≡ suc (count_for counts code state.hand_id)
  pub within : count_for (r.1) code state.hand_id ≤ 300
  pub input : BotDecisionInput F
  pub informed : Informed state bot input
  pub result : ActionResult
  pub acted :
      apply_seat_action s code bot.seat_no
        (decide_bot_action input).action_type
        (decide_bot_action input).amount
        none
        now
      ≡ ok (r.0, result)

count_for-same :
    (counts : Counts) (code hand : String) (n : ℕ)
    → count_for (((code, hand), n) ∷ counts) code hand ≡ n
count_for-same counts code hand n =
    let same : is_hand code hand ((code, hand), n) ≡ true = rw (eq_refl code, eq_refl hand) refl in
    rw (count_for, same) refl

told {ℓ} :
    {F : Type ℓ} ⦃d : Double F⦄ (state : GameState) (bot : Player) (random : ℕ → F)
    → Due state bot
    → (a b : Card) (cs : List Card) → bot.hole_cards ≡ a ∷ b ∷ cs
    → Informed state bot (bot_input state bot a b random)
unfolding bot_input
told state bot random due a b cs own = record {
  more_cards = cs;
  own_cards = own;
  board = refl;
  pot = refl;
  current_bet = refl;
  invested = refl;
  chips = refl;
  min_raise = refl;
  offered = Due-offered state bot due;
}

module _ {ℓ} {F : Type ℓ} ⦃d : Double F⦄ (s : Games) (code : String) (counts : Counts)
    (random : ℕ → F) (now : String) where
  -- Nothing but the count may have changed, or a turn was played.
  abbrev Outcome : Games × Counts → Type ℓ
  Outcome r = (r.0 ≡ s) ⊎ Played F s code counts now r

  abbrev counted_in : GameState → Counts
  counted_in state = ((code, state.hand_id), count_for counts code state.hand_id + 1) ∷ counts

  module _ (state : GameState) (bot : Player) (kept : get_state s.states code ≡ some state)
      (due : Due state bot) (within : count_for counts code state.hand_id + 1 ≤ 300) where
    by_cards :
        (cs : List Card)
        → bot.hole_cards ≡ cs
        → Ensures
            (λ t. Played F s code counts now (t, counted_in state))
            (elim cs [
              | a ∷ b ∷ _ ↦
                  let decision = decide_bot_action (bot_input state bot a b random) in
                  apply_seat_action s code bot.seat_no decision.action_type decision.amount none now
                  >>= λ r. ok (r.0)
              | _ ↦ err no_hole_cards
            ])
    by_cards [] own = failed
    by_cards (a ∷ []) own = failed
    by_cards (a ∷ b ∷ cs) own =
        let input : BotDecisionInput F = bot_input state bot a b random in
        let decision = decide_bot_action input in
        let count =
          count_for-same counts code state.hand_id (count_for counts code state.hand_id + 1) in
        Ensures-bind
          (apply_seat_action s code bot.seat_no decision.action_type decision.amount none now) _
          λ r e. good (record {
            state = state;
            bot = bot;
            kept = kept;
            due = due;
            counted = omega (arith, count);
            within = omega (arith, count, within);
            input = input;
            informed = told state bot random due a b cs own;
            result = r.1;
            acted = e;
          })

    by_actions :
        (as' : List LegalAction)
        → as' ≡ player_actions state bot
        → Ensures
            (λ t. Played F s code counts now (t, counted_in state))
            (elim as' [
              | [] ↦ ok s
              | _ ∷ _ ↦ elim bot.hole_cards [
                | a ∷ b ∷ _ ↦
                    let decision = decide_bot_action (bot_input state bot a b random) in
                    apply_seat_action s code bot.seat_no decision.action_type decision.amount none
                      now
                    >>= λ r. ok (r.0)
                | _ ↦ err no_hole_cards
              ]
            ])
    unfolding player_actions
    by_actions [] e = cc
    by_actions (a ∷ as') e = by_cards bot.hole_cards refl

    by_decision :
        Ensures
          (λ t. Played F s code counts now (t, counted_in state))
          (play_decision s code state bot random now)
    unfolding play_decision
    by_decision = by_actions (get_legal_actions state bot.seat_no) (Due-offered state bot due)

  -- playBotTurn, given whose turn it is.
  abbrev turn_by : Option (GameState × Player) → Result GameError (Games × Counts)
  unfolding play_decision
  turn_by o = elim o [
    | none ↦ ok (s, counts)
    | some (state, bot) ↦
        let count = count_for counts code state.hand_id + 1 in
        let counted : Counts = ((code, state.hand_id), count) ∷ counts in
        if ltb 300 count
        then ok (s, counted)
        else (play_decision s code state bot random now >>= λ t. ok (t, counted))
  ]

  turn_by-Outcome :
      (o : Option (GameState × Player))
      → turn_of (get_state s.states code) ≡ o
      → Ensures Outcome (turn_by o)
  unfolding turn_by
  turn_by-Outcome none e = good (inl refl)
  turn_by-Outcome (some (state, bot)) e =
      elim (Bool-cases (ltb 300 (count_for counts code state.hand_id + 1))) [
        | inl b ↦ rw b (good (inl refl))
        | inr b ↦
            let (kept, due) = turn_of-Due (get_state s.states code) state bot e in
            rw b (
              Ensures-bind (play_decision s code state bot random now) _ λ t f. good (
                inr (
                  Ensures-value
                    (by_decision state bot kept due
                      (ltb_false→le 300 (count_for counts code state.hand_id + 1) b))
                    f)))
      ]

-- Where playBotTurn returns, either the rooms, the hands and the states are as they were, or the turn was
-- one of a bot who sits at the seat to act, is active, has chips and plays in a hand that is played; the
-- turns counted for the hand are one more, and at most 300; and the action that was applied to his seat,
-- without a user, is the decision made on his own two cards, the numbers that all see and the actions that
-- are open to him.
pub play_bot_turn-Outcome {ℓ} :
    {F : Type ℓ} ⦃d : Double F⦄ (s : Games) (code : String) (counts : Counts) (random : ℕ → F)
    (now : String) (t : Games) (later : Counts)
    → play_bot_turn s counts code random now ≡ ok (t, later)
    → (t ≡ s) ⊎ Played F s code counts now (t, later)
unfolding play_bot_turn
play_bot_turn-Outcome s code counts random now t later e =
    Ensures-value
      (turn_by-Outcome s code counts random now (turn_of (get_state s.states code)) refl) e
