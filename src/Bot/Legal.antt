-- ===== src/Bot/Legal.antt =====
-- The decisions of a bot, against the actions that it is offered.
use Prim.Native.String.{String}
use allinle.Prelude.{
  ℕ, suc, zero, ◌+◌, ◌≤◌, ◌<◌, min, max, ◌≡◌, refl, inl, inr, Bool, true, false, ◌&&◌, List, Option,
  none, some, leb, ltb, ◌==◌, if◌then◌else◌, arith, Bool-cases, subst, sym, ap, ◌∙◌,
}
use allinle.Prelude.Int.{ℤ, pos, negsuc}
use allinle.Types.{Player, GameState, ActionType}
use allinle.Game.Legal.{LegalAction, check_or_call, bet_or_raise, player_actions}
use allinle.Game.Bets.{Choice, apply_action_mutation}
use allinle.Game.Bets.Accepts.{Offers, MayAct, type_of, Accepted, offered-Accepted}
use allinle.Bot.{Double}
use allinle.Bot.Decision.{
  BotDecision, BotDecisionInput, plainly, sized, find_action, is_some, fallback, or_number, clip,
  choose_bet_amount, choose_raise_amount, decide_passively, bluff, value_raise, value_bet,
  bet_target, raise_target, or_else, decide_bot_action,
}

-- Kinds of actions that need no amount.
pub data NeedsNoAmount : Choice → Type 0 where
  fold : NeedsNoAmount Choice.fold
  check : NeedsNoAmount Choice.check
  call : NeedsNoAmount Choice.call
  all_in : NeedsNoAmount Choice.all_in

-- A decision for an action that is offered, with an amount in its range if it needs one.
pub data OnOffer (actions : List LegalAction) : BotDecision → Type 0 where
  without :
      {c : Choice} → NeedsNoAmount c → Offers actions (type_of c) 0 → OnOffer actions (plainly c)
  with_amount :
      {c : Choice} (n : ℕ) → Offers actions (type_of c) n → OnOffer actions (sized c (pos n))

-- Between two bounds, whatever is aimed at.
clip-between :
    (lo hi : ℕ) (target : ℤ) → lo ≤ hi → (n : ℕ) × (clip lo hi target ≡ pos n) × (lo ≤ n) × (n ≤ hi)
unfolding clip
clip-between lo hi (pos t) h = (max lo (min hi t), ground arith, omega arith, omega arith)
clip-between lo hi (negsuc t) h = (lo, ground arith, omega arith, omega arith)

module _ (s : GameState) (p : Player) where
  plain-Offers :
      (c : Choice)
      → NeedsNoAmount c
      → is_some (find_action (player_actions s p) (type_of c)) ≡ true
      → Offers (player_actions s p) (type_of c) 0
  unfolding find_action player_actions check_or_call bet_or_raise
  plain-Offers Choice.fold k h = inl (refl, tt)
  plain-Offers Choice.all_in k h = inr (inl (refl, tt))
  plain-Offers Choice.check k h = ground arith
  plain-Offers Choice.call k h = ground arith
  plain-Offers Choice.bet k h = elim k [ ]
  plain-Offers Choice.raise k h = elim k [ ]

  -- An offer of a kind with this range.
  record OffersRange (c : Choice) (a : LegalAction) : Type 0 where
    lo : ℕ
    hi : ℕ
    has_min : a.min_amount ≡ some lo
    has_max : a.max_amount ≡ some hi
    positive : 0 < lo
    between : lo ≤ hi
    offers : (n : ℕ) → lo ≤ n → n ≤ hi → Offers (player_actions s p) (type_of c) n

  module _ (may : MayAct s p) where
    bet-OffersRange :
        (a : LegalAction)
        → find_action (player_actions s p) ActionType.bet ≡ some a
        → OffersRange Choice.bet a
    unfolding find_action player_actions check_or_call bet_or_raise
    bet-OffersRange a e = elim (Bool-cases (s.current_bet == 0)) [
      | inl b ↦ record {
        lo = min s.big_blind p.chips;
        hi = p.chips;
        has_min = ground arith;
        has_max = ground arith;
        positive = omega (arith, may.has_chips, may.blind_positive);
        between = omega arith;
        offers = λ n l h. ground arith;
      }
      | inr b ↦ absurd (ground arith)
    ]

    raise-OffersRange :
        (a : LegalAction)
        → find_action (player_actions s p) ActionType.raise ≡ some a
        → OffersRange Choice.raise a
    unfolding find_action player_actions check_or_call bet_or_raise
    raise-OffersRange a e =
        elim (Bool-cases (ltb s.current_bet (p.invested_this_street + p.chips))) [
          | inl b ↦ record {
            lo = min (s.current_bet + s.min_raise) (p.invested_this_street + p.chips);
            hi = p.invested_this_street + p.chips;
            has_min = ground arith;
            has_max = ground arith;
            positive = omega (arith, may.has_chips, may.raise_positive);
            between = omega arith;
            offers = λ n l h. ground arith;
          }
          | inr b ↦ absurd (ground arith)
        ]

  or_number-some : (o : Option ℕ) (n e : ℕ) → o ≡ some n → 0 < n → or_number o e ≡ n
  or_number-some none n e h k = cc
  or_number-some (some zero) n e h k = absurd (ground arith)
  or_number-some (some (suc m)) n e h k = ground arith

  clip-OnOffer :
      (c : Choice) (a : LegalAction) (low high : ℕ) (target : ℤ)
      → OffersRange c a
      → OnOffer
          (player_actions s p)
          (sized c (clip (or_number a.min_amount low) (or_number a.max_amount high) target))
  clip-OnOffer c a low high target o =
      let (n, e, l, h) = clip-between o.lo o.hi target o.between in
      subst (λ amount. OnOffer (player_actions s p) (sized c amount))
        (sym (
          ap (λ m. clip m (or_number a.max_amount high) target)
            (or_number-some a.min_amount o.lo low o.has_min o.positive)
          ∙ ap (λ m. clip o.lo m target)
              (or_number-some a.max_amount o.hi high o.has_max
                (omega (arith, o.positive, o.between)))
          ∙ e))
        (with_amount n (o.offers n l h))

  -- An action that is there is on offer.
  if_there-OnOffer :
      (c : Choice) (rest : BotDecision)
      → NeedsNoAmount c
      → OnOffer (player_actions s p) rest
      → OnOffer
          (player_actions s p)
          (if is_some (find_action (player_actions s p) (type_of c)) then plainly c else rest)
  if_there-OnOffer c rest k h =
      elim (Bool-cases (is_some (find_action (player_actions s p) (type_of c)))) [
        | inl e ↦ rw e (without k (plain-Offers c k e))
        | inr e ↦ rw e h
      ]

  fallback-OnOffer : OnOffer (player_actions s p) (fallback (player_actions s p))
  unfolding fallback find_action player_actions
  fallback-OnOffer = if_there-OnOffer Choice.check _ check (
      if_there-OnOffer Choice.fold _ fold (
        if_there-OnOffer Choice.call _ call (
          if_there-OnOffer Choice.all_in _ all_in
            (without fold (plain-Offers Choice.fold fold is_there)))))
    where
      is_there : is_some (find_action (player_actions s p) ActionType.fold) ≡ true
      is_there = refl

  OnOffer-if :
      (b : Bool) (x y : BotDecision)
      → (b ≡ true → OnOffer (player_actions s p) x)
      → OnOffer (player_actions s p) y
      → OnOffer (player_actions s p) (if b then x else y)
  OnOffer-if true x y h k = h refl
  OnOffer-if false x y h k = k

  OnOffer-or_else :
      (b : Bool) (o : Option BotDecision) (rest : BotDecision)
      → ((x : BotDecision) → o ≡ some x → OnOffer (player_actions s p) x)
      → OnOffer (player_actions s p) rest
      → OnOffer (player_actions s p) (or_else b o rest)
  OnOffer-or_else true (some x) rest h k = h x refl
  OnOffer-or_else true none rest h k = k
  OnOffer-or_else false none rest h k = k
  OnOffer-or_else false (some x) rest h k = k

  and_left : (a b : Bool) → (a && b) ≡ true → a ≡ true
  and_left true b h = refl
  and_left false b h = cc

  and_right : (a b : Bool) → (a && b) ≡ true → b ≡ true
  and_right true b h = h
  and_right false b h = cc

  some_injective : {x y : BotDecision} → ◌≡◌ {A = Option BotDecision} (some x) (some y) → x ≡ y
  some_injective e = cc

  -- Actions that have a range on offer.
  abbrev InRanges : Choice → Option LegalAction → Type 0
  InRanges c o = (a : LegalAction) → o ≡ some a → OffersRange c a

  module _ {ℓ} {F : Type ℓ} ⦃d : Double F⦄ (input : BotDecisionInput F) where
    value_bet-OnOffer :
        (o : Option LegalAction)
        → InRanges Choice.bet o
        → (strength : F) (x : BotDecision) → value_bet o input strength ≡ some x
        → OnOffer (player_actions s p) x
    unfolding value_bet choose_bet_amount
    value_bet-OnOffer none r strength x e = cc
    value_bet-OnOffer (some a) r strength x e =
        subst (OnOffer (player_actions s p)) (some_injective e)
          (clip-OnOffer Choice.bet a 1 input.chips (bet_target input strength) (r a refl))

    value_raise-OnOffer :
        (o : Option LegalAction)
        → InRanges Choice.raise o
        → (strength : F) (x : BotDecision) → value_raise o input strength ≡ some x
        → OnOffer (player_actions s p) x
    unfolding value_raise choose_raise_amount
    value_raise-OnOffer none r strength x e = cc
    value_raise-OnOffer (some a) r strength x e =
        subst (OnOffer (player_actions s p)) (some_injective e) (
          clip-OnOffer Choice.raise a (input.current_bet + input.min_raise)
            (input.invested_this_street + input.chips) (raise_target input strength) (r a refl))

    bluff-OnOffer :
        (bets raises : Option LegalAction)
        → InRanges Choice.bet bets
        → InRanges Choice.raise raises
        → (x : BotDecision) → bluff bets raises input ≡ some x
        → OnOffer (player_actions s p) x
    unfolding bluff choose_bet_amount
    bluff-OnOffer (some a) raises r q x e =
        subst (OnOffer (player_actions s p)) (some_injective e)
          (clip-OnOffer Choice.bet a 1 input.chips (bet_target input (d.over 4 10)) (r a refl))
    bluff-OnOffer none (some a) r q x e =
        subst (OnOffer (player_actions s p)) (some_injective e)
          (clip-OnOffer Choice.raise a 1 input.chips (bet_target input (d.over 4 10)) (q a refl))
    bluff-OnOffer none none r q x e = cc

    module _ (offered : input.legal_actions ≡ player_actions s p) where
      decide_passively-OnOffer :
          (strength : F) → OnOffer (player_actions s p) (decide_passively input strength)
      unfolding decide_passively find_action
      decide_passively-OnOffer strength = rw offered (
          OnOffer-if
            (ltb input.invested_this_street input.current_bet
              && is_some (find_action (player_actions s p) ActionType.call))
            _ _
            (λ e.
              OnOffer-if _ _ _
                (λ _. without call (
                  plain-Offers Choice.call call
                    (and_right (ltb input.invested_this_street input.current_bet) _ e)))
                (OnOffer-if _ _ _
                  (λ f. without all_in (
                    plain-Offers Choice.all_in all_in (
                      and_left (is_some (find_action (player_actions s p) ActionType.all_in))
                        (d.less (d.over 86 100) strength)
                        (and_left
                          (is_some (find_action (player_actions s p) ActionType.all_in)
                            && d.less (d.over 86 100) strength)
                          (leb input.chips input.pot) f))))
                  (if_there-OnOffer Choice.fold (fallback (player_actions s p)) fold
                    fallback-OnOffer)))
            (if_there-OnOffer Choice.check _ check
              (if_there-OnOffer Choice.call _ call fallback-OnOffer)))

      pub decide_bot_action-OnOffer :
          MayAct s p → OnOffer (player_actions s p) (decide_bot_action input)
      unfolding decide_bot_action
      decide_bot_action-OnOffer may =
          let bets = bet-OffersRange may in
          let raises = raise-OffersRange may in
          let ranged = λ (c : ActionType). ap (λ as'. find_action as' c) offered in
          OnOffer-or_else _ _ _
            (value_raise-OnOffer (find_action input.legal_actions ActionType.raise)
              (λ a e. raises a (sym (ranged ActionType.raise) ∙ e)) _)
            (OnOffer-or_else _ _ _
              (value_bet-OnOffer (find_action input.legal_actions ActionType.bet)
                (λ a e. bets a (sym (ranged ActionType.bet) ∙ e)) _)
              (OnOffer-or_else _ _ _
                (bluff-OnOffer (find_action input.legal_actions ActionType.bet)
                  (find_action input.legal_actions ActionType.raise)
                  (λ a e. bets a (sym (ranged ActionType.bet) ∙ e))
                  (λ a e. raises a (sym (ranged ActionType.raise) ∙ e)))
                (decide_passively-OnOffer _)))

OnOffer-Accepted :
    (s : GameState) (p : Player) (now : String) (user : Option String)
    → MayAct s p
    → (b : BotDecision) → OnOffer (player_actions s p) b
    → Accepted (
        apply_action_mutation s p
          (record {
            seat_no = p.seat_no;
            user_id = user;
            action_type = b.action_type;
            amount = b.amount;
          })
          now)
unfolding apply_action_mutation
OnOffer-Accepted s p now user may b (with_amount {c = c} n o) =
    offered-Accepted s p now may c n user o
OnOffer-Accepted s p now user may b (without fold o) =
    offered-Accepted s p now may Choice.fold 0 user o
OnOffer-Accepted s p now user may b (without check o) =
    offered-Accepted s p now may Choice.check 0 user o
OnOffer-Accepted s p now user may b (without call o) =
    offered-Accepted s p now may Choice.call 0 user o
OnOffer-Accepted s p now user may b (without all_in o) =
    offered-Accepted s p now may Choice.all_in 0 user o

-- Whatever its cards, its level and the random numbers are, and however the floating-point numbers
-- compute: what a bot decides, from the actions that a player of the hand is offered who has chips and has
-- put in no more than the bet, while the big blind and the minimum raise are not 0, is carried out by the
-- engine.
pub decide_bot_action-Accepted {ℓ} :
    {F : Type ℓ} ⦃d : Double F⦄ (s : GameState) (p : Player) (input : BotDecisionInput F)
    (now : String) (user : Option String)
    → MayAct s p
    → input.legal_actions ≡ player_actions s p
    → Accepted (
        apply_action_mutation s p
          (record {
            seat_no = p.seat_no;
            user_id = user;
            action_type = (decide_bot_action input).action_type;
            amount = (decide_bot_action input).amount;
          })
          now)
decide_bot_action-Accepted s p input now user may offered =
    OnOffer-Accepted s p now user may (decide_bot_action input)
      (decide_bot_action-OnOffer s p input offered may)
