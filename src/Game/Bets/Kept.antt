-- ===== src/Game/Bets/Kept.antt =====
-- What a betting action leaves alone: the seats and the cards, and the sum of all chips.
use Prim.Native.String.{String}
use allinle.Prelude.{
  ℕ, ◌+◌, ◌-◌, ◌≡◌, refl, ◌∙◌, Bool, true, false, map, ap₂, some, ◌==◌, arith, find, if◌then◌else◌,
  ◌||◌, ◌&&◌, not, max, throw_if, ◌>>=◌, ◌>>◌, Result, ok, err, leb, ltb, subst, >>=-eq-ok,
  ok_injective,
}
use allinle.Types.{Player, GameState, GameAction, folded}
use allinle.Errors.{
  PokerError, bet_already_exists, bet_exceeds_chips, raise_not_greater, raise_exceeds_chips,
  raise_below_minimum, invalid_chip_amount,
}
use allinle.Game.Seats.{at_seat, find_player}
use allinle.Game.Seats.Players.{
  seats_of, stake, stakes, held, hands_of, hands_of-put, hands_of-update_player, hands_of-map,
  sum_of-update_player, seats_of-update_player, seats_of-map, sum_of-map, find_player-ok,
}
use allinle.Game.Bets.{
  Amount, ActionInput, Choice, normalize_positive_amount, Acted, invest_chips, put_player,
  clear_acted, acted, mark_full_aggression, refresh_pot, settle_aggression, apply_fold, apply_check,
  apply_call, apply_bet, apply_raise, apply_all_in, apply_action_mutation,
}

-- What the rows of a hand are found by.
abbrev pub ids_of : GameState → String × String × String
ids_of s = (s.room_id, s.room_code, s.hand_id)

pub record Kept (s t : GameState) : Type 0 where
  pub same_stakes : stakes t.players ≡ stakes s.players
  pub same_seats : seats_of t.players ≡ seats_of s.players
  pub same_status : t.status ≡ s.status
  pub same_street : t.street ≡ s.street
  pub same_hands : hands_of t.players ≡ hands_of s.players
  pub same_deck : t.deck ≡ s.deck
  pub same_board : t.board_cards ≡ s.board_cards
  pub same_ids : ids_of t ≡ ids_of s

pub Kept-trans : (s t u : GameState) → Kept s t → Kept t u → Kept s u
Kept-trans s t u h k = record {
  same_stakes = k.same_stakes ∙ h.same_stakes;
  same_seats = k.same_seats ∙ h.same_seats;
  same_status = k.same_status ∙ h.same_status;
  same_street = k.same_street ∙ h.same_street;
  same_hands = k.same_hands ∙ h.same_hands;
  same_deck = k.same_deck ∙ h.same_deck;
  same_board = k.same_board ∙ h.same_board;
  same_ids = k.same_ids ∙ h.same_ids;
}

-- A player after a bet of his: the same seat, cards, and chips in hand and in the pot together.
pub record Like (p q : Player) : Type 0 where
  pub same_stake : stake q ≡ stake p
  pub same_seat : q.seat_no ≡ p.seat_no
  pub same_cards : q.hole_cards ≡ p.hole_cards

acted-Like : (p q : Player) → Like p q → Like p (acted q)
acted-Like p q l = record {
  same_stake = l.same_stake;
  same_seat = l.same_seat;
  same_cards = l.same_cards;
}

pub invest_chips-Like : (p q : Player) (a : ℕ) → invest_chips p a ≡ ok q → Like p q
unfolding invest_chips
invest_chips-Like p q a e = record {
  same_stake = ground arith;
  same_seat = ground arith;
  same_cards = ground arith;
}

retag :
    {s t : GameState} {b m : ℕ} → Kept s t → Kept s (record t { current_bet = b; min_raise = m })
retag k = record {
  same_stakes = k.same_stakes;
  same_seats = k.same_seats;
  same_status = k.same_status;
  same_street = k.same_street;
  same_hands = k.same_hands;
  same_deck = k.same_deck;
  same_board = k.same_board;
  same_ids = k.same_ids;
}

pub put_player-Kept :
    (s : GameState) (p q : Player)
    → find (at_seat p.seat_no) s.players ≡ some p
    → Like p q
    → Kept s (put_player s q)
unfolding put_player
put_player-Kept s p q e l = record {
  same_stakes = omega (
    arith,
    sum_of-update_player stake q.seat_no (λ _. q) s.players p (rw l.same_seat e),
    l.same_stake,
  );
  same_seats = seats_of-update_player q.seat_no (λ _. q) s.players (λ _ _. refl);
  same_status = refl;
  same_street = refl;
  same_hands =
      hands_of-put q.seat_no q s.players p (rw l.same_seat e)
        (ap₂ (λ k cs. (k, cs)) l.same_seat l.same_cards);
  same_deck = refl;
  same_board = refl;
  same_ids = refl;
}

clear_acted-stake : (p : Player) → stake (clear_acted p) ≡ stake p
unfolding clear_acted
clear_acted-stake p = ground arith

clear_acted-cards : (p : Player) → held (clear_acted p) ≡ held p
unfolding clear_acted
clear_acted-cards p = ground arith

clear_acted-seat : (p : Player) → (clear_acted p).seat_no ≡ p.seat_no
unfolding clear_acted
clear_acted-seat p = ground arith

mark-Kept : (s t : GameState) (k : ℕ) → mark_full_aggression s k ≡ ok t → Kept s t
unfolding mark_full_aggression
mark-Kept s t k e =
    let cleared = map clear_acted s.players in
    let (p, f, g) = >>=-eq-ok (find_player cleared k) _ e in
    subst (Kept s) (ok_injective g) (record {
      same_stakes = omega (
        arith,
        sum_of-update_player stake k acted cleared p (find_player-ok cleared k p f),
        sum_of-map clear_acted stake clear_acted-stake s.players,
      );
      same_seats =
          seats_of-update_player k acted cleared (λ _ h. h)
          ∙ seats_of-map clear_acted clear_acted-seat s.players;
      same_status = refl;
      same_street = refl;
      same_hands =
          hands_of-update_player k acted cleared (λ _. refl)
          ∙ hands_of-map clear_acted clear_acted-cards s.players;
      same_deck = refl;
      same_board = refl;
      same_ids = refl;
    })

settle_aggression-Kept :
    (s t : GameState) (p q : Player) (full : Bool) (m : ℕ)
    → find (at_seat p.seat_no) s.players ≡ some p
    → Like p q
    → settle_aggression s q full m ≡ ok t
    → Kept s t
unfolding settle_aggression
settle_aggression-Kept s t p q true m f l e =
    let put = put_player-Kept s p q f l in
    Kept-trans s _ t
      (record {
        same_stakes = put.same_stakes;
        same_seats = put.same_seats;
        same_status = put.same_status;
        same_street = put.same_street;
        same_hands = put.same_hands;
        same_deck = put.same_deck;
        same_board = put.same_board;
        same_ids = put.same_ids;
      })
      (mark-Kept _ t q.seat_no e)
settle_aggression-Kept s t p q false m f l e =
    subst (Kept s) (ok_injective e) (put_player-Kept s p (acted q) f (acted-Like p q l))

-- The result of an action, as an error or as a state that keeps what `Kept` names.
pub data KeptBy (s : GameState) : Acted → Type 0 where
  kept : {t : GameState} {a : GameAction} → Kept s t → KeptBy s (ok (t, a))
  failed : {e : PokerError} → KeptBy s (err e)

pub KeptBy-ok : {s t : GameState} {a : GameAction} → KeptBy s (ok (t, a)) → Kept s t
KeptBy-ok (kept k) = k

refresh_pot-Kept : (s t : GameState) → Kept s t → Kept s (refresh_pot t)
unfolding refresh_pot
refresh_pot-Kept s t k = record {
  same_stakes = k.same_stakes;
  same_seats = k.same_seats;
  same_status = k.same_status;
  same_street = k.same_street;
  same_hands = k.same_hands;
  same_deck = k.same_deck;
  same_board = k.same_board;
  same_ids = k.same_ids;
}

-- The rules for the steps of an action.
module _ (s : GameState) where
  KeptBy-guard : (b : Bool) (e : PokerError) (k : Acted) → KeptBy s k → KeptBy s (throw_if b e >> k)
  KeptBy-guard true e k h = failed
  KeptBy-guard false e k h = h

  KeptBy-bind {ℓ} :
      {A : Type ℓ} (m : Result PokerError A) (k : A → Acted)
      → ((a : A) → m ≡ ok a → KeptBy s (k a))
      → KeptBy s (m >>= k)
  KeptBy-bind (ok a) k h = h a refl
  KeptBy-bind (err e) k h = failed

module _ (s : GameState) (p : Player) (now : String)
    (found : find (at_seat p.seat_no) s.players ≡ some p) where
  apply_fold-Kept : KeptBy s (apply_fold s p now)
  unfolding apply_fold
  apply_fold-Kept = kept (
      put_player-Kept s p (record p { status = folded; has_acted_this_street = true }) found
        (record { same_stake = refl; same_seat = refl; same_cards = refl }))

  apply_check-Kept : KeptBy s (apply_check s p now)
  unfolding apply_check
  apply_check-Kept = KeptBy-guard s _ _ _ (
      kept (
        put_player-Kept s p (acted p) found
          (acted-Like p p (record { same_stake = refl; same_seat = refl; same_cards = refl }))))

  apply_call-Kept : KeptBy s (apply_call s p now)
  unfolding apply_call
  apply_call-Kept = KeptBy-guard s _ _ _ (
      KeptBy-bind s (invest_chips p _) _ λ q e. kept (
        refresh_pot-Kept s _
          (put_player-Kept s p (acted q) found (acted-Like p q (invest_chips-Like p q _ e)))))

  apply_bet-Kept : (a : Amount) → KeptBy s (apply_bet s p a now)
  unfolding apply_bet
  apply_bet-Kept a = KeptBy-bind s (normalize_positive_amount a) _ λ amount _.
      KeptBy-guard s (not (s.current_bet == 0)) bet_already_exists _ (
        KeptBy-guard s (ltb p.chips amount) bet_exceeds_chips _ (
          KeptBy-bind s (invest_chips p amount) _ λ q e.
            let put = put_player-Kept s p q found (invest_chips-Like p q _ e) in
            KeptBy-bind s
              (mark_full_aggression
                (record (put_player s q) {
                  current_bet = q.invested_this_street;
                  min_raise = amount;
                })
                q.seat_no)
              _
              λ t f.
                kept (
                  refresh_pot-Kept s t (Kept-trans s _ t (retag put) (mark-Kept _ t q.seat_no f)))))

  -- Raises and all-ins: the chips go in, then the betting is settled with a new bet to meet.
  aggression-Kept :
      (q : Player) (b : ℕ) (full : Bool) (m : ℕ) (t : GameState)
      → Like p q
      → settle_aggression (record s { current_bet = b }) q full m ≡ ok t
      → Kept s t
  aggression-Kept q b full m t l f =
      let kept = settle_aggression-Kept (record s { current_bet = b }) t p q full m found l f in
      record {
        same_stakes = kept.same_stakes;
        same_seats = kept.same_seats;
        same_status = kept.same_status;
        same_street = kept.same_street;
        same_hands = kept.same_hands;
        same_deck = kept.same_deck;
        same_board = kept.same_board;
        same_ids = kept.same_ids;
      }

  apply_raise-Kept : (a : Amount) → KeptBy s (apply_raise s p a now)
  unfolding apply_raise
  apply_raise-Kept a = KeptBy-guard s _ _ _ (
      KeptBy-bind s (normalize_positive_amount a) _ λ to _.
        KeptBy-guard s (leb to s.current_bet) raise_not_greater _ (
          KeptBy-guard s (ltb (p.invested_this_street + p.chips) to) raise_exceeds_chips _ (
            KeptBy-guard s
              (ltb (to - s.current_bet) s.min_raise && not (to - p.invested_this_street == p.chips))
              raise_below_minimum _
              (KeptBy-guard s (ltb to p.invested_this_street) invalid_chip_amount _ (
                KeptBy-bind s (invest_chips p (to - p.invested_this_street)) _ λ q e.
                  KeptBy-bind s
                    (settle_aggression (record s { current_bet = to }) q
                      (leb s.min_raise (to - s.current_bet)) (to - s.current_bet))
                    _
                    λ t f. kept (
                      refresh_pot-Kept s t
                        (aggression-Kept q _ _ _ t (invest_chips-Like p q _ e) f)))))))

  apply_all_in-Kept : KeptBy s (apply_all_in s p now)
  unfolding apply_all_in
  apply_all_in-Kept = KeptBy-guard s _ _ _ (
      KeptBy-bind s (invest_chips p _) _
        λ q e. KeptBy-bind s _ _ λ t f. kept (refresh_pot-Kept s t (by_test q e t f _ refl)))
    where
      by_test :
          (q : Player)
          → invest_chips p p.chips ≡ ok q
          → (t : GameState)
          → (if ltb s.current_bet (p.invested_this_street + p.chips)
              then settle_aggression
                  (record s { current_bet = p.invested_this_street + p.chips })
                  q
                  ((p.invested_this_street + p.chips == p.chips)
                    || leb s.min_raise (p.invested_this_street + p.chips - s.current_bet))
                  (max s.min_raise (p.invested_this_street + p.chips - s.current_bet))
              else ok (put_player s (acted q)))
            ≡ ok t
          → (b : Bool) → ltb s.current_bet (p.invested_this_street + p.chips) ≡ b
          → Kept s t
      by_test q e t f true h = aggression-Kept q _ _ _ t (invest_chips-Like p q _ e) (rw h at f)
      by_test q e t f false h =
          subst (Kept s) (ok_injective (rw h at f))
            (put_player-Kept s p (acted q) found (acted-Like p q (invest_chips-Like p q _ e)))

  -- An action of the player at a seat, if it is carried out, changes neither the sum of all chips, in
  -- hand and in the pot, nor the seats, the hole cards, the deck, the board, the street, the status or the
  -- identifiers.
  pub apply_action_mutation-Kept :
      (input : ActionInput) → KeptBy s (apply_action_mutation s p input now)
  unfolding apply_action_mutation
  apply_action_mutation-Kept input = by_choice input.action_type
    where
      by_choice :
          (c : Choice)
          → KeptBy s (elim c [
            | Choice.fold ↦ apply_fold s p now
            | Choice.check ↦ apply_check s p now
            | Choice.call ↦ apply_call s p now
            | Choice.bet ↦ apply_bet s p input.amount now
            | Choice.raise ↦ apply_raise s p input.amount now
            | Choice.all_in ↦ apply_all_in s p now
          ])
      by_choice Choice.fold = apply_fold-Kept
      by_choice Choice.check = apply_check-Kept
      by_choice Choice.call = apply_call-Kept
      by_choice Choice.bet = apply_bet-Kept input.amount
      by_choice Choice.raise = apply_raise-Kept input.amount
      by_choice Choice.all_in = apply_all_in-Kept
