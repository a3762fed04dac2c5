-- ===== src/Game/Bets/Accepts.antt =====
-- The actions that a player is offered, against the actions that are carried out.
use Prim.Native.String.{String}
use allinle.Prelude.{
  ℕ, zero, suc, ◌+◌, ◌-◌, ◌≤◌, ◌<◌, min, max, ◌≡◌, refl, ◌≢◌, ◌⊎◌, inl, inr, Bool, true, false,
  ◌&&◌, ◌||◌, not, List, [], ◌∷◌, map, Option, some, ◌==◌, arith, find, leb, ltb, le→ltb_false,
  lt→leb_false, if◌then◌else◌, Bool-cases, Result, ok, err, throw_if, ◌>>=◌, ◌>>◌,
}
use allinle.Prelude.Int.{pos}
use allinle.Errors.{PokerError}
use allinle.Types.{Player, GameState, ActionType, fold, check, call, bet, raise}
use allinle.Game.Seats.{at_seat, find_player, update_player}
use allinle.Game.Seats.Players.{find-map}
use allinle.Game.Legal.{LegalAction, check_or_call, bet_or_raise, player_actions}
use allinle.Game.Bets.{
  Amount, integer, Choice, Acted, normalize_positive_amount, invested, invest_chips, put_player,
  clear_acted, acted, mark_full_aggression, refresh_pot, make_action, settle_aggression, apply_fold,
  apply_check, apply_call, apply_bet, apply_raise, apply_all_in, apply_action_mutation,
}

-- The action that a choice makes.
abbrev pub type_of : Choice → ActionType
type_of Choice.fold = fold
type_of Choice.check = check
type_of Choice.call = call
type_of Choice.bet = bet
type_of Choice.raise = raise
type_of Choice.all_in = ActionType.all_in

-- An offer of a kind of action, with an amount in its range.
abbrev pub Offers : List LegalAction → ActionType → ℕ → Type 0
Offers [] t n = ⊥
Offers (a ∷ as') t n = ((a.action_type ≡ t) × InRange a.min_amount a.max_amount n) ⊎ Offers as' t n
  where
    InRange : Option ℕ → Option ℕ → ℕ → Type 0
    InRange (some lo) (some hi) n = (lo ≤ n) × (n ≤ hi)
    InRange _ _ n = Unit

-- Carried out, whatever the state is then.
abbrev pub Accepted : Acted → Type 0
Accepted (ok x) = Unit
Accepted (err e) = ⊥

clear_acted-seat : (p : Player) → (clear_acted p).seat_no ≡ p.seat_no
unfolding clear_acted
clear_acted-seat p = ground arith

find-put :
    (k : ℕ) (q : Player) (ps : List Player) (p : Player)
    → find (at_seat k) ps ≡ some p
    → q.seat_no ≡ k
    → find (at_seat k) (update_player k (λ _. q) ps) ≡ some q
unfolding update_player
find-put k q [] p e h = cc
find-put k q (x ∷ ps) p e h = ground (arith, find-put k q ps p)

mark-some :
    (s : GameState) (k : ℕ) (q : Player)
    → find (at_seat k) s.players ≡ some q
    → (t : GameState) × (mark_full_aggression s k ≡ ok t)
unfolding mark_full_aggression find_player
mark-some s k q e = (
  record s {
    players = update_player k acted (map clear_acted s.players);
    last_aggressor_seat = some k;
  },
  rw (find-map clear_acted k clear_acted-seat s.players q e),
)

settle-some :
    (s : GameState) (p q : Player) (full : Bool) (m : ℕ)
    → find (at_seat p.seat_no) s.players ≡ some p
    → q.seat_no ≡ p.seat_no
    → (t : GameState) × (settle_aggression s q full m ≡ ok t)
unfolding settle_aggression put_player
settle-some s p q true m e h =
    mark-some _ q.seat_no q (find-put q.seat_no q s.players p (rw h e) refl)
settle-some s p q false m e h = (put_player s (acted q), refl)

invest-some :
    (p : Player) (a : ℕ)
    → a ≤ p.chips
    → (q : Player) × (invest_chips p a ≡ ok q) × (q.seat_no ≡ p.seat_no)
unfolding invest_chips
invest-some p a h = (invested p a, rw (le→ltb_false _ _ h) refl, refl)

Accepted-guard :
    (b : Bool) (e : PokerError) (k : Acted) → b ≡ false → Accepted k → Accepted (throw_if b e >> k)
Accepted-guard true e k h a = absurd (ground arith)
Accepted-guard false e k h a = a

Accepted-bind {ℓ} :
    {A : Type ℓ} (m : Result PokerError A) (k : A → Acted) (a : A)
    → m ≡ ok a
    → Accepted (k a)
    → Accepted (m >>= k)
Accepted-bind m k a e h = rw e h

module _ (s : GameState) (p : Player) (now : String) where
  check-Accepted : (n : ℕ) → Offers (player_actions s p) check n → Accepted (apply_check s p now)
  unfolding player_actions check_or_call bet_or_raise apply_check
  check-Accepted n h = ground arith

  call-offered :
      (n : ℕ) → Offers (player_actions s p) call n → p.invested_this_street ≢ s.current_bet
  unfolding player_actions check_or_call bet_or_raise
  call-offered n h = ground arith

  bet-offered :
      (n : ℕ)
      → Offers (player_actions s p) bet n
      → (s.current_bet ≡ 0) × (min s.big_blind p.chips ≤ n) × (n ≤ p.chips)
  unfolding player_actions check_or_call bet_or_raise
  bet-offered n h = ground arith

  raise-offered :
      (n : ℕ)
      → Offers (player_actions s p) raise n
      → (s.current_bet ≢ 0)
        × (s.current_bet < p.invested_this_street + p.chips)
        × (min (s.current_bet + s.min_raise) (p.invested_this_street + p.chips) ≤ n)
        × (n ≤ p.invested_this_street + p.chips)
  unfolding player_actions check_or_call bet_or_raise
  raise-offered n h = ground arith

-- A player at a seat of the hand, with chips, whose stake in the round is within the bet to meet.
pub record MayAct (s : GameState) (p : Player) : Type 0 where
  pub found : find (at_seat p.seat_no) s.players ≡ some p
  pub has_chips : 0 < p.chips
  pub within_bet : p.invested_this_street ≤ s.current_bet
  pub blind_positive : 0 < s.big_blind
  pub raise_positive : 0 < s.min_raise

normalize-pos : (n : ℕ) → 0 < n → normalize_positive_amount (integer (pos n)) ≡ ok n
unfolding normalize_positive_amount
normalize-pos zero h = absurd (omega arith)
normalize-pos (suc n) h = refl

module _ (s : GameState) (p : Player) (now : String) (may : MayAct s p) where
  call-Accepted : (n : ℕ) → Offers (player_actions s p) call n → Accepted (apply_call s p now)
  unfolding apply_call
  call-Accepted n h =
      let ne = call-offered s p now n h in
      let (q, e, k) =
        invest-some p (min p.chips (s.current_bet - p.invested_this_street)) (omega arith) in
      Accepted-guard _ _ _
        (lt→leb_false s.current_bet p.invested_this_street (omega (arith, ne, may.within_bet)))
        (Accepted-bind (invest_chips p _) _ q e tt)

  -- A bet of any positive number of chips that the player has is carried out, if there is no bet yet.
  pub bet-Accepted :
      (n : ℕ)
      → s.current_bet ≡ 0
      → 0 < n
      → n ≤ p.chips
      → Accepted (apply_bet s p (integer (pos n)) now)
  unfolding apply_bet
  bet-Accepted n zero_bet positive fits =
      let (q, e, k) = invest-some p n fits in
      let (t, f) =
        mark-some (record (put_player s q) { current_bet = q.invested_this_street; min_raise = n })
          q.seat_no q (put_found q k) in
      Accepted-bind _ _ n (normalize-pos n positive) (
        Accepted-guard _ _ _ (ground arith) (
          Accepted-guard _ _ _ (le→ltb_false _ _ fits)
            (Accepted-bind (invest_chips p n) _ q e (Accepted-bind _ _ t f tt))))
    where
      put_found :
          (q : Player)
          → q.seat_no ≡ p.seat_no
          → find (at_seat q.seat_no) (put_player s q).players ≡ some q
      put_found q k = unfold put_player in find-put q.seat_no q s.players p (rw k may.found) refl

  raise-Accepted :
      (n : ℕ)
      → Offers (player_actions s p) raise n
      → Accepted (apply_raise s p (integer (pos n)) now)
  unfolding apply_raise
  raise-Accepted n h =
      let (some_bet, room, low, high) = raise-offered s p now n h in
      let above : s.current_bet < n = omega (arith, may.raise_positive) in
      let (q, e, k) = invest-some p (n - p.invested_this_street) (omega arith) in
      let (t, f) =
        settle-some (record s { current_bet = n }) p q (leb s.min_raise (n - s.current_bet))
          (n - s.current_bet) may.found k in
      Accepted-guard _ _ _ (ground arith) (
        Accepted-bind _ _ n (normalize-pos n (omega (arith, above))) (
          Accepted-guard _ _ _ (lt→leb_false _ _ above) (
            Accepted-guard _ _ _ (le→ltb_false _ _ high) (
              Accepted-guard _ _ _ (full_or_all_in n above low high) (
                Accepted-guard _ _ _ (le→ltb_false _ _ (omega (arith, above, may.within_bet))) (
                  Accepted-bind (invest_chips p (n - p.invested_this_street)) _ q e
                    (Accepted-bind _ _ t f tt)))))))
    where
      full_or_all_in :
          (n : ℕ)
          → s.current_bet < n
          → min (s.current_bet + s.min_raise) (p.invested_this_street + p.chips) ≤ n
          → n ≤ p.invested_this_street + p.chips
          → (ltb (n - s.current_bet) s.min_raise && not (n - p.invested_this_street == p.chips))
            ≡ false
      full_or_all_in n above low high = ground (arith, may.within_bet)

  all_in-Accepted : Accepted (apply_all_in s p now)
  unfolding apply_all_in
  all_in-Accepted =
      let (q, e, k) = invest-some p p.chips (omega arith) in
      Accepted-guard _ _ _ (ground (arith, may.has_chips))
        (Accepted-bind (invest_chips p p.chips) _ q e (settled q k))
    where
      settled :
          (q : Player)
          → q.seat_no ≡ p.seat_no
          → Accepted (
              (if ltb s.current_bet (p.invested_this_street + p.chips)
                then settle_aggression
                    (record s { current_bet = p.invested_this_street + p.chips })
                    q
                    ((p.invested_this_street + p.chips == p.chips)
                      || leb s.min_raise (p.invested_this_street + p.chips - s.current_bet))
                    (max s.min_raise (p.invested_this_street + p.chips - s.current_bet))
                else ok (put_player s (acted q)))
              >>= λ t. ok (refresh_pot t, make_action q ActionType.all_in p.chips s.street now))
      settled q k = elim (Bool-cases (ltb s.current_bet (p.invested_this_street + p.chips))) [
        | inl f ↦
            let (t, g) =
              settle-some (record s { current_bet = p.invested_this_street + p.chips }) p q _ _
                may.found k in
            rw f (Accepted-bind _ _ t g tt)
        | inr f ↦ rw f tt
      ]

  -- An action that is offered to a player of the hand who has chips and has put in no more than the
  -- bet, while the big blind and the minimum raise are not 0, is carried out at every amount in the
  -- range offered.
  pub offered-Accepted :
      (c : Choice) (n : ℕ) (user : Option String)
      → Offers (player_actions s p) (type_of c) n
      → Accepted (
          apply_action_mutation s p
            (record {
              seat_no = p.seat_no;
              user_id = user;
              action_type = c;
              amount = integer (pos n);
            })
            now)
  unfolding apply_action_mutation
  offered-Accepted Choice.fold n user h = unfold apply_fold in tt
  offered-Accepted Choice.check n user h = check-Accepted s p now n h
  offered-Accepted Choice.call n user h = call-Accepted n h
  offered-Accepted Choice.bet n user h =
      let (z, low, high) = bet-offered s p now n h in
      bet-Accepted n z (omega (arith, may.blind_positive, may.has_chips)) high
  offered-Accepted Choice.raise n user h = raise-Accepted n h
  offered-Accepted Choice.all_in n user h = all_in-Accepted

Accepted-guard_inv :
    (b : Bool) (e : PokerError) (k : Acted)
    → Accepted (throw_if b e >> k)
    → (b ≡ false) × Accepted k
Accepted-guard_inv true e k h = absurd h
Accepted-guard_inv false e k h = (refl, h)

Accepted-bind_inv {ℓ} :
    {A : Type ℓ} (m : Result PokerError A) (k : A → Acted)
    → Accepted (m >>= k)
    → (a : A) × Accepted (k a)
Accepted-bind_inv (ok a) k h = (a, h)
Accepted-bind_inv (err e) k h = absurd h

module _ (s : GameState) (p : Player) (now : String) where
  check-offered : Accepted (apply_check s p now) → (n : ℕ) × Offers (player_actions s p) check n
  unfolding apply_check player_actions check_or_call
  check-offered h =
      (0, ground (arith, Accepted-guard_inv (not (p.invested_this_street == s.current_bet)) _ _ h))

  call-some_offer : Accepted (apply_call s p now) → (n : ℕ) × Offers (player_actions s p) call n
  unfolding apply_call player_actions check_or_call
  call-some_offer h =
      (0, ground (arith, Accepted-guard_inv (leb s.current_bet p.invested_this_street) _ _ h))

  bet-some_offer :
      (a : Amount) → Accepted (apply_bet s p a now) → (n : ℕ) × Offers (player_actions s p) bet n
  unfolding apply_bet player_actions bet_or_raise
  bet-some_offer a h =
      let (n, g) = Accepted-bind_inv (normalize_positive_amount a) _ h in
      let (z, _) = Accepted-guard_inv (not (s.current_bet == 0)) _ _ g in
      (p.chips, ground (arith, z))

  raise-some_offer :
      (a : Amount)
      → Accepted (apply_raise s p a now)
      → (n : ℕ) × Offers (player_actions s p) raise n
  unfolding apply_raise player_actions bet_or_raise
  raise-some_offer a h =
      let (z, g) = Accepted-guard_inv (s.current_bet == 0) _ _ h in
      let (n, f) = Accepted-bind_inv (normalize_positive_amount a) _ g in
      let (above, i) = Accepted-guard_inv (leb n s.current_bet) _ _ f in
      let (room, _) = Accepted-guard_inv (ltb (p.invested_this_street + p.chips) n) _ _ i in
      (p.invested_this_street + p.chips, ground (arith, z, above, room))

  -- An action that is carried out was offered, as to its kind: for some amount.
  pub Accepted-offered :
      (c : Choice) (a : Amount) (user : Option String)
      → Accepted (
          apply_action_mutation s p
            (record { seat_no = p.seat_no; user_id = user; action_type = c; amount = a })
            now)
      → (n : ℕ) × Offers (player_actions s p) (type_of c) n
  unfolding apply_action_mutation
  Accepted-offered Choice.fold a user h = unfold player_actions in (0, inl (refl, tt))
  Accepted-offered Choice.check a user h = check-offered h
  Accepted-offered Choice.call a user h = call-some_offer h
  Accepted-offered Choice.bet a user h = bet-some_offer a h
  Accepted-offered Choice.raise a user h = raise-some_offer a h
  Accepted-offered Choice.all_in a user h = unfold player_actions in (0, inr (inl (refl, tt)))
