-- ===== src/Game/Start/Opening.antt =====
-- The chips of a hand that has just been dealt.
use Prim.Native.String.{String}
use allinle.Prelude.{
  ℕ, ◌≡◌, refl, sym, ap, ap₂, ◌∙◌, subst, List, [], ◌∷◌, ◌++◌, map, none, some, arith, min, find,
  length, ltb, leb, sort_by, sum_of, ok, Ensures, good, Ensures-value, Ensures-guard, Ensures-bind,
  Ensures-if,
}
use allinle.Prelude.Sorted.{Distinct, sum_of-sort_by, map-sort_by, sort_by-Distinct}
use allinle.Errors.{too_few_players}
use allinle.Cards.{Card}
use allinle.Deck.{create_deck, shuffle_deck, deal_cards}
use allinle.Types.{Player, GameState, ActionType, playing, is_out}
use allinle.Game.Seats.{
  at_seat, find_player, total_invested, first_actionable_seat_after, resolve_blind_seats,
}
use allinle.Game.Seats.Players.{
  hands_of-seats, seats_of, stake, stakes, find_player-ok, find-at_seat,
}
use allinle.Game.Bets.{invest_chips}
use allinle.Game.Bets.Kept.{ids_of, Kept, Kept-trans, put_player-Kept, invest_chips-Like}
use allinle.Game.Rounds.{normalize_after_action, street_fuel}
use allinle.Game.Rounds.Deals.{normalize_after_action-KeepsCards}
use allinle.Game.Rounds.Conserve.{accounted, normalize-accounted}
use allinle.Game.Start.{
  PlayerInput, GameInput, Deal, by_seat, seat_player, deal_round, post_blind, seats_in_play,
  deal_hand, highest_bet, create_initial_game_state,
}

-- The same chips and the same seats.
pub record SameChips (ps qs : List Player) : Type 0 where
  pub same_stakes : stakes qs ≡ stakes ps
  pub same_seats : seats_of qs ≡ seats_of ps

deal_round-SameChips :
    (ps : List Player) (deck : List Card)
    → Ensures (λ (d : Deal). SameChips ps d.players) (deal_round ps deck)
unfolding deal_round
deal_round-SameChips [] deck = good (record { same_stakes = refl; same_seats = refl })
deal_round-SameChips (p ∷ ps) deck =
    Ensures-if (is_out p.status) _ _
      (Ensures-bind (deal_round ps deck) _ λ d e.
        good
          (with_head p p ps d.players refl refl (Ensures-value (deal_round-SameChips ps deck) e)))
      (Ensures-bind (deal_cards deck 1) _ λ top _. Ensures-bind (deal_round ps top.deck) _ λ d e.
        good (
          with_head p (record p { hole_cards = p.hole_cards ++ top.cards }) ps d.players refl refl
            (Ensures-value (deal_round-SameChips ps top.deck) e)))
  where
    with_head :
        (p q : Player) (ps qs : List Player)
        → stake q ≡ stake p
        → q.seat_no ≡ p.seat_no
        → SameChips ps qs
        → SameChips (p ∷ ps) (q ∷ qs)
    with_head p q ps qs h k same = record {
      same_stakes = omega (arith, h, same.same_stakes);
      same_seats = ap₂ ◌∷◌ k same.same_seats;
    }

post_blind-Kept :
    (s : GameState) (seat blind : ℕ) (t : ActionType) (now : String)
    → Ensures (Kept s) (post_blind s seat blind t now)
unfolding post_blind
post_blind-Kept s seat blind t now = Ensures-bind (find_player s.players seat) _ λ p f.
    Ensures-bind (invest_chips p (min p.chips blind)) _ λ q e.
      let at = find-at_seat seat s.players p (find_player-ok s.players seat p f) in
      let found =
        subst (λ k. find (at_seat k) s.players ≡ some p) (sym at)
          (find_player-ok s.players seat p f) in
      let kept = put_player-Kept s p q found (invest_chips-Like p q (min p.chips blind) e) in
      good (record {
        same_stakes = kept.same_stakes;
        same_seats = kept.same_seats;
        same_status = kept.same_status;
        same_street = kept.same_street;
        same_hands = kept.same_hands;
        same_deck = kept.same_deck;
        same_board = kept.same_board;
        same_ids = kept.same_ids;
      })

abbrev pub chips_brought : GameInput → ℕ
chips_brought input = sum_of (λ p. p.chips) input.players

abbrev pub input_seats : GameInput → List ℕ
input_seats input = map (λ p. p.seat_no) input.players

stakes-seated : (ps : List PlayerInput) → stakes (map seat_player ps) ≡ sum_of (λ p. p.chips) ps
unfolding seat_player
stakes-seated [] = refl
stakes-seated (p ∷ ps) = omega (arith, stakes-seated ps)

seats_of-seated : (ps : List PlayerInput) → seats_of (map seat_player ps) ≡ map (λ p. p.seat_no) ps
unfolding seat_player
seats_of-seated [] = refl
seats_of-seated (p ∷ ps) = ap (λ ss. p.seat_no ∷ ss) (seats_of-seated ps)

-- The state before the blinds.
record Dealt (input : GameInput) (s : GameState) : Type 0 where
  has_chips : stakes s.players ≡ chips_brought input
  has_seats : seats_of s.players ≡ sort_by leb (input_seats input)
  is_on : s.status ≡ playing
  has_ids : ids_of s ≡ (input.room_id, input.room_code, input.hand_id)

deal_hand-Dealt :
    (input : GameInput) (draw : ℕ → ℕ) (now : String)
    → Ensures (Dealt input) (deal_hand input draw now)
unfolding deal_hand
deal_hand-Dealt input draw now =
    let seated = map seat_player (sort_by by_seat input.players) in
    Ensures-guard (ltb (length (seats_in_play input)) 2) too_few_players _ λ _.
      Ensures-bind (resolve_blind_seats (seats_in_play input) _) _ λ blinds _.
        Ensures-bind
          (deal_round seated
            (elim input.deck [ none ↦ shuffle_deck draw create_deck | some d ↦ d ]))
          _
          λ one e. Ensures-bind (deal_round one.players one.deck) _ λ two f.
            let first = Ensures-value (deal_round-SameChips seated _) e in
            let second = Ensures-value (deal_round-SameChips one.players one.deck) f in
            good (record {
              has_chips =
                  second.same_stakes
                  ∙ first.same_stakes
                  ∙ stakes-seated (sort_by by_seat input.players)
                  ∙ sum_of-sort_by by_seat (λ p. p.chips) input.players;
              has_seats =
                  second.same_seats
                  ∙ first.same_seats
                  ∙ seats_of-seated (sort_by by_seat input.players)
                  ∙ map-sort_by (λ (p : PlayerInput). p.seat_no) input.players;
              is_on = refl;
              has_ids = refl;
            })

-- A hand that has started: its chips, its seats and what it is found by.
pub record Opened (input : GameInput) (s : GameState) : Type 0 where
  pub balance : accounted s ≡ chips_brought input
  pub seats : seats_of s.players ≡ sort_by leb (input_seats input)
  pub ids : ids_of s ≡ (input.room_id, input.room_code, input.hand_id)

pub create_initial_game_state-Opened :
    (input : GameInput) (draw : ℕ → ℕ) (now : String)
    → Distinct (input_seats input)
    → Ensures (Opened input) (create_initial_game_state input draw now)
unfolding create_initial_game_state
create_initial_game_state-Opened input draw now d =
    Ensures-bind (deal_hand input draw now) _ λ dealt e.
      Ensures-bind
        (post_blind dealt dealt.small_blind_seat input.small_blind ActionType.small_blind now) _
        λ small f.
          Ensures-bind
            (post_blind small small.big_blind_seat input.big_blind ActionType.big_blind now) _
            λ both g.
              let before = Ensures-value (deal_hand-Dealt input draw now) e in
              let kept =
                Kept-trans dealt small both (Ensures-value (post_blind-Kept dealt _ _ _ now) f)
                  (Ensures-value (post_blind-Kept small _ _ _ now) g) in
              let ready : GameState = record both {
                current_bet = highest_bet both.players;
                pot = total_invested both.players;
              } in
              Ensures-bind (first_actionable_seat_after ready ready.big_blind_seat) _ λ seat _.
                let turn : GameState = record ready { current_turn_seat = seat } in
                Ensures-bind (normalize_after_action street_fuel turn ready.big_blind_seat []) _
                  λ final h.
                    let same =
                      Ensures-value
                        (normalize_after_action-KeepsCards street_fuel ready.big_blind_seat turn [])
                        h in
                    good (record {
                      balance =
                          Ensures-value
                            (normalize-accounted street_fuel ready.big_blind_seat turn []
                              (kept.same_status ∙ before.is_on)
                              (subst Distinct (sym (kept.same_seats ∙ before.has_seats))
                                (sort_by-Distinct leb (input_seats input) d)))
                            h
                          ∙ kept.same_stakes
                          ∙ before.has_chips;
                      seats =
                          hands_of-seats final.0.players turn.players same.same_hands
                          ∙ kept.same_seats
                          ∙ before.has_seats;
                      ids = same.same_ids ∙ kept.same_ids ∙ before.has_ids;
                    })

-- The chips that a hand which starts accounts for, in hand and in the pot or stranded by a showdown,
-- are those that the players brought, if they sit at different seats.
pub create_initial_game_state-accounted :
    (input : GameInput) (draw : ℕ → ℕ) (now : String) (s : GameState)
    → Distinct (input_seats input)
    → create_initial_game_state input draw now ≡ ok s
    → accounted s ≡ chips_brought input
create_initial_game_state-accounted input draw now s d e =
    (Ensures-value (create_initial_game_state-Opened input draw now d) e).balance
