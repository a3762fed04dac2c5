-- ===== src/PracticeGame/Due.antt =====
-- Whose turn playBotTurn of apps/api/src/practice-game/practice-game.service.ts finds to play.
use allinle.Prelude.{
  ℕ, ◌<◌, ◌≡◌, inl, inr, refl, sym, ap, subst, Bool, true, false, ◌&&◌, List, [], ◌∷◌, Option, none,
  some, find, if◌then◌else◌, ltb, ltb→lt, lt→ltb, ==→eq, arith, Bool-cases,
}
use mathlib.Core.Option.{some-injective}
use allinle.Types.{
  Player, GameState, GameStatus, PlayerStatus, playing, active, is_active, is_playing,
}
use allinle.Game.Seats.{at_seat, can_act}
use allinle.Game.Legal.{get_legal_actions, player_actions, is_turn}
use allinle.PracticeGame.Turns.{bot_to_act, turn_of}

-- The turn is this player's, who is a bot that can act, in a hand that is played.
pub record Due (state : GameState) (bot : Player) : Type 0 where
  pub seated : find (at_seat bot.seat_no) state.players ≡ some bot
  pub his_turn : is_turn state.current_turn_seat bot.seat_no ≡ true
  pub is_bot : bot.is_bot ≡ true
  pub is_active : bot.status ≡ active
  pub has_chips : 0 < bot.chips
  pub in_play : state.status ≡ playing

player_injective : {x y : Player} → ◌≡◌ {A = Option Player} (some x) (some y) → x ≡ y
player_injective h = cc

find-turn :
    (turn : Option ℕ) (ps : List Player) (p : Player)
    → find (λ (q : Player). is_turn turn q.seat_no) ps ≡ some p
    → is_turn turn p.seat_no ≡ true
find-turn turn [] p e = cc
find-turn turn (q ∷ ps) p e = elim (Bool-cases (is_turn turn q.seat_no)) [
  | inl b ↦
      let same : q ≡ p = player_injective (rw b at e) in
      subst (λ (x : Player). is_turn turn x.seat_no ≡ true) same b
  | inr b ↦ find-turn turn ps p (rw b at e)
]

find-seated :
    (t : ℕ) (ps : List Player) (p : Player)
    → find (λ (q : Player). is_turn (some t) q.seat_no) ps ≡ some p
    → find (at_seat t) ps ≡ some p
find-seated t [] p e = cc
find-seated t (q ∷ ps) p e = ground (arith, find-seated t ps p)

seated :
    (turn : Option ℕ) (ps : List Player) (p : Player)
    → find (λ (q : Player). is_turn turn q.seat_no) ps ≡ some p
    → find (at_seat p.seat_no) ps ≡ some p
seated none ps p e = cc (find-turn none ps p e)
seated (some t) ps p e =
    let same : t ≡ p.seat_no = ==→eq t p.seat_no (find-turn (some t) ps p e) in
    subst (λ k. find (at_seat k) ps ≡ some p) same (find-seated t ps p e)

status_active : (st : PlayerStatus) → is_active st ≡ true → st ≡ active
status_active active h = refl
status_active _ h = cc

status_playing : (st : GameStatus) → is_playing st ≡ true → st ≡ playing
status_playing playing h = refl
status_playing _ h = cc

both : (a b : Bool) → (a && b) ≡ true → (a ≡ true) × (b ≡ true)
both true b h = (refl, h)
both false b h = cc

bot_to_act-Due : (g : GameState) (p : Player) → bot_to_act g ≡ some p → Due g p
bot_to_act-Due g p e =
    by_find (find (λ (q : Player). is_turn g.current_turn_seat q.seat_no) g.players) refl e
  where
    by_find :
        (o : Option Player)
        → find (λ (q : Player). is_turn g.current_turn_seat q.seat_no) g.players ≡ o
        → ◌≡◌ {A = Option Player}
            (elim o [
              | none ↦ none
              | some q ↦
                  if q.is_bot && is_active q.status && ltb 0 q.chips && is_playing g.status
                  then some q
                  else none
            ])
            (some p)
        → Due g p
    by_find none f e = cc
    by_find (some q) f e =
        elim (Bool-cases (q.is_bot && is_active q.status && ltb 0 q.chips && is_playing g.status)) [
          | inr b ↦ cc (rw b at e)
          | inl b ↦
              let same : q ≡ p = player_injective (rw b at e) in
              let (abc, play) =
                both (q.is_bot && is_active q.status && ltb 0 q.chips) (is_playing g.status) b in
              let (ab, chips) = both (q.is_bot && is_active q.status) (ltb 0 q.chips) abc in
              let (bot, act) = both q.is_bot (is_active q.status) ab in
              subst (Due g) same (record {
                seated = seated g.current_turn_seat g.players q f;
                his_turn = find-turn g.current_turn_seat g.players q f;
                is_bot = bot;
                is_active = status_active q.status act;
                has_chips = ltb→lt 0 q.chips chips;
                in_play = status_playing g.status play;
              })
        ]

pub Due-offered :
    (g : GameState) (p : Player) → Due g p → get_legal_actions g p.seat_no ≡ player_actions g p
unfolding get_legal_actions
Due-offered g p due =
    let playing_is : is_playing g.status ≡ true = ap is_playing due.in_play in
    let acting : can_act p ≡ true =
      rw (ap is_active due.is_active, lt→ltb 0 p.chips due.has_chips) refl in
    rw (get_legal_actions, due.seated, playing_is, due.his_turn, acting) refl

pub turn_of-Due :
    (o : Option GameState) (g : GameState) (p : Player)
    → turn_of o ≡ some (g, p)
    → (o ≡ some g) × Due g p
turn_of-Due none g p e = cc
turn_of-Due (some h) g p e = by_bot (bot_to_act h) refl e
  where
    by_bot :
        (b : Option Player)
        → bot_to_act h ≡ b
        → ◌≡◌ {A = Option (GameState × Player)}
            (elim b [ none ↦ none | some q ↦ some (h, q) ])
            (some (g, p))
        → (◌≡◌ {A = Option GameState} (some h) (some g)) × Due g p
    by_bot none f e = cc
    by_bot (some q) f e =
        subst
          (λ (x : GameState × Player).
            (◌≡◌ {A = Option GameState} (some h) (some (x.0))) × Due (x.0) (x.1))
          (some-injective (h, q) (g, p) e) (refl, bot_to_act-Due h q f)

turn-seated :
    (t : ℕ) (ps : List Player) (p : Player)
    → find (at_seat t) ps ≡ some p
    → find (λ (q : Player). is_turn (some t) q.seat_no) ps ≡ some p
turn-seated t [] p e = cc
turn-seated t (q ∷ ps) p e = ground (arith, turn-seated t ps p)

Due-turn :
    (g : GameState) (p : Player)
    → Due g p
    → find (λ (q : Player). is_turn g.current_turn_seat q.seat_no) g.players ≡ some p
Due-turn g p due = by_seat g.current_turn_seat due.his_turn
  where
    by_seat :
        (turn : Option ℕ)
        → is_turn turn p.seat_no ≡ true
        → find (λ (q : Player). is_turn turn q.seat_no) g.players ≡ some p
    by_seat none h = cc
    by_seat (some t) h =
        let same : p.seat_no ≡ t = sym (==→eq t p.seat_no h) in
        turn-seated t g.players p (subst (λ k. find (at_seat k) g.players ≡ some p) same due.seated)

pub Due-turn_of : (g : GameState) (p : Player) → Due g p → turn_of (some g) ≡ some (g, p)
Due-turn_of g p due =
    let may : (p.is_bot && is_active p.status && ltb 0 p.chips && is_playing g.status) ≡ true =
      rw
        (
          due.is_bot,
          ap is_active due.is_active,
          lt→ltb 0 p.chips due.has_chips,
          ap is_playing due.in_play,
        )
        refl in
    rw (turn_of, bot_to_act, Due-turn g p due, may) refl
