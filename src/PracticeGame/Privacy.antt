-- ===== src/PracticeGame/Privacy.antt =====
-- Whose cards the views of stored hands depend on, and who may act.
use Prim.Native.String.{String}
use allinle.Prelude.{
  ℕ, ◌≡◌, refl, ap, ap₂, ◌∙◌, fun_ext, Bool, true, false, not, List, [], ◌∷◌, map, Option, none,
  some, find, ◌==◌, if◌then◌else◌, Bool-cases, inl, inr, Result, ok, err, or_throw, Ensures, good,
  Ensures-guard, Ensures-bind, Ensures-value, ensured,
}
use allinle.Cards.{Card}
use allinle.Types.{Player, GameState}
use allinle.Game.Legal.{is_turn}
use allinle.Game.Bets.{Amount, Choice}
use allinle.Game.Rounds.{ActionResult}
use allinle.Game.Views.{is_user}
use allinle.PracticeGame.{
  RoomForGame, PracticeHand, HandPlayer, Games, GameError, not_your_turn, not_this_seat, no_state,
  get_state, require_state, get_room, assert_room_member,
}
use allinle.PracticeGame.Calls.{current_player, assert_actor, apply_seat_action, apply_action}
use allinle.PracticeGame.Views.{
  Names, is_revealed, name_by_seat, replay_player, replay_actions, serialize_hand_replay,
}

abbrev pub with_cards : (HandPlayer → List Card) → HandPlayer → HandPlayer
with_cards f p = record p { hole_cards = f p }

-- The same hand, with other hole cards.
abbrev pub redealt : (HandPlayer → List Card) → PracticeHand → PracticeHand
redealt f h = record h { players = map (with_cards f) h.players }

name_by_seat-redealt :
    (seat_text : ℕ → String) (f : HandPlayer → List Card) (ps : List HandPlayer) (seat : ℕ)
    → name_by_seat seat_text (map (with_cards f) ps) seat ≡ name_by_seat seat_text ps seat
unfolding name_by_seat
name_by_seat-redealt seat_text f [] seat = refl
name_by_seat-redealt seat_text f (p ∷ ps) seat = rw (name_by_seat-redealt seat_text f ps seat) refl

replay_player-redealt :
    (f : HandPlayer → List Card) (viewer : String) (names : ℕ → Option String) (p : HandPlayer)
    → (is_revealed viewer false p ≡ true → f p ≡ p.hole_cards)
    → replay_player viewer false names (with_cards f p) ≡ replay_player viewer false names p
unfolding replay_player
replay_player-redealt f viewer names p own = elim (Bool-cases (is_revealed viewer false p)) [
  | inl e ↦ rw (e, own e) refl
  | inr e ↦ rw e refl
]

replay_players-redealt :
    (f : HandPlayer → List Card) (viewer : String) (names : ℕ → Option String)
    → ((p : HandPlayer) → is_revealed viewer false p ≡ true → f p ≡ p.hole_cards)
    → (ps : List HandPlayer)
    → map (replay_player viewer false names) (map (with_cards f) ps)
      ≡ map (replay_player viewer false names) ps
replay_players-redealt f viewer names own [] = refl
replay_players-redealt f viewer names own (p ∷ ps) =
    ap₂ ◌∷◌ (replay_player-redealt f viewer names p (own p))
      (replay_players-redealt f viewer names own ps)

-- The replay that a member is shown does not depend on the hole cards of the players who did not show
-- them, but for his own: two stored hands that differ in no other cards have the same replay.
pub serialize_hand_replay-redealt :
    (names : Names) (room : RoomForGame) (h : PracticeHand) (viewer : String)
    (f : HandPlayer → List Card)
    → ((p : HandPlayer) → is_revealed viewer false p ≡ true → f p ≡ p.hole_cards)
    → serialize_hand_replay names room (redealt f h) viewer false
      ≡ serialize_hand_replay names room h viewer false
unfolding serialize_hand_replay
serialize_hand_replay-redealt names room h viewer f own =
    let same : name_by_seat names.seat_text (map (with_cards f) h.players)
        ≡ name_by_seat names.seat_text h.players =
      fun_ext (name_by_seat-redealt names.seat_text f h.players) in
    ap₂
      (λ ps as'. record (serialize_hand_replay names room h viewer false) {
        players = ps;
        actions = as';
      })
      (ap (λ ns. map (replay_player viewer false ns) (map (with_cards f) h.players)) same
        ∙ replay_players-redealt f viewer (name_by_seat names.seat_text h.players) own h.players)
      (ap (λ ns. replay_actions ns names.user_name 1 h.actions) same)

-- The state of the room, and in it the player whose turn it is, who is this user's.
pub record HisTurn (s : Games) (user code : String) : Type 0 where
  pub state : GameState
  pub player : Player
  pub kept_state : get_state s.states code ≡ some state
  pub found :
      find (λ (p : Player). is_turn state.current_turn_seat p.seat_no) state.players ≡ some player
  pub own : is_user user player.user_id ≡ true

or_throw-ok : {A : Type 0} (o : Option A) (x : GameError) (a : A) → or_throw o x ≡ ok a → o ≡ some a
or_throw-ok none x a e = cc
or_throw-ok (some b) x a e = cc

current_player-found :
    (g : GameState) (seat : ℕ) (x : GameError)
    → Ensures
        (λ q. find (λ (p : Player). is_turn g.current_turn_seat p.seat_no) g.players ≡ some q)
        (current_player g seat x)
unfolding current_player
current_player-found g seat x =
    Ensures-bind
      (or_throw (find (λ (p : Player). is_turn g.current_turn_seat p.seat_no) g.players) x) _
      λ p e. Ensures-guard (not (p.seat_no == seat)) x _ λ _.
        good (
          or_throw-ok (find (λ (p : Player). is_turn g.current_turn_seat p.seat_no) g.players) x p
            e)

-- An action of a user is carried out only if a hand of the room is kept and the player whose turn it
-- is there belongs to that user.
pub apply_action-HisTurn :
    (s : Games) (user code : String) (type : Choice) (amount : Amount) (now : String)
    (r : Games × ActionResult)
    → apply_action s user code type amount now ≡ ok r
    → HisTurn s user code
unfolding apply_action apply_seat_action require_state
apply_action-HisTurn s user code type amount now r e = Ensures-value whole e
  where
    refusal : Option GameError → Result GameError (Unit {0})
    refusal none = ok tt
    refusal (some x) = err x

    by_test :
        {u : Unit {0}} (b : Bool)
        → refusal (if b then none else some not_your_turn) ≡ ok u
        → b ≡ true
    by_test true e = refl
    by_test false e = cc

    assert_actor-ok :
        (p : Player) (u : Unit {0})
        → assert_actor (some user) p ≡ ok u
        → is_user user p.user_id ≡ true
    assert_actor-ok p u e = by_test (is_user user p.user_id) e

    whole :
        Ensures
          (λ (_ : Games × ActionResult). HisTurn s user code)
          (apply_action s user code type amount now)
    whole = Ensures-bind (get_room s code) _ λ room _.
        Ensures-bind (assert_room_member room user) _ λ seat _.
          Ensures-bind (or_throw (get_state s.states code) no_state) _ λ first _.
            Ensures-bind (current_player first seat.seat_no not_your_turn) _ λ _ _.
              Ensures-bind (or_throw (get_state s.states code) no_state) _ λ g e.
                Ensures-bind (current_player g seat.seat_no not_this_seat) _ λ p f.
                  Ensures-bind (assert_actor (some user) p) _ λ u k. ensured _ λ _ _. record {
                    state = g;
                    player = p;
                    kept_state = or_throw-ok (get_state s.states code) no_state g e;
                    found = Ensures-value (current_player-found g seat.seat_no not_this_seat) f;
                    own = assert_actor-ok p u k;
                  }
