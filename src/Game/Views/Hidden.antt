-- ===== src/Game/Views/Hidden.antt =====
-- What the views of a hand hide: the deck, and the cards of the other players.
use Prim.Native.String.{String}
use allinle.Prelude.{
  ℕ, ◌≡◌, refl, sym, ap, ap₂, ◌∙◌, Bool, true, ◌&&◌, List, [], ◌∷◌, map, Option, none, some, find,
  if◌then◌else◌, arith, Bool-cases, inl, inr,
}
use allinle.Cards.{Card}
use allinle.Types.{Player, GameState, is_playing}
use allinle.Game.Seats.{at_seat, can_act}
use allinle.Game.Legal.{
  LegalAction, is_turn, check_or_call, bet_or_raise, player_actions, get_legal_actions,
}
use allinle.Game.Views.{
  PrivateHandState, hide_cards, to_public_game_state, private_hand, is_user, to_private_hand_state,
}

-- The same hand, dealt with other cards to the players and another deck.
abbrev pub with_cards : (Player → List Card) → Player → Player
with_cards f p = record p { hole_cards = f p }

abbrev pub redealt : GameState → List Card → (Player → List Card) → GameState
redealt s deck f = record s { deck = deck; players = map (with_cards f) s.players }

map-hide :
    (f : Player → List Card) (ps : List Player)
    → map hide_cards (map (with_cards f) ps) ≡ map hide_cards ps
map-hide f [] = refl
map-hide f (p ∷ ps) = ap (λ qs. hide_cards p ∷ qs) (map-hide f ps)

-- The public state of a hand does not depend on the deck or on any player's hole cards: two hands
-- that differ in those only have the same one.
pub to_public_game_state-redealt :
    (s : GameState) (deck : List Card) (f : Player → List Card)
    → to_public_game_state (redealt s deck f) ≡ to_public_game_state s
unfolding to_public_game_state
to_public_game_state-redealt s deck f =
    ap (λ ps. record (to_public_game_state s) { players = ps }) (map-hide f s.players)

abbrev pub found_with : (Player → List Card) → Option Player → Option Player
found_with f none = none
found_with f (some p) = some (with_cards f p)

find-with_cards :
    (test : Player → Bool) (f : Player → List Card) (ps : List Player)
    → ((p : Player) → test (with_cards f p) ≡ test p)
    → find test (map (with_cards f) ps) ≡ found_with f (find test ps)
find-with_cards test f [] same = refl
find-with_cards test f (p ∷ ps) same = elim (Bool-cases (test p)) [
  | inl e ↦ rw (same p, e)
  | inr e ↦ rw (same p, e) (find-with_cards test f ps same)
]

player_actions-redealt :
    (s : GameState) (deck : List Card) (f : Player → List Card) (p : Player)
    → player_actions (redealt s deck f) (with_cards f p) ≡ player_actions s p
unfolding player_actions check_or_call bet_or_raise
player_actions-redealt s deck f p = refl

get_legal_actions-redealt :
    (s : GameState) (deck : List Card) (f : Player → List Card) (seat : ℕ)
    → get_legal_actions (redealt s deck f) seat ≡ get_legal_actions s seat
unfolding get_legal_actions
get_legal_actions-redealt s deck f seat =
    offers_eq (redealt s deck f)
    ∙ ap (offer (redealt s deck f)) (find-with_cards (at_seat seat) f s.players (λ p. refl))
    ∙ by_player (find (at_seat seat) s.players)
    ∙ sym (offers_eq s)
  where
    offered : GameState → Player → List LegalAction
    offered t p =
        if is_playing t.status && is_turn t.current_turn_seat seat && can_act p
        then player_actions t p
        else []

    offer : GameState → Option Player → List LegalAction
    offer t none = []
    offer t (some p) = offered t p

    by_player : (o : Option Player) → offer (redealt s deck f) (found_with f o) ≡ offer s o
    by_player none = refl
    by_player (some p) = refl

    offers_eq : (t : GameState) → get_legal_actions t seat ≡ offer t (find (at_seat seat) t.players)
    offers_eq t = ground arith

find-test :
    (test : Player → Bool) (ps : List Player) (p : Player) → find test ps ≡ some p → test p ≡ true
find-test test [] p e = cc
find-test test (q ∷ ps) p e = elim (Bool-cases (test q)) [
  | inl h ↦ ground arith
  | inr h ↦ find-test test ps p (ground arith)
]

-- The private state that a member is sent does not depend on the deck or on the hole cards of the
-- others: two hands in which the players of that member hold the same cards have the same one.
pub to_private_hand_state-redealt :
    (s : GameState) (deck : List Card) (f : Player → List Card) (user : String)
    → ((p : Player) → is_user user p.user_id ≡ true → f p ≡ p.hole_cards)
    → to_private_hand_state (redealt s deck f) user ≡ to_private_hand_state s user
unfolding to_private_hand_state private_hand
to_private_hand_state-redealt s deck f user own =
    view_eq (redealt s deck f)
    ∙ ap (view (redealt s deck f)) (find-with_cards mine f s.players (λ p. refl))
    ∙ by_player (find mine s.players) refl
    ∙ sym (view_eq s)
  where
    mine : Player → Bool
    mine p = is_user user p.user_id

    view : GameState → Option Player → Option PrivateHandState
    view t none = none
    view t (some p) = some (private_hand t p)

    view_eq : (t : GameState) → to_private_hand_state t user ≡ view t (find mine t.players)
    view_eq t = ground arith

    same_hand :
        (p : Player)
        → f p ≡ p.hole_cards
        → private_hand (redealt s deck f) (with_cards f p) ≡ private_hand s p
    same_hand p e =
        ap₂ (λ cs as'. record (private_hand s p) { hole_cards = cs; legal_actions = as' }) e
          (get_legal_actions-redealt s deck f p.seat_no)

    by_player :
        (o : Option Player)
        → find mine s.players ≡ o
        → view (redealt s deck f) (found_with f o) ≡ view s o
    by_player none e = refl
    by_player (some p) e = ap some (same_hand p (own p (find-test mine s.players p e)))
