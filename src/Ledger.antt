-- ===== src/Ledger.antt =====
-- apps/api/src/ledger/ledger.service.ts: games with their players, transactions and confirmations.
-- The tables are lists, a table that refers to another by a key is held in the row it refers to, and
-- the identifiers that the database makes are arguments. An amount is in hundredths, as the database
-- stores it.
pub mod Totals
pub mod Tables
pub mod Invariant
pub mod Access
use Prim.Native.String.{String}
use allinle.Prelude.{
  ℕ, ◌+◌, Bool, true, false, ◌&&◌, not, List, [], ◌∷◌, ◌++◌, map, Option, none, some, find, filter,
  any, every, ltb, ◌==◌, if◌then◌else◌, length, Result, ok, err, throw_if, or_throw, ◌>>=◌, ◌>>◌,
}
use allinle.Teams.{
  TeamMember, ApiError, assert_member, game_not_found, not_the_creator, no_access,
  player_not_in_game, negative_amount,
}
use allinle.Prelude.Int.{ℤ, pos, negsuc, ◌+ℤ◌, ◌-ℤ◌, ltb_ℤ, pos_part, neg_part}

pub data LedgerGameStatus : Type 0 where
  draft ongoing finished confirmed disputed : LedgerGameStatus

pub data LedgerConfirmStatus : Type 0 where
  pending confirmed disputed : LedgerConfirmStatus

pub data LedgerTransactionType : Type 0 where
  buy_in rebuy cash_out adjustment : LedgerTransactionType

pub record LedgerTransaction : Type 0 where
  pub type : LedgerTransactionType
  pub amount : ℤ
  pub note : Option String

pub record LedgerPlayer : Type 0 where
  pub id : ℕ
  pub user_id : Option ℕ
  pub display_name : String
  pub total_buy_in : ℤ
  pub total_cash_out : ℤ
  pub profit : ℤ
  pub confirm_status : LedgerConfirmStatus
  pub transactions : List LedgerTransaction

pub record LedgerConfirmation : Type 0 where
  pub user_id : ℕ
  pub status : LedgerConfirmStatus
  pub note : Option String
  pub confirmed_at : String

pub record LedgerGame : Type 0 where
  pub id : ℕ
  pub owner_user_id : ℕ
  pub team_id : Option ℕ
  pub status : LedgerGameStatus
  pub total_buy_in : ℤ
  pub total_cash_out : ℤ
  pub total_profit : ℤ
  pub players : List LedgerPlayer
  pub confirmations : List LedgerConfirmation

-- `adjustment_logs`: the games for which the risk log has an entry LEDGER_ADJUSTMENT_USED.
pub record Ledgers : Type 0 where
  pub games : List LedgerGame
  pub members : List TeamMember
  pub adjustment_logs : List ℕ

abbrev pub has_id : ℕ → LedgerGame → Bool
has_id id g = g.id == id

abbrev pub find_game : ℕ → List LedgerGame → Option LedgerGame
find_game id games = find (has_id id) games

unfoldable pub write_game : ℕ → (LedgerGame → LedgerGame) → List LedgerGame → List LedgerGame
write_game id f [] = []
write_game id f (g ∷ gs) = if has_id id g then f g ∷ gs else g ∷ write_game id f gs

unfoldable pub assert_game_access : Ledgers → ℕ → ℕ → Result ApiError LedgerGame
assert_game_access s user id = do
  game ← or_throw (find_game id s.games) game_not_found
  if game.owner_user_id == user then ok game else elim game.team_id [
    | none ↦ err no_access
    | some team ↦ assert_member s.members team user >>= λ _. ok game
  ]

abbrev pub is_buy : LedgerTransactionType → Bool
is_buy buy_in = true
is_buy rebuy = true
is_buy _ = false

abbrev pub is_cash_out : LedgerTransactionType → Bool
is_cash_out cash_out = true
is_cash_out _ = false

abbrev pub is_adjustment : LedgerTransactionType → Bool
is_adjustment adjustment = true
is_adjustment _ = false

-- The three sums of the inner loop of `recalculateGame`.
pub record Sums : Type 0 where
  pub buy_in : ℤ
  pub cash_out : ℤ
  pub adjustment : ℤ

abbrev pub add_if : Bool → ℤ → ℤ → ℤ
add_if true sum amount = sum +ℤ amount
add_if false sum amount = sum

abbrev pub count_transaction : Sums → LedgerTransaction → Sums
count_transaction sums t = record {
  buy_in = add_if (is_buy t.type) sums.buy_in t.amount;
  cash_out = add_if (is_cash_out t.type) sums.cash_out t.amount;
  adjustment = add_if (is_adjustment t.type) sums.adjustment t.amount;
}

unfoldable pub add_transactions : Sums → List LedgerTransaction → Sums
add_transactions sums [] = sums
add_transactions sums (t ∷ ts) = add_transactions (count_transaction sums t) ts

abbrev pub no_sums : Sums
no_sums = record { buy_in = pos 0; cash_out = pos 0; adjustment = pos 0 }

unfoldable pub recalculate_player : LedgerPlayer → LedgerPlayer
recalculate_player p =
    let sums = add_transactions no_sums p.transactions in
    record p {
      total_buy_in = sums.buy_in;
      total_cash_out = sums.cash_out;
      profit = sums.cash_out -ℤ sums.buy_in +ℤ sums.adjustment;
    }

pub record GameSums : Type 0 where
  pub buy_in : ℤ
  pub cash_out : ℤ
  pub profit : ℤ

abbrev pub count_player : GameSums → LedgerPlayer → GameSums
count_player sums p = record {
  buy_in = sums.buy_in +ℤ p.total_buy_in;
  cash_out = sums.cash_out +ℤ p.total_cash_out;
  profit = sums.profit +ℤ p.profit;
}

-- The outer loop, over players whose rows have been written.
unfoldable pub add_players : GameSums → List LedgerPlayer → GameSums
add_players sums [] = sums
add_players sums (p ∷ ps) = add_players (count_player sums p) ps

abbrev pub no_totals : GameSums
no_totals = record { buy_in = pos 0; cash_out = pos 0; profit = pos 0 }

unfoldable pub recalculated : LedgerGame → LedgerGame
recalculated g =
    let players = map recalculate_player g.players in
    let totals = add_players no_totals players in
    record g {
      players = players;
      total_buy_in = totals.buy_in;
      total_cash_out = totals.cash_out;
      total_profit = totals.profit;
    }

abbrev pub eq_ℤ : ℤ → ℤ → Bool
eq_ℤ a b = (pos_part a + neg_part b) == (pos_part b + neg_part a)

unfoldable pub recalculate_game : Ledgers → ℕ → Result ApiError Ledgers
recalculate_game s id = do
  game ← or_throw (find_game id s.games) game_not_found
  let g = recalculated game
  ok (record s {
    games = write_game id (λ _. g) s.games;
    adjustment_logs =
        if eq_ℤ g.total_profit (g.total_cash_out -ℤ g.total_buy_in)
        then s.adjustment_logs
        else s.adjustment_logs ++ id ∷ [];
  })

abbrev pub add_to_player : ℕ → LedgerTransaction → LedgerPlayer → LedgerPlayer
add_to_player player t p =
    if p.id == player then record p { transactions = p.transactions ++ t ∷ [] } else p

unfoldable pub create_transaction :
    Ledgers → ℕ → ℕ → LedgerTransactionType → ℤ → Option String → Result ApiError Ledgers
create_transaction s id player type amount note = do
  throw_if (not (is_adjustment type) && ltb_ℤ amount (pos 0)) negative_amount
  let t : LedgerTransaction = record { type = type; amount = amount; note = note }
  ok (record s {
    games =
        write_game id (λ g. record g { players = map (add_to_player player t) g.players }) s.games;
  })

-- `if (amount && amount > 0)`
unfoldable pub create_if_positive :
    Ledgers → ℕ → ℕ → LedgerTransactionType → Option ℤ → Result ApiError Ledgers
create_if_positive s id player type none = ok s
create_if_positive s id player type (some amount) =
    if ltb_ℤ (pos 0) amount then create_transaction s id player type amount none else ok s

abbrev pub new_player : ℕ → Option ℕ → String → LedgerPlayer
new_player id user name = record {
  id = id;
  user_id = user;
  display_name = name;
  total_buy_in = pos 0;
  total_cash_out = pos 0;
  profit = pos 0;
  confirm_status = LedgerConfirmStatus.pending;
  transactions = [];
}

unfoldable pub add_player :
    Ledgers → ℕ → ℕ → ℕ → Option ℕ → String → Option ℤ → Option ℤ → Result ApiError Ledgers
add_player s user id new_id player_user name buy cash = do
  _ ← assert_game_access s user id
  let seated : Ledgers = record s {
    games =
        write_game id
          (λ g. record g { players = g.players ++ new_player new_id player_user name ∷ [] })
          s.games;
  }
  bought ← create_if_positive seated id new_id buy_in buy
  cashed ← create_if_positive bought id new_id cash_out cash
  recalculate_game cashed id

unfoldable pub add_transaction :
    Ledgers → ℕ → ℕ → ℕ → LedgerTransactionType → ℤ → Option String → Result ApiError Ledgers
add_transaction s user id player type amount note = do
  game ← assert_game_access s user id
  throw_if (not (any (λ (p : LedgerPlayer). p.id == player) game.players)) player_not_in_game
  added ← create_transaction s id player type amount note
  recalculate_game added id

abbrev pub with_status : LedgerGameStatus → LedgerGame → LedgerGame
with_status st g = record g { status = st }

-- A status that is not given stays.
abbrev pub with_given_status : Option LedgerGameStatus → LedgerGame → LedgerGame
with_given_status none g = g
with_given_status (some st) g = with_status st g

-- `updateGame`, less the descriptive columns and the logs of sensitive words.
unfoldable pub update_game : Ledgers → ℕ → ℕ → Option LedgerGameStatus → Result ApiError Ledgers
update_game s user id status = do
  game ← assert_game_access s user id
  throw_if (not (game.owner_user_id == user)) not_the_creator
  ok (record s { games = write_game id (with_given_status status) s.games })

unfoldable pub finish_game : Ledgers → ℕ → ℕ → Result ApiError Ledgers
finish_game s user id = do
  _ ← assert_game_access s user id
  counted ← recalculate_game s id
  ok (record counted { games = write_game id (with_status finished) counted.games })

abbrev pub upsert : LedgerConfirmation → List LedgerConfirmation → List LedgerConfirmation
upsert c [] = c ∷ []
upsert c (d ∷ ds) = if d.user_id == c.user_id then c ∷ ds else d ∷ upsert c ds

abbrev pub of_user : ℕ → LedgerPlayer → Bool
of_user user p = elim p.user_id [ none ↦ false | some u ↦ u == user ]

abbrev pub mark_player : ℕ → LedgerConfirmStatus → LedgerPlayer → LedgerPlayer
mark_player user st p = if of_user user p then record p { confirm_status = st } else p

abbrev pub marked : ℕ → LedgerConfirmStatus → Option String → String → LedgerGame → LedgerGame
marked user st note now g = record g {
  confirmations =
      upsert (record { user_id = user; status = st; note = note; confirmed_at = now })
        g.confirmations;
  players = map (mark_player user st) g.players;
}

abbrev pub is_linked : LedgerPlayer → Bool
is_linked p = elim p.user_id [ none ↦ false | some _ ↦ true ]

abbrev pub is_confirmed : LedgerPlayer → Bool
is_confirmed p = elim p.confirm_status [ confirmed ↦ true | pending ↦ false | disputed ↦ false ]

unfoldable pub promoted : LedgerGame → LedgerGame
promoted g =
    let players = filter is_linked g.players in
    if (length players == 0)
    then g
    else if every is_confirmed players
    then with_status LedgerGameStatus.confirmed g
    else g

unfoldable pub confirm_game : Ledgers → ℕ → ℕ → Option String → String → Result ApiError Ledgers
confirm_game s user id note now = do
  _ ← assert_game_access s user id
  ok (record s {
    games =
        write_game id promoted
          (write_game id (marked user LedgerConfirmStatus.confirmed note now) s.games);
  })

unfoldable pub dispute_game : Ledgers → ℕ → ℕ → Option String → String → Result ApiError Ledgers
dispute_game s user id note now = do
  _ ← assert_game_access s user id
  ok (record s {
    games =
        write_game id (with_status LedgerGameStatus.disputed)
          (write_game id (marked user LedgerConfirmStatus.disputed note now) s.games);
  })
