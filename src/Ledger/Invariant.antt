-- ===== src/Ledger/Invariant.antt =====
-- apps/api/src/ledger/ledger.service.ts: runs of its calls, but for createGame, and the sums of the games in them.
use Prim.Native.String.{String}
use allinle.Prelude.{
  ℕ, ◌≡◌, ◌≢◌, refl, sym, ap, ap₂, ◌∙◌, subst, not, ◌&&◌, List, [], ◌∷◌, ◌++◌, map, Option, none,
  some, filter, length, any, every, ◌==◌, ==→eq, arith, Bool-cases, inl, inr, Result, ok, or_throw,
  Ensures, good, Ensures-value, Ensures-guard, Ensures-bind, Ensures-if, ensured,
}
use allinle.Prelude.Int.{ℤ, pos, ltb_ℤ}
use allinle.Teams.{ApiError, game_not_found, player_not_in_game, not_the_creator, negative_amount}
use allinle.Ledger.{
  LedgerGameStatus, finished, LedgerConfirmStatus, LedgerTransactionType, buy_in, cash_out,
  LedgerPlayer, LedgerGame, Ledgers, find_game, write_game, is_adjustment, recalculated,
  recalculate_game, create_transaction, create_if_positive, new_player, add_player, add_transaction,
  finish_game, update_game, with_given_status, with_status, assert_game_access, marked, mark_player,
  of_user, promoted, is_linked, is_confirmed, confirm_game, dispute_game,
}
use allinle.Ledger.Totals.{Tallied, recalculated-Tallied, tally, bought, cashed, signed, sum_ℤ}
use allinle.Ledger.Tables.{find_game-id, find-write_other, find-write_same}

-- Every game is tallied.
abbrev pub AllTallied : Ledgers → Type 0
AllTallied s = (id : ℕ) (g : LedgerGame) → find_game id s.games ≡ some g → Tallied g

-- Every game but one is as it was.
abbrev Apart : ℕ → Ledgers → Ledgers → Type 0
Apart k s t = (j : ℕ) → j ≢ k → find_game j t.games ≡ find_game j s.games

abbrev TalliedAt : ℕ → Ledgers → Type 0
TalliedAt k t = (g : LedgerGame) → find_game k t.games ≡ some g → Tallied g

all_tallied : (k : ℕ) (s t : Ledgers) → AllTallied s → Apart k s t → TalliedAt k t → AllTallied t
all_tallied k s t all apart here j g e = elim (Bool-cases (j == k)) [
  | inl b ↦ here g (subst (λ i. find_game i t.games ≡ some g) (==→eq j k b) e)
  | inr b ↦ all j g (sym (apart j (λ h. ground (arith, h))) ∙ e)
]

recalculate_game-Apart : (s : Ledgers) (k : ℕ) → Ensures (Apart k s) (recalculate_game s k)
unfolding recalculate_game
recalculate_game-Apart s k = Ensures-bind (or_throw (find_game k s.games) game_not_found) _ λ g e.
    good λ j n.
      find-write_other k (λ _. recalculated g)
        (λ h i. unfold recalculated in find_game-id k s.games g (found g e)) j s.games n
  where
    found :
        (g : LedgerGame)
        → ◌≡◌ {A = Result ApiError LedgerGame}
            (or_throw (find_game k s.games) game_not_found)
            (ok g)
        → find_game k s.games ≡ some g
    found g e = ground arith

recalculate_game-TalliedAt : (s : Ledgers) (k : ℕ) → Ensures (TalliedAt k) (recalculate_game s k)
unfolding recalculate_game
recalculate_game-TalliedAt s k =
    Ensures-bind (or_throw (find_game k s.games) game_not_found) _ λ g e. good λ h f.
      let (_, _, q) =
        find-write_same k (λ _. recalculated g)
          (λ i j. unfold recalculated in find_game-id k s.games g (found g e)) s.games h f in
      subst Tallied q (recalculated-Tallied g)
  where
    found :
        (g : LedgerGame)
        → ◌≡◌ {A = Result ApiError LedgerGame}
            (or_throw (find_game k s.games) game_not_found)
            (ok g)
        → find_game k s.games ≡ some g
    found g e = ground arith

create_transaction-Apart :
    (s : Ledgers) (k player : ℕ) (type : LedgerTransactionType) (amount : ℤ)
    (remark : Option String)
    → Ensures (Apart k s) (create_transaction s k player type amount remark)
unfolding create_transaction
create_transaction-Apart s k player type amount remark =
    Ensures-guard (not (is_adjustment type) && ltb_ℤ amount (pos 0)) negative_amount _
      λ _. good λ j n. find-write_other k _ (λ g e. e) j s.games n

create_if_positive-Apart :
    (s : Ledgers) (k player : ℕ) (type : LedgerTransactionType) (amount : Option ℤ)
    → Ensures (Apart k s) (create_if_positive s k player type amount)
unfolding create_if_positive
create_if_positive-Apart s k player type none = good λ j n. refl
create_if_positive-Apart s k player type (some a) =
    Ensures-if (ltb_ℤ (pos 0) a) _ _ (create_transaction-Apart s k player type a none)
      (good λ j n. refl)

-- A change of marks and statuses, which leaves the transactions and the sums.
map-mark_player :
    {A : Type 0} (user : ℕ) (st : LedgerConfirmStatus) (f : LedgerPlayer → A)
    → ((p : LedgerPlayer) → f (record p { confirm_status = st }) ≡ f p)
    → (ps : List LedgerPlayer) → map f (map (mark_player user st) ps) ≡ map f ps
map-mark_player user st f h [] = refl
map-mark_player user st f h (p ∷ ps) =
    ap₂ ◌∷◌ (elim (Bool-cases (of_user user p)) [ inl e ↦ rw e (h p) | inr e ↦ rw e refl ])
      (map-mark_player user st f h ps)

marked-Tallied :
    (user : ℕ) (st : LedgerConfirmStatus) (remark : Option String) (now : String) (g : LedgerGame)
    → Tallied g
    → Tallied (marked user st remark now g)
marked-Tallied user st remark now g h = record {
  buys = h.buys ∙ ap sum_ℤ (sym (map-mark_player user st (tally bought) (λ p. refl) g.players));
  cash = h.cash ∙ ap sum_ℤ (sym (map-mark_player user st (tally cashed) (λ p. refl) g.players));
  profits =
      h.profits ∙ ap sum_ℤ (sym (map-mark_player user st (tally signed) (λ p. refl) g.players));
  each_profit =
      map-mark_player user st (λ p. p.profit) (λ p. refl) g.players
      ∙ h.each_profit
      ∙ sym (map-mark_player user st (tally signed) (λ p. refl) g.players);
}

with_status-Tallied :
    (st : LedgerGameStatus) (g : LedgerGame) → Tallied g → Tallied (with_status st g)
with_status-Tallied st g h = record {
  buys = h.buys;
  cash = h.cash;
  profits = h.profits;
  each_profit = h.each_profit;
}

promoted-Tallied : (g : LedgerGame) → Tallied g → Tallied (promoted g)
unfolding promoted
promoted-Tallied g h = elim (Bool-cases (length (filter is_linked g.players) == 0)) [
  | inl e ↦ rw e h
  | inr e ↦ elim (Bool-cases (every is_confirmed (filter is_linked g.players))) [
    | inl f ↦ rw (e, f) (with_status-Tallied LedgerGameStatus.confirmed g h)
    | inr f ↦ rw (e, f) h
  ]
]

promoted-id : (g : LedgerGame) → (promoted g).id ≡ g.id
unfolding promoted
promoted-id g = ground arith

Apart-trans : (k : ℕ) (s t u : Ledgers) → Apart k s t → Apart k t u → Apart k s u
Apart-trans k s t u h i j n = i j n ∙ h j n

-- A recalculation after changes to one game.
recalculated-AllTallied :
    (k : ℕ) (s t u : Ledgers)
    → AllTallied s
    → Apart k s t
    → recalculate_game t k ≡ ok u
    → AllTallied u
recalculated-AllTallied k s t u all apart e =
    all_tallied k s u all (Apart-trans k s t u apart (Ensures-value (recalculate_game-Apart t k) e))
      (Ensures-value (recalculate_game-TalliedAt t k) e)

add_transaction-AllTallied :
    (s : Ledgers) (user k player : ℕ) (type : LedgerTransactionType) (amount : ℤ)
    (remark : Option String)
    → AllTallied s
    → Ensures AllTallied (add_transaction s user k player type amount remark)
unfolding add_transaction
add_transaction-AllTallied s user k player type amount remark all =
    Ensures-bind (assert_game_access s user k) _ λ g _.
      Ensures-guard (not (any (λ (p : LedgerPlayer). p.id == player) g.players)) player_not_in_game
        _
        λ _. Ensures-bind (create_transaction s k player type amount remark) _ λ t e.
          ensured (recalculate_game t k) λ u f.
            recalculated-AllTallied k s t u all
              (Ensures-value (create_transaction-Apart s k player type amount remark) e) f

add_player-AllTallied :
    (s : Ledgers) (user k new : ℕ) (player_user : Option ℕ) (name : String) (buy cash : Option ℤ)
    → AllTallied s
    → Ensures AllTallied (add_player s user k new player_user name buy cash)
unfolding add_player
add_player-AllTallied s user k new player_user name buy cash all =
    Ensures-bind (assert_game_access s user k) _ λ _ _.
      let join : LedgerGame → LedgerGame =
        λ g. record g { players = g.players ++ new_player new player_user name ∷ [] } in
      let seated : Ledgers = record s { games = write_game k join s.games } in
      Ensures-bind (create_if_positive seated k new buy_in buy) _ λ t e.
        Ensures-bind (create_if_positive t k new cash_out cash) _ λ u f.
          ensured (recalculate_game u k) λ v h.
            recalculated-AllTallied k s u v all
              (Apart-trans k s seated u (λ j n. find-write_other k join (λ g i. i) j s.games n)
                (Apart-trans k seated t u
                  (Ensures-value (create_if_positive-Apart seated k new buy_in buy) e)
                  (Ensures-value (create_if_positive-Apart t k new cash_out cash) f)))
              h

-- A write to one game that keeps its sums right.
write-AllTallied :
    (k : ℕ) (f : LedgerGame → LedgerGame) (s : Ledgers)
    → ((g : LedgerGame) → g.id ≡ k → (f g).id ≡ k)
    → ((g : LedgerGame) → Tallied g → Tallied (f g))
    → AllTallied s
    → AllTallied (record s { games = write_game k f s.games })
write-AllTallied k f s same kept all =
    all_tallied k s (record s { games = write_game k f s.games }) all
      (λ j n. find-write_other k f same j s.games n)
      λ h e.
        let (g, p, q) = find-write_same k f same s.games h e in subst Tallied q (kept g (all k g p))

finish_game-AllTallied :
    (s : Ledgers) (user k : ℕ) → AllTallied s → Ensures AllTallied (finish_game s user k)
unfolding finish_game
finish_game-AllTallied s user k all = Ensures-bind (assert_game_access s user k) _ λ _ _.
    Ensures-bind (recalculate_game s k) _ λ t e. good (
      write-AllTallied k (with_status finished) t (λ g i. i) (with_status-Tallied finished)
        (recalculated-AllTallied k s s t all (λ j n. refl) e))

with_given_status-id :
    (status : Option LedgerGameStatus) (k : ℕ) (g : LedgerGame)
    → g.id ≡ k
    → (with_given_status status g).id ≡ k
with_given_status-id none k g i = i
with_given_status-id (some st) k g i = i

with_given_status-Tallied :
    (status : Option LedgerGameStatus) (g : LedgerGame)
    → Tallied g
    → Tallied (with_given_status status g)
with_given_status-Tallied none g h = h
with_given_status-Tallied (some st) g h = with_status-Tallied st g h

update_game-AllTallied :
    (s : Ledgers) (user k : ℕ) (status : Option LedgerGameStatus)
    → AllTallied s
    → Ensures AllTallied (update_game s user k status)
unfolding update_game
update_game-AllTallied s user k status all = Ensures-bind (assert_game_access s user k) _ λ g _.
    Ensures-guard (not (g.owner_user_id == user)) not_the_creator _ λ _. good (
      write-AllTallied k (with_given_status status) s (with_given_status-id status k)
        (with_given_status-Tallied status) all)

confirm_game-AllTallied :
    (s : Ledgers) (user k : ℕ) (remark : Option String) (now : String)
    → AllTallied s
    → Ensures AllTallied (confirm_game s user k remark now)
unfolding confirm_game
confirm_game-AllTallied s user k remark now all =
    Ensures-bind (assert_game_access s user k) _ λ _ _.
      let mark = marked user LedgerConfirmStatus.confirmed remark now in
      let t : Ledgers = record s { games = write_game k mark s.games } in
      good (
        write-AllTallied k promoted t (λ g i. promoted-id g ∙ i) promoted-Tallied
          (write-AllTallied k mark s (λ g i. i)
            (marked-Tallied user LedgerConfirmStatus.confirmed remark now) all))

dispute_game-AllTallied :
    (s : Ledgers) (user k : ℕ) (remark : Option String) (now : String)
    → AllTallied s
    → Ensures AllTallied (dispute_game s user k remark now)
unfolding dispute_game
dispute_game-AllTallied s user k remark now all =
    Ensures-bind (assert_game_access s user k) _ λ _ _.
      let mark = marked user LedgerConfirmStatus.disputed remark now in
      let t : Ledgers = record s { games = write_game k mark s.games } in
      good (
        write-AllTallied k (with_status LedgerGameStatus.disputed) t (λ g i. i)
          (with_status-Tallied LedgerGameStatus.disputed)
          (write-AllTallied k mark s (λ g i. i)
            (marked-Tallied user LedgerConfirmStatus.disputed remark now) all))

-- The calls that succeed, one after another.
pub data Steps (s : Ledgers) : Ledgers → Type 0 where
  start : Steps s s
  player_added :
      {t u : Ledgers} (user id new : ℕ) (player_user : Option ℕ) (name : String)
      (buy cash : Option ℤ)
      → Steps s t
      → add_player t user id new player_user name buy cash ≡ ok u
      → Steps s u
  transaction_added :
      {t u : Ledgers} (user id player : ℕ) (type : LedgerTransactionType) (amount : ℤ)
      (remark : Option String)
      → Steps s t
      → add_transaction t user id player type amount remark ≡ ok u
      → Steps s u
  game_updated :
      {t u : Ledgers} (user id : ℕ) (status : Option LedgerGameStatus)
      → Steps s t
      → update_game t user id status ≡ ok u
      → Steps s u
  game_finished :
      {t u : Ledgers} (user id : ℕ) → Steps s t → finish_game t user id ≡ ok u → Steps s u
  game_confirmed :
      {t u : Ledgers} (user id : ℕ) (remark : Option String) (now : String)
      → Steps s t
      → confirm_game t user id remark now ≡ ok u
      → Steps s u
  game_disputed :
      {t u : Ledgers} (user id : ℕ) (remark : Option String) (now : String)
      → Steps s t
      → dispute_game t user id remark now ≡ ok u
      → Steps s u

-- If the sums of every game are those of its transactions, then after any sequence of successful
-- calls, by any users and on any games, they still are: the total profit of a game is what its
-- players cashed out, less what they bought in, with the adjustments, and so is each player's profit.
pub Steps-AllTallied : (s t : Ledgers) → AllTallied s → Steps s t → AllTallied t
Steps-AllTallied s t all start = all
Steps-AllTallied s t all (player_added {t = m} user id new pu name buy cash h e) =
    Ensures-value
      (add_player-AllTallied m user id new pu name buy cash (Steps-AllTallied s m all h)) e
Steps-AllTallied s t all (transaction_added {t = m} user id player type amount remark h e) =
    Ensures-value
      (add_transaction-AllTallied m user id player type amount remark (Steps-AllTallied s m all h))
      e
Steps-AllTallied s t all (game_updated {t = m} user id status h e) =
    Ensures-value (update_game-AllTallied m user id status (Steps-AllTallied s m all h)) e
Steps-AllTallied s t all (game_finished {t = m} user id h e) =
    Ensures-value (finish_game-AllTallied m user id (Steps-AllTallied s m all h)) e
Steps-AllTallied s t all (game_confirmed {t = m} user id remark now h e) =
    Ensures-value (confirm_game-AllTallied m user id remark now (Steps-AllTallied s m all h)) e
Steps-AllTallied s t all (game_disputed {t = m} user id remark now h e) =
    Ensures-value (dispute_game-AllTallied m user id remark now (Steps-AllTallied s m all h)) e
