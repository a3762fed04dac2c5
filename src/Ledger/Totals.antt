-- ===== src/Ledger/Totals.antt =====
-- The sums of a game after `recalculateGame`, against its transactions.
use allinle.Prelude.{◌≡◌, refl, ap, ap₂, ◌∙◌, List, [], ◌∷◌, map, if◌then◌else◌}
use allinle.Prelude.Int.{ℤ, pos, ◌+ℤ◌, ◌-ℤ◌, int_laws}
use allinle.Ledger.{
  LedgerTransactionType, buy_in, rebuy, cash_out, adjustment, LedgerTransaction, LedgerPlayer,
  LedgerGame, is_buy, is_cash_out, is_adjustment, Sums, add_if, count_transaction, count_player,
  add_transactions, no_sums, recalculate_player, GameSums, add_players, no_totals, recalculated,
}

unfoldable pub sum_ℤ : List ℤ → ℤ
sum_ℤ [] = pos 0
sum_ℤ (a ∷ as') = a +ℤ sum_ℤ as'

-- What a transaction adds to a profit.
abbrev pub signed : LedgerTransaction → ℤ
signed t = if is_buy t.type then pos 0 -ℤ t.amount else t.amount

abbrev pub bought : LedgerTransaction → ℤ
bought t = if is_buy t.type then t.amount else pos 0

abbrev pub cashed : LedgerTransaction → ℤ
cashed t = if is_cash_out t.type then t.amount else pos 0

abbrev pub tally : (LedgerTransaction → ℤ) → LedgerPlayer → ℤ
tally f p = sum_ℤ (map f p.transactions)

buys-add_transactions :
    (s : Sums) (ts : List LedgerTransaction)
    → (add_transactions s ts).buy_in ≡ s.buy_in +ℤ sum_ℤ (map bought ts)
unfolding add_transactions sum_ℤ
buys-add_transactions s [] = grind int_laws
buys-add_transactions s (t ∷ ts) = buys-add_transactions (count_transaction s t) ts ∙ step t.type
  where
    step :
        (k : LedgerTransactionType)
        → add_if (is_buy k) s.buy_in t.amount +ℤ sum_ℤ (map bought ts)
          ≡ s.buy_in +ℤ ((if is_buy k then t.amount else pos 0) +ℤ sum_ℤ (map bought ts))
    step buy_in = grind int_laws
    step rebuy = grind int_laws
    step cash_out = grind int_laws
    step adjustment = grind int_laws

cash-add_transactions :
    (s : Sums) (ts : List LedgerTransaction)
    → (add_transactions s ts).cash_out ≡ s.cash_out +ℤ sum_ℤ (map cashed ts)
unfolding add_transactions sum_ℤ
cash-add_transactions s [] = grind int_laws
cash-add_transactions s (t ∷ ts) = cash-add_transactions (count_transaction s t) ts ∙ step t.type
  where
    step :
        (k : LedgerTransactionType)
        → add_if (is_cash_out k) s.cash_out t.amount +ℤ sum_ℤ (map cashed ts)
          ≡ s.cash_out +ℤ ((if is_cash_out k then t.amount else pos 0) +ℤ sum_ℤ (map cashed ts))
    step buy_in = grind int_laws
    step rebuy = grind int_laws
    step cash_out = grind int_laws
    step adjustment = grind int_laws

abbrev net : Sums → ℤ
net s = s.cash_out -ℤ s.buy_in +ℤ s.adjustment

net-add_transactions :
    (s : Sums) (ts : List LedgerTransaction)
    → net (add_transactions s ts) ≡ net s +ℤ sum_ℤ (map signed ts)
unfolding add_transactions sum_ℤ
net-add_transactions s [] = grind int_laws
net-add_transactions s (t ∷ ts) = net-add_transactions (count_transaction s t) ts ∙ step t.type
  where
    step :
        (k : LedgerTransactionType)
        → add_if (is_cash_out k) s.cash_out t.amount
            -ℤ add_if (is_buy k) s.buy_in t.amount
            +ℤ add_if (is_adjustment k) s.adjustment t.amount
            +ℤ sum_ℤ (map signed ts)
          ≡ net s +ℤ ((if is_buy k then pos 0 -ℤ t.amount else t.amount) +ℤ sum_ℤ (map signed ts))
    step buy_in = grind int_laws
    step rebuy = grind int_laws
    step cash_out = grind int_laws
    step adjustment = grind int_laws

module _ where
  buys-add_players :
      (s : GameSums) (ps : List LedgerPlayer)
      → (add_players s ps).buy_in ≡ s.buy_in +ℤ sum_ℤ (map (λ p. p.total_buy_in) ps)
  unfolding add_players sum_ℤ
  buys-add_players s [] = grind int_laws
  buys-add_players s (p ∷ ps) = buys-add_players (count_player s p) ps ∙ grind int_laws

  cash-add_players :
      (s : GameSums) (ps : List LedgerPlayer)
      → (add_players s ps).cash_out ≡ s.cash_out +ℤ sum_ℤ (map (λ p. p.total_cash_out) ps)
  unfolding add_players sum_ℤ
  cash-add_players s [] = grind int_laws
  cash-add_players s (p ∷ ps) = cash-add_players (count_player s p) ps ∙ grind int_laws

  profit-add_players :
      (s : GameSums) (ps : List LedgerPlayer)
      → (add_players s ps).profit ≡ s.profit +ℤ sum_ℤ (map (λ p. p.profit) ps)
  unfolding add_players sum_ℤ
  profit-add_players s [] = grind int_laws
  profit-add_players s (p ∷ ps) = profit-add_players (count_player s p) ps ∙ grind int_laws

-- The sums of a game and of its players are those of their transactions.
pub record Tallied (g : LedgerGame) : Type 0 where
  pub buys : g.total_buy_in ≡ sum_ℤ (map (tally bought) g.players)
  pub cash : g.total_cash_out ≡ sum_ℤ (map (tally cashed) g.players)
  pub profits : g.total_profit ≡ sum_ℤ (map (tally signed) g.players)
  pub each_profit : map (λ p. p.profit) g.players ≡ map (tally signed) g.players

pos_zero_add : (a : ℤ) → pos 0 +ℤ a ≡ a
pos_zero_add a = grind int_laws

zero_net : pos 0 -ℤ pos 0 +ℤ pos 0 ≡ pos 0
zero_net = grind int_laws

map-recalculate_player :
    (f g : LedgerPlayer → ℤ)
    → ((p : LedgerPlayer) → f (recalculate_player p) ≡ g (recalculate_player p))
    → (ps : List LedgerPlayer)
    → map f (map recalculate_player ps) ≡ map g (map recalculate_player ps)
map-recalculate_player f g h [] = refl
map-recalculate_player f g h (p ∷ ps) = ap₂ ◌∷◌ (h p) (map-recalculate_player f g h ps)

pub recalculated-Tallied : (g : LedgerGame) → Tallied (recalculated g)
unfolding recalculated
recalculated-Tallied g =
    let ps = map recalculate_player g.players in
    record {
      buys =
          buys-add_players no_totals ps
          ∙ pos_zero_add _
          ∙ ap sum_ℤ (map-recalculate_player (λ p. p.total_buy_in) (tally bought) buy_of g.players);
      cash =
          cash-add_players no_totals ps
          ∙ pos_zero_add _
          ∙ ap sum_ℤ
              (map-recalculate_player (λ p. p.total_cash_out) (tally cashed) cash_of g.players);
      profits =
          profit-add_players no_totals ps
          ∙ pos_zero_add _
          ∙ ap sum_ℤ (map-recalculate_player (λ p. p.profit) (tally signed) profit_of g.players);
      each_profit = map-recalculate_player (λ p. p.profit) (tally signed) profit_of g.players;
    }
  where
    buy_of :
        (p : LedgerPlayer)
        → (recalculate_player p).total_buy_in ≡ tally bought (recalculate_player p)
    buy_of p =
        unfold recalculate_player in buys-add_transactions no_sums p.transactions ∙ pos_zero_add _

    cash_of :
        (p : LedgerPlayer)
        → (recalculate_player p).total_cash_out ≡ tally cashed (recalculate_player p)
    cash_of p =
        unfold recalculate_player in cash-add_transactions no_sums p.transactions ∙ pos_zero_add _

    profit_of :
        (p : LedgerPlayer) → (recalculate_player p).profit ≡ tally signed (recalculate_player p)
    profit_of p =
        unfold recalculate_player in
        net-add_transactions no_sums p.transactions
        ∙ ap (λ z. z +ℤ tally signed p) zero_net
        ∙ pos_zero_add _
