-- ===== src/Lib.antt =====
-- The poker engine that the practice game runs on (packages/shared/src/poker), the rooms in which
-- its players meet (apps/api/src/practice-room) with the risk log that they write (apps/api/src/risk),
-- the service that plays and stores their hands (apps/api/src/practice-game), the ledger of games
-- played at a real table with the teams that share it (apps/api/src/ledger and teams), and the scores
-- that a group keeps hand by hand (apps/api/src/team-ledger).
--
-- Parts, and the files that model them:
--   Prelude     shared names, list lemmas, integers, results of code that may throw; `Ensures P` is a
--               result that is an error or has P, `Avoids e` one that is not the error e
--   Errors      what packages/shared/src/poker throws, one constructor for each message
--   Cards       cards.ts; Cards/Text has the two-letter texts that the code passes around
--   Deck        deck.ts; the shuffle's random numbers are the argument `draw`
--   HandRank    hand-rank.ts
--   Evaluator   evaluator.ts; a failed `!` is the error `missing_group`
--   Types       poker-types.ts
--   Pot         pot.ts, with Pot/Levels (the pots) and Pot/Payouts (the winners)
--   Game        state-machine.ts and actions.ts: Game/Seats (findPlayer, nextSeat, blinds),
--               Game/Legal (getLegalActions), Game/Bets (applyActionMutation), Game/Rounds
--               (normalizeAfterAction, streets, showdown, applyGameAction), Game/Start
--               (createInitialGameState), Game/Views (toPublicGameState, toPrivateHandState)
--   Bot         bot/: Bot/Strength (preflop.ts, postflop.ts), Bot/Decision (bot-strategy.ts), Bot/Legal
--   Risk        risk.service.ts and packages/shared/src/compliance.ts; Risk/Words
--   PracticeRoom  practice-room.service.ts: the calls on a room, and PracticeRoom/Create for the calls
--               that make one; PracticeRoom/Sound (seats and readiness), PracticeRoom/Changes (the life
--               of a room as a diagram), PracticeRoom/Start (from confirmations to the start),
--               PracticeRoom/Codes, PracticeRoom/Hands (what the practice game writes
--               to a room), and the lemmas of PracticeRoom/Tables and PracticeRoom/Refresh
--   PracticeGame  practice-game.service.ts, which keeps a state of the engine for each room:
--               PracticeGame/Hands and Hands/Results (the rows of a hand), PracticeGame/Calls (start,
--               action, next hand, end), PracticeGame/Turns, PracticeGame/Due and PracticeGame/Played (a
--               bot's turn), PracticeGame/Views (stored hands and replays),
--               PracticeGame/Chips (where the chips of a room are), PracticeGame/Privacy
--   Teams       teams.service.ts, without its queries; Teams/Members
--   Ledger      ledger.service.ts, which asks Teams for membership: Ledger/Totals and Ledger/Invariant
--               (the sums), Ledger/Access (access and confirmation), Ledger/Tables
--   TeamLedger  team-ledger.service.ts: the calls on the hands of a room; TeamLedger/Settlement
--               (generateSettlement), TeamLedger/Exact (a settlement of whole numbers, for reference),
--               TeamLedger/Settled, TeamLedger/Temps (temporary participants)
--   Tests       runs of the code, and each theorem at a concrete input
--
-- How the code corresponds. A card is a rank and a suit. Seats, chips and amounts are natural
-- numbers, and the amount of an action is an `Amount`: absent, fractional or an integer. The source
-- clones a state and changes its player objects; here a write to the player of a seat replaces the
-- first player with that seat, as findPlayer finds it. Objects keyed by seats are lists of pairs.
-- The clock is the argument `now`. An amount to call is cut off at 0. The next of no seats is 0 where
-- the source has undefined, which no caller reaches. The source's "hand_finished" event is
-- `game_over`. A number that the source adds up does not overflow in it below 2 ^ 53, which the chips
-- stay far below.
--
-- Fuel. normalizeAfterAction calls itself after a street on which nobody can act; it has the fuel
-- `street_fuel`, which is 5, one more than the streets that can be left. The loop of
-- generateSettlement has the number of debtors and creditors as its fuel, and every round removes one.
-- Every other loop is recursion on a list or on a number of rounds that the loop fixes when it starts.
--
-- The tables of rooms, teams and ledgers are lists, a row that refers to another by a key is held in it, and the
-- identifiers that the database makes are arguments. Amounts are integers, in hundredths, as the
-- database stores them. A call is one step: the source awaits several queries in it, and two calls
-- that run at once are not modelled. Descriptive columns (title, blinds, dates) are left out, and so
-- are createGame, what updateGame writes beside the status of a game, and the queries listGames and
-- getGame.
--
-- A call of the team ledger starts with its room, without the lookup by its code, and the participants
-- stay as they are. The sums of getSummary are the input of generateSettlement, whose floating-point
-- numbers are a type and a record of operations.
--
-- A room code is a list of code points, and a risk log's detail is held in its event. The bytes of a
-- room code are the argument `draw`, and the twenty attempts of generateUniqueRoomCode are a recursion
-- on their number. A call that makes a room returns the state with its result, because the risk logs
-- stay when it throws. Avatars, the compliance flag and the unique constraints of the database are left
-- out.
--
-- The service of practice games reads the same tables with texts as identifiers, which it hands on to
-- the engine. Redis is a list of pairs of a room code and a state, newest first, without the time to
-- live; a timer is the code of its room. A call returns its new state or an error: what a call has
-- written before the database refuses a later write is not kept, and a row that a write does not find is
-- `row_not_found`. The names of seats and users in a replay are arguments.
--
-- The floating-point numbers of the bots, and what the code does with them, are a type and a record of
-- operations, which a definition that computes with them takes as an argument; so are random numbers.
-- A bot's two hole cards are two fields; where one is not there, which the source does not provide for,
-- the model has the error `no_hole_cards`.
--
-- Not modelled: the timers of the bots' turns, the statistics of a room, the members of a team ledger's
-- room and the sums of its hands, statistics, administration, authentication, sockets and storage, and
-- the user interfaces.
pub mod Prelude
pub mod Errors
pub mod Cards
pub mod Deck
pub mod HandRank
pub mod Evaluator
pub mod Types
pub mod Pot
pub mod Game
pub mod Risk
pub mod Bot
pub mod PracticeRoom
pub mod PracticeGame
pub mod Teams
pub mod TeamLedger
pub mod Ledger
pub mod Tests
