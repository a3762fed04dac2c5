-- ===== src/Ledger/Access.antt =====
-- Who may use a game, and when the confirmations of its players confirm it.
use Prim.Native.String.{String}
use allinle.Prelude.{
  ℕ, ◌≡◌, ◌↔◌, ◌⊎◌, refl, sym, ap, ap₂, ◌∙◌, subst, Bool, true, false, not, ◌&&◌, ◌||◌, List, [],
  ◌∷◌, map, Option, none, some, filter, length, any, every, ◌==◌, ==→eq, ==_refl, if◌then◌else◌,
  arith, Bool-cases, inl, inr, Result, ok, err, or_throw, ◌>>=◌, >>=-eq-ok, ok_injective,
}
use allinle.Teams.{ApiError, TeamMember, game_not_found, no_access, is_member, assert_member}
use allinle.Ledger.{
  LedgerGameStatus, LedgerConfirmStatus, LedgerPlayer, LedgerGame, Ledgers, find_game, write_game,
  assert_game_access, marked, mark_player, of_user, promoted, is_linked, is_confirmed, confirm_game,
}
use allinle.Ledger.Tables.{find-write_same}

-- The user owns the game, or is an active member of its team.
abbrev pub MayUse : List TeamMember → ℕ → LedgerGame → Type 0
MayUse members user g =
    (g.owner_user_id ≡ user)
    ⊎ ((team : ℕ) × (g.team_id ≡ some team) × (any (is_member team user) members ≡ true))

member-any :
    (ms : List TeamMember) (team user : ℕ) (m : TeamMember)
    → assert_member ms team user ≡ ok m
    → any (is_member team user) ms ≡ true
unfolding assert_member
member-any [] team user m e = cc
member-any (n ∷ ms) team user m e = elim (Bool-cases (is_member team user n)) [
  | inl b ↦ rw b refl
  | inr b ↦ rw b (member-any ms team user m (rw b at e))
]

any-member :
    (ms : List TeamMember) (team user : ℕ)
    → any (is_member team user) ms ≡ true
    → (m : TeamMember) × (assert_member ms team user ≡ ok m)
unfolding assert_member
any-member [] team user e = cc
any-member (n ∷ ms) team user e = elim (Bool-cases (is_member team user n)) [
  | inl b ↦ (n, rw b refl)
  | inr b ↦ let (m, f) = any-member ms team user (rw b at e) in (m, rw b f)
]

-- The access check returns a game exactly if the game exists under that identifier and the user owns
-- it or is an active member of its team.
pub assert_game_access_iff :
    (s : Ledgers) (user id : ℕ) (g : LedgerGame)
    → (assert_game_access s user id ≡ ok g)
      ↔ ((find_game id s.games ≡ some g) × MayUse s.members user g)
unfolding assert_game_access
assert_game_access_iff s user id g = (to, back)
  where
    by_owner : (h : LedgerGame) → Result ApiError LedgerGame
    by_owner h = if h.owner_user_id == user then ok h else elim h.team_id [
      | none ↦ err no_access
      | some team ↦ assert_member s.members team user >>= λ _. ok h
    ]

    team_case :
        (h : LedgerGame) (o : Option ℕ)
        → h.team_id ≡ o
        → ◌≡◌ {A = Result ApiError LedgerGame}
            (elim o [
              | none ↦ err no_access
              | some team ↦ assert_member s.members team user >>= λ _. ok h
            ])
            (ok g)
        → (h ≡ g) × MayUse s.members user h
    team_case h none t e = cc
    team_case h (some team) t e =
        let (m, f, q) = >>=-eq-ok (assert_member s.members team user) _ e in
        (ok_injective q, inr (team, t, member-any s.members team user m f))

    allowed : (h : LedgerGame) → by_owner h ≡ ok g → (h ≡ g) × MayUse s.members user h
    allowed h e = elim (Bool-cases (h.owner_user_id == user)) [
      | inl b ↦ (ok_injective (rw b at e), inl (==→eq h.owner_user_id user b))
      | inr b ↦ team_case h h.team_id refl (rw b at e)
    ]

    to :
        assert_game_access s user id ≡ ok g
        → (find_game id s.games ≡ some g) × MayUse s.members user g
    to e =
        let (h, f, q) = >>=-eq-ok (or_throw (find_game id s.games) game_not_found) by_owner e in
        let (same, may) = allowed h q in
        (
          subst (λ x. find_game id s.games ≡ some x) same (ground arith),
          subst (MayUse s.members user) same may,
        )

    by_team :
        (o : Option ℕ) (team : ℕ) (m : TeamMember)
        → o ≡ some team
        → assert_member s.members team user ≡ ok m
        → ◌≡◌ {A = Result ApiError LedgerGame}
            (elim o [
              | none ↦ err no_access
              | some team ↦ assert_member s.members team user >>= λ _. ok g
            ])
            (ok g)
    by_team o team m t h = rw (t, h) refl

    back :
        (find_game id s.games ≡ some g) × MayUse s.members user g
        → assert_game_access s user id ≡ ok g
    back (f, inl o) = rw (f, o, ==_refl user) refl
    back (f, inr (team, t, a)) = elim (Bool-cases (g.owner_user_id == user)) [
      | inl b ↦ rw (f, b) refl
      | inr b ↦
          let (m, h) = any-member s.members team user a in rw (f, b) (by_team g.team_id team m t h)
    ]

-- The players of a game that stand for a user.
abbrev pub linked : LedgerGame → List LedgerPlayer
linked g = filter is_linked g.players

-- A player of this user, or one who has confirmed.
abbrev pub confirms : ℕ → LedgerPlayer → Bool
confirms user p = of_user user p || is_confirmed p

every-marked :
    (user : ℕ) (ps : List LedgerPlayer)
    → every is_confirmed
        (filter is_linked (map (mark_player user LedgerConfirmStatus.confirmed) ps))
      ≡ every (confirms user) (filter is_linked ps)
every-marked user [] = refl
every-marked user (p ∷ ps) = ground (arith, every-marked user ps)

length-marked :
    (user : ℕ) (st : LedgerConfirmStatus) (ps : List LedgerPlayer)
    → length (filter is_linked (map (mark_player user st) ps)) ≡ length (filter is_linked ps)
length-marked user st [] = refl
length-marked user st (p ∷ ps) = ground (arith, length-marked user st ps)

abbrev next_status : Bool → Bool → LedgerGameStatus → LedgerGameStatus
next_status true all st = st
next_status false true st = LedgerGameStatus.confirmed
next_status false false st = st

promoted-status :
    (g : LedgerGame)
    → (promoted g).status
      ≡ next_status (length (linked g) == 0) (every is_confirmed (linked g)) g.status
unfolding promoted
promoted-status g = ground arith

promoted-id : (g : LedgerGame) → (promoted g).id ≡ g.id
unfolding promoted
promoted-id g = ground arith

-- A confirmation that succeeds makes the game's status `confirmed` if the game has players that stand
-- for users and each of them is of this user or had confirmed before, and else leaves the status.
pub confirm_game-status :
    (s : Ledgers) (user id : ℕ) (remark : Option String) (now : String) (t : Ledgers)
    (h : LedgerGame)
    → confirm_game s user id remark now ≡ ok t
    → find_game id t.games ≡ some h
    → (g : LedgerGame) × (find_game id s.games ≡ some g)
      × (h.status ≡ (
          if not (length (linked g) == 0) && every (confirms user) (linked g)
          then LedgerGameStatus.confirmed
          else g.status))
unfolding confirm_game
confirm_game-status s user id remark now t h e f =
    let (_, _, q) = >>=-eq-ok (assert_game_access s user id) _ e in
    let mark = marked user LedgerConfirmStatus.confirmed remark now in
    let written = subst (λ (u : Ledgers). find_game id u.games ≡ some h) (sym (ok_injective q)) f in
    let (m, p, k) =
      find-write_same id promoted (λ g i. promoted-id g ∙ i) (write_game id mark s.games) h
        written in
    let (g, r, l) = find-write_same id mark (λ g i. i) s.games m p in
    (
      g,
      r,
      ap (λ (x : LedgerGame). x.status) (sym k)
          ∙ ap (λ x. (promoted x).status) (sym l)
          ∙ promoted-status (mark g)
          ∙ status_of g,
    )
  where
    pick :
        (a b : Bool) (st : LedgerGameStatus)
        → next_status a b st ≡ (if not a && b then LedgerGameStatus.confirmed else st)
    pick true b st = refl
    pick false true st = refl
    pick false false st = refl

    status_of :
        (g : LedgerGame)
        → next_status
            (length (linked (marked user LedgerConfirmStatus.confirmed remark now g)) == 0)
            (every is_confirmed (linked (marked user LedgerConfirmStatus.confirmed remark now g)))
            g.status
          ≡ (if not (length (linked g) == 0) && every (confirms user) (linked g)
              then LedgerGameStatus.confirmed
              else g.status)
    status_of g =
        ap₂ (λ n b. next_status (n == 0) b g.status)
          (length-marked user LedgerConfirmStatus.confirmed g.players) (every-marked user g.players)
        ∙ pick (length (linked g) == 0) (every (confirms user) (linked g)) g.status
