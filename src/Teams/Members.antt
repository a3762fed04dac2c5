-- ===== src/Teams/Members.antt =====
-- Adding a member: who may, and what it changes.
use allinle.Prelude.{
  ℕ, ◌≡◌, refl, subst, Bool, true, false, ◌&&◌, not, List, [], ◌∷◌, Option, any, ==_refl, arith,
  Bool-cases, inl, inr, ok, throw_if, >>=-eq-ok, ok_injective, throw_if-eq-ok,
}
use allinle.Teams.{
  TeamRole, TeamMember, not_an_admin, has_key, is_active, is_member, assert_member, is_admin,
  assert_admin, active_member, upsert_member, role_or_member, add_member,
}

-- An active member of the team with the role of an owner or an administrator.
abbrev pub is_manager : ℕ → ℕ → TeamMember → Bool
is_manager team user m = is_member team user m && is_admin m.role

manager-any :
    (ms : List TeamMember) (team user : ℕ) (m : TeamMember)
    → assert_member ms team user ≡ ok m
    → is_admin m.role ≡ true
    → any (is_manager team user) ms ≡ true
unfolding assert_member
manager-any [] team user m e a = cc
manager-any (n ∷ ms) team user m e a = elim (Bool-cases (is_member team user n)) [
  | inl b ↦ ground (arith, ok_injective (rw b at e))
  | inr b ↦ rw b (manager-any ms team user m (rw b at e) a)
]

upsert-member :
    (m : TeamMember) (ms : List TeamMember)
    → is_active m.status ≡ true
    → any (is_member m.team_id m.user_id) (upsert_member m ms) ≡ true
unfolding upsert_member
upsert-member m [] a = rw (==_refl m.team_id, ==_refl m.user_id, a) refl
upsert-member m (n ∷ ns) a = elim (Bool-cases (has_key m.team_id m.user_id n)) [
  | inl b ↦ rw (b, ==_refl m.team_id, ==_refl m.user_id, a) refl
  | inr b ↦ ground (arith, b, upsert-member m ns a)
]

upsert-other :
    (m : TeamMember) (ms : List TeamMember) (team user : ℕ)
    → has_key team user m ≡ false
    → any (is_member team user) (upsert_member m ms) ≡ any (is_member team user) ms
unfolding upsert_member
upsert-other m [] team user n = ground arith
upsert-other m (o ∷ os) team user n = ground (arith, upsert-other m os team user n)

-- A call of `addMember` that succeeds was made by an active owner or administrator of the team; after
-- it the user is an active member of the team, and with any other key of team and user there is an
-- active membership exactly if there was one before.
pub add_member-joins :
    (ms ns : List TeamMember) (operator team user : ℕ) (role : Option TeamRole)
    → add_member ms operator team user role ≡ ok ns
    → (any (is_manager team operator) ms ≡ true)
      × (any (is_member team user) ns ≡ true)
      × ((t u : ℕ)
          → has_key t u (active_member team user (role_or_member role)) ≡ false
          → any (is_member t u) ns ≡ any (is_member t u) ms)
unfolding add_member assert_admin
add_member-joins ms ns operator team user role e =
    let row = active_member team user (role_or_member role) in
    let (m, f, q) = >>=-eq-ok (assert_admin ms team operator) _ e in
    let (k, g, r) = >>=-eq-ok (assert_member ms team operator) _ f in
    let (_, i, _) = >>=-eq-ok (throw_if (not (is_admin k.role)) not_an_admin) _ r in
    let may : is_admin k.role ≡ true =
      ground (arith, throw_if-eq-ok (not (is_admin k.role)) not_an_admin i) in
    let done = ok_injective q in
    (
      manager-any ms team operator k g may,
      subst (λ l. any (is_member team user) l ≡ true) done (upsert-member row ms refl),
      λ t u n.
          subst (λ l. any (is_member t u) l ≡ any (is_member t u) ms) done
            (upsert-other row ms t u n),
    )
