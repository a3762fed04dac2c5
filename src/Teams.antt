-- ===== src/Teams.antt =====
-- apps/api/src/teams/teams.service.ts: the members of teams. The table is a list, and a membership
-- is looked up by its team and its user.
pub mod Members
use allinle.Prelude.{
  ℕ, Bool, true, false, ◌&&◌, ◌||◌, not, List, [], ◌∷◌, ◌++◌, Option, none, some, find, ◌==◌,
  if◌then◌else◌, Result, ok, err, throw_if, or_throw, ◌>>=◌, ◌>>◌,
}

pub data TeamRole : Type 0 where
  owner admin member : TeamRole

pub data MemberStatus : Type 0 where
  active removed : MemberStatus

pub record TeamMember : Type 0 where
  pub team_id : ℕ
  pub user_id : ℕ
  pub role : TeamRole
  pub status : MemberStatus

-- What the services of teams and ledgers throw.
pub data ApiError : Type 0 where
  not_a_member not_an_admin : ApiError
  game_not_found no_access not_the_creator player_not_in_game negative_amount : ApiError

abbrev pub is_active : MemberStatus → Bool
is_active active = true
is_active removed = false

abbrev pub has_key : ℕ → ℕ → TeamMember → Bool
has_key team user m = (m.team_id == team) && (m.user_id == user)

abbrev pub is_member : ℕ → ℕ → TeamMember → Bool
is_member team user m = has_key team user m && is_active m.status

unfoldable pub assert_member : List TeamMember → ℕ → ℕ → Result ApiError TeamMember
assert_member members team user = or_throw (find (is_member team user) members) not_a_member

abbrev pub is_admin : TeamRole → Bool
is_admin owner = true
is_admin admin = true
is_admin member = false

unfoldable pub assert_admin : List TeamMember → ℕ → ℕ → Result ApiError TeamMember
assert_admin members team user = do
  m ← assert_member members team user
  throw_if (not (is_admin m.role)) not_an_admin
  ok m

abbrev pub active_member : ℕ → ℕ → TeamRole → TeamMember
active_member team user role = record {
  team_id = team;
  user_id = user;
  role = role;
  status = active;
}

-- The owner's row of a new team.
unfoldable pub create_team : List TeamMember → ℕ → ℕ → List TeamMember
create_team members team user = members ++ active_member team user owner ∷ []

-- An upsert by the key of team and user.
unfoldable pub upsert_member : TeamMember → List TeamMember → List TeamMember
upsert_member m [] = m ∷ []
upsert_member m (n ∷ ns) = if has_key m.team_id m.user_id n then m ∷ ns else n ∷ upsert_member m ns

-- `dto.role || TeamRole.MEMBER`
abbrev pub role_or_member : Option TeamRole → TeamRole
role_or_member none = member
role_or_member (some r) = r

unfoldable pub add_member :
    List TeamMember → ℕ → ℕ → ℕ → Option TeamRole → Result ApiError (List TeamMember)
add_member members operator team user role = do
  _ ← assert_admin members team operator
  ok (upsert_member (active_member team user (role_or_member role)) members)
