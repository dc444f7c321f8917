-- ===== src/Command/Authorize.antt =====
-- internal/matchcommand/orchestrator.go: the authorization of a caller. The readers of users,
-- matches, rooms and teams are interfaces there and parameters here.
use rct_hub_backend.Base.{
  ℕ, Bool, true, false, not, ◌&&◌, ◌||◌, Text, List, [], Option, none, some, ◌==◌, if◌then◌else◌,
  text_Eq,
}
use rct_hub_backend.Base.Int.{ℤ, int_Eq, pos}
use rct_hub_backend.Model.Kinds.{TeamSide}
use rct_hub_backend.Model.State.{
  Actor, strategist_actor, captain_actor, referee_actor, system_referee_actor,
}
use rct_hub_backend.Model.Events.{Command}
use rct_hub_backend.Domain.Entities.{
  ObjectId, nil_object_id, UserRole, user_role_Eq, User, has_role, is_verified, Team, Side,
  strategist_side, captain_side, is_match_room, Room, Match, is_ready,
}
use rct_hub_backend.Command.Errors.{
  CommandError, Attempt, done, fail, ◌>>=◌, ◌>>◌, fail_if, or_fail,
}
use rct_hub_backend.Command.Classes.{
  is_strategist_command, is_captain_command, is_referee_proxy_command, is_referee_command,
  command_reason,
}

pub record Request : Type 0 where
  pub match_id : ObjectId
  pub expected_version : ℕ
  pub command_id : Text
  pub caller_osu_id : ℤ
  pub command : Command
  pub system : Bool

pub record AuthorizedActor : Type 0 where
  pub user_id : ObjectId
  pub osu_id : ℤ
  pub global_roles : List UserRole
  pub engine_actor : Actor
  pub admin_override : Bool
  pub referee_override : Bool
  pub reason : Text

-- The result of a read: the document, errs.ErrNotFound, or any other error.
pub data Read {ℓ} (A : Type ℓ) : Type ℓ where
  found : A → Read A
  missing failed : Read A

-- UserReader, MatchReader, RoomReader and TeamReader; there may be no TeamReader.
pub record Readers : Type 0 where
  pub user_by_osu_id : ℤ → Read User
  pub match_by_id : ObjectId → Read Match
  pub room_by_id : ObjectId → Read Room
  pub team_by_id : Option (ObjectId → Read Team)

-- value, err := reader(...), with the error of a missing document.
abbrev pub read_or {ℓ} : {A : Type ℓ} → Read A → CommandError → Attempt A
read_or (found a) e = done a
read_or missing e = fail e
read_or failed e = fail CommandError.internal_error

unfoldable pub engine_team_side : Side → TeamSide
engine_team_side Side.blue = TeamSide.blue
engine_team_side _ = TeamSide.red

unfoldable pub assigned_strategist_side :
    (red_team blue_team : Option Team) (osu_id : ℤ) → Option TeamSide
assigned_strategist_side red_team blue_team osu_id =
    elim (strategist_side red_team blue_team osu_id) [
      | none ↦ none
      | some side ↦ some (engine_team_side side)
    ]

unfoldable pub assigned_captain_side :
    (red_team blue_team : Option Team) (osu_id : ℤ) → Option TeamSide
assigned_captain_side red_team blue_team osu_id = elim (captain_side red_team blue_team osu_id) [
  | none ↦ none
  | some side ↦ some (engine_team_side side)
]

-- hasRefereeRole && room.RefereeUserID != nil && *room.RefereeUserID == user.OnlineID
unfoldable pub is_assigned_referee : User → Room → Bool
is_assigned_referee user room =
    has_role user UserRole.referee
    && elim room.referee_user_id [ none ↦ false | some id ↦ id == user.online_id ]

-- The first branch of actorForCommand.
unfoldable pub referee_for_command : User → Room → Command → Attempt (Actor × Bool × Bool)
referee_for_command user room command =
    let is_admin = has_role user UserRole.admin in
    let assigned = is_assigned_referee user room in
    if not is_admin && not assigned
    then (if has_role user UserRole.referee
        then fail CommandError.room_role_required
        else fail CommandError.global_role_required)
    else done (referee_actor, is_admin && not assigned, is_referee_proxy_command command)

-- The second and the third branch.
unfoldable pub strategist_for_command :
    User → (red_team blue_team : Option Team) → Attempt (Actor × Bool × Bool)
strategist_for_command user red_team blue_team = do
  fail_if (not (has_role user UserRole.strategist)) CommandError.global_role_required
  side ←
      or_fail (assigned_strategist_side red_team blue_team user.online_id)
        CommandError.room_role_required
  done (strategist_actor side, false, false)

unfoldable pub captain_for_command :
    User → (red_team blue_team : Option Team) → Attempt (Actor × Bool × Bool)
captain_for_command user red_team blue_team = do
  side ←
      or_fail (assigned_captain_side red_team blue_team user.online_id)
        CommandError.room_role_required
  done (captain_actor side, false, false)

unfoldable pub actor_for_command :
    User → Room → (red_team blue_team : Option Team) → Command → Attempt (Actor × Bool × Bool)
actor_for_command user room red_team blue_team command =
    if is_referee_command command || is_referee_proxy_command command
    then referee_for_command user room command
    else if is_strategist_command command
    then strategist_for_command user red_team blue_team
    else if is_captain_command command
    then captain_for_command user red_team blue_team
    else fail CommandError.invalid_request

-- One block of roomTeams; every error of the reader becomes the caller's INTERNAL_ERROR.
unfoldable pub room_team : (ObjectId → Read Team) → Option ObjectId → Attempt (Option Team)
room_team by_id none = done none
room_team by_id (some id) = do
  team ← read_or (by_id id) CommandError.internal_error
  done (some team)

unfoldable pub room_teams : Readers → Room → Attempt (Option Team × Option Team)
room_teams readers room = elim readers.team_by_id [
  | none ↦ done (none, none)
  | some by_id ↦ do
    red ← room_team by_id room.settings.red_team_id
    blue ← room_team by_id room.settings.blue_team_id
    done (red, blue)
]

-- room.ID != match.RoomID || room.MatchID == nil || *room.MatchID != request.MatchID, negated.
unfoldable pub is_paired : Room → Match → ObjectId → Bool
is_paired room shell match_id =
    room.id == shell.room_id && elim room.match_id [ none ↦ false | some id ↦ id == match_id ]

abbrev pub is_start : Command → Bool
is_start Command.start_match = true
is_start _ = false

abbrev pub authorized_actor : User → Request → Actor → (admin override : Bool) → AuthorizedActor
authorized_actor user request actor admin override = record {
  user_id = user.id;
  osu_id = user.online_id;
  global_roles = user.roles;
  engine_actor = actor;
  admin_override = admin;
  referee_override = override;
  reason = command_reason request.command;
}

unfoldable pub authorize_user : Readers → User → Request → Attempt AuthorizedActor
authorize_user readers user request = do
  shell ← read_or (readers.match_by_id request.match_id) CommandError.resource_not_found
  room ← read_or (readers.room_by_id shell.room_id) CommandError.resource_not_found
  fail_if
      (not (is_match_room shell.room_type)
        || not (is_match_room room.room_type)
        || not (is_paired room shell request.match_id))
      CommandError.resource_not_found
  (red_team, blue_team) ← room_teams readers room
  fail_if (is_start request.command && not (is_ready shell.status)) CommandError.action_not_allowed
  (actor, admin, override) ← actor_for_command user room red_team blue_team request.command
  done (authorized_actor user request actor admin override)

unfoldable pub authorize_system : Readers → Request → Attempt AuthorizedActor
authorize_system readers request = do
  shell ← read_or (readers.match_by_id request.match_id) CommandError.resource_not_found
  room ← read_or (readers.room_by_id shell.room_id) CommandError.resource_not_found
  fail_if (not (is_paired room shell request.match_id)) CommandError.resource_not_found
  done (record {
    user_id = nil_object_id;
    osu_id = pos 0;
    global_roles = [];
    engine_actor = system_referee_actor;
    admin_override = true;
    referee_override = false;
    reason = command_reason request.command;
  })

unfoldable pub authorize : Readers → Request → Attempt AuthorizedActor
authorize readers request = if request.system then authorize_system readers request else do
  user ← read_or (readers.user_by_osu_id request.caller_osu_id) CommandError.auth_required
  fail_if user.is_banned CommandError.user_banned
  fail_if (not (is_verified user.verify_status)) CommandError.user_not_verified
  authorize_user readers user request
