-- ===== src/Command/Authority.antt =====
-- The authorization of internal/matchcommand/orchestrator.go against the tables of commands.
use rct_hub_backend.Base.{
  ◌≡◌, ◌⊎◌, inl, inr, ℕ, Bool, true, false, not, ◌&&◌, ◌||◌, Option, none, some, is_some, suc,
  arith, ◌==◌, if◌then◌else◌,
}
use rct_hub_backend.Base.Int.{ℤ, int_Eq}
use rct_hub_backend.Model.Kinds.{TeamSide, Capability, team_side_Eq}
use rct_hub_backend.Model.State.{Actor, side_valid, strategist_actor, captain_actor, referee_actor}
use rct_hub_backend.Model.Events.{Command}
use rct_hub_backend.Access.Tables.{may_issue, is_active}
use rct_hub_backend.Domain.Entities.{
  UserRole, user_role_Eq, User, has_role, Team, side_by_assignment, is_assigned, strategist_side,
  captain_side, Room,
}
use rct_hub_backend.Command.Errors.{done}
use rct_hub_backend.Command.Classes.{
  is_strategist_command, is_captain_command, is_referee_proxy_command, is_referee_command,
  command_type,
}
use rct_hub_backend.Command.Authorize.{
  engine_team_side, assigned_strategist_side, assigned_captain_side, is_assigned_referee,
  referee_for_command, strategist_for_command, captain_for_command, actor_for_command,
}

abbrev pub count_true : Bool → ℕ → ℕ
count_true true n = suc n
count_true false n = n

-- Of the four classes of commands, the number of those that hold the command.
abbrev pub classes : Command → ℕ
classes c = count_true (is_referee_command c) (
    count_true (is_referee_proxy_command c)
      (count_true (is_strategist_command c) (count_true (is_captain_command c) 0)))

-- A command with a type name is in exactly one of the four classes, and one without is in none.
pub classes-command_type : (c : Command) → classes c ≡ (if is_some (command_type c) then 1 else 0)
unfolding is_referee_command is_referee_proxy_command is_strategist_command is_captain_command
    command_type
classes-command_type c = ground arith

-- The capability with which the tables let a command be issued.
abbrev pub issuer : Command → Capability
issuer (Command.ban_pool_slot _) = Capability.strategist
issuer (Command.place_piece _ _ _) = Capability.strategist
issuer (Command.place_shiro _ _) = Capability.strategist
issuer (Command.rob_piece _ _) = Capability.strategist
issuer (Command.request_tb _ _) = Capability.captain
issuer (Command.respond_tb_request _ _) = Capability.captain
issuer _ = Capability.referee

-- The user has the office in the team of this side and not in the other team.
abbrev pub only_in : (Team → Option ℤ) → (own other : Option Team) → ℤ → Bool
only_in office own other id = is_assigned office own id && not (is_assigned office other id)

abbrev pub holds : (Team → Option ℤ) → (red blue : Option Team) → ℤ → TeamSide → Bool
holds office red blue id TeamSide.red = only_in office red blue id
holds office red blue id TeamSide.blue = only_in office blue red id
holds office red blue id _ = false

-- The team is the side to move.
abbrev pub is_team : Option TeamSide → TeamSide → Bool
is_team none active = false
is_team (some team) active = team == active

-- Whose turn a command must be, by the engine's tables.
abbrev pub in_turn : Command → Option TeamSide → TeamSide → Bool
in_turn (Command.ban_pool_slot _) team active = is_team team active
in_turn (Command.place_piece _ _ _) team active = is_team team active
in_turn (Command.place_shiro _ _) team active = is_team team active
in_turn (Command.rob_piece _ _) team active = is_team team active
in_turn (Command.referee_ban_pool_slot acting _ _) team active = is_active acting active
in_turn (Command.referee_place_piece acting _ _ _ _) team active = is_active acting active
in_turn (Command.referee_place_shiro acting _ _ _) team active = is_active acting active
in_turn (Command.referee_rob_piece acting _ _ _) team active = is_active acting active
in_turn (Command.referee_request_tb acting _ _ _) team active = side_valid acting
in_turn (Command.referee_respond_tb_request acting _ _ _) team active = side_valid acting
in_turn _ team active = true

module _ (user : User) (room : Room) (red blue : Option Team) where
  -- The user's roles and the room's assignments back the engine actor.
  abbrev pub backs_role : Capability → Option TeamSide → Bool
  backs_role Capability.referee none = has_role user UserRole.admin || is_assigned_referee user room
  backs_role Capability.strategist (some side) =
      has_role user UserRole.strategist
      && holds (λ team. team.strategist_id) red blue user.online_id side
  backs_role Capability.captain (some side) =
      holds (λ team. team.leader_id) red blue user.online_id side
  backs_role _ _ = false

  -- What the authorization promises of the engine actor.
  abbrev Backed : Capability → Actor → Type 0
  Backed capability actor =
      (actor.capability ≡ capability)
      × (backs_role actor.capability actor.team ≡ true)
      × (actor.admin_override ≡ false)

  referee_for_command-Backed :
      (c : Command) {r : Actor × Bool × Bool}
      → referee_for_command user room c ≡ done r
      → Backed Capability.referee r.0
  unfolding referee_for_command referee_actor
  referee_for_command-Backed c {r} h = ground arith

  strategist_for_command-Backed :
      {r : Actor × Bool × Bool}
      → strategist_for_command user red blue ≡ done r
      → Backed Capability.strategist r.0
  unfolding strategist_for_command assigned_strategist_side strategist_side side_by_assignment
      engine_team_side strategist_actor
  strategist_for_command-Backed {r} h = ground arith

  captain_for_command-Backed :
      {r : Actor × Bool × Bool}
      → captain_for_command user red blue ≡ done r
      → Backed Capability.captain r.0
  unfolding captain_for_command assigned_captain_side captain_side side_by_assignment
      engine_team_side captain_actor
  captain_for_command-Backed {r} h = ground arith

  -- The three branches of actorForCommand that do not fail, one for each class.
  actor_for_command-branch :
      (c : Command) {r : Actor × Bool × Bool}
      → actor_for_command user room red blue c ≡ done r
      → ((issuer c ≡ Capability.referee) × (referee_for_command user room c ≡ done r))
        ⊎ ((issuer c ≡ Capability.strategist) × (strategist_for_command user red blue ≡ done r))
        ⊎ ((issuer c ≡ Capability.captain) × (captain_for_command user red blue ≡ done r))
  unfolding actor_for_command is_referee_command is_referee_proxy_command is_strategist_command
      is_captain_command
  actor_for_command-branch c {r} h = ground arith

  -- The engine actor that a user is given for a command has the capability that the tables ask of the
  -- command, is backed by the user's roles and assignments, and has no admin override of its own.
  pub actor_for_command-backs_role :
      (c : Command) {actor : Actor} {admin override : Bool}
      → actor_for_command user room red blue c ≡ done (actor, admin, override)
      → (actor.capability ≡ issuer c)
        × (backs_role actor.capability actor.team ≡ true)
        × (actor.admin_override ≡ false)
  actor_for_command-backs_role c {actor} {admin} {override} h =
      elim (actor_for_command-branch c h) [
        | inl (class, e) ↦ rw class (referee_for_command-Backed c e)
        | inr (inl (class, e)) ↦ rw class (strategist_for_command-Backed e)
        | inr (inr (class, e)) ↦ rw class (captain_for_command-Backed e)
      ]

  backed-may_issue :
      (c : Command) (active : TeamSide) (actor : Actor)
      → actor.capability ≡ issuer c
      → backs_role actor.capability actor.team ≡ true
      → may_issue c actor active ≡ in_turn c actor.team active
  backed-may_issue c active actor capability backed = ground arith

  -- For the engine actor that a user is given for a command, the engine's tables ask no more than that
  -- the command is in turn: nobody who passes the authorization lacks the authority in the engine.
  pub actor_for_command-may_issue :
      (c : Command) (active : TeamSide) {actor : Actor} {admin override : Bool}
      → actor_for_command user room red blue c ≡ done (actor, admin, override)
      → may_issue c actor active ≡ in_turn c actor.team active
  actor_for_command-may_issue c active {actor} {admin} {override} h =
      let (capability, backed, plain) = actor_for_command-backs_role c h in
      backed-may_issue c active actor capability backed
