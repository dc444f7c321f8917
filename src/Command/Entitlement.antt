-- ===== src/Command/Entitlement.antt =====
-- The authorization of internal/matchcommand/orchestrator.go as a whole: who gets through it.
use rct_hub_backend.Base.{◌≡◌, Bool, true, false, not, ◌&&◌, ◌||◌, Option, arith, refl, sym}
use rct_hub_backend.Base.Int.{int_Eq}
use rct_hub_backend.Model.Kinds.{team_side_Eq}
use rct_hub_backend.Model.State.{Actor}
use rct_hub_backend.Domain.Entities.{
  user_role_Eq, User, is_verified, Team, is_match_room, Room, Match, is_ready,
}
use rct_hub_backend.Command.Authority.{issuer, backs_role, actor_for_command-backs_role}
use rct_hub_backend.Command.Errors.{
  CommandError, done, ◌>>=◌, ◌>>◌, fail_if, >>=-eq-done, fail_if-eq-done, done-injective,
}
use rct_hub_backend.Command.Authorize.{
  Request, AuthorizedActor, Readers, Read, actor_for_command, is_paired, authorize_user, authorize,
  room_teams, authorized_actor, read_or, is_start,
}

-- What a user must be, and the match must be, for the authorization of a request.
pub record IsEntitled (readers : Readers) (request : Request) (a : AuthorizedActor) : Type 0 where
  pub user : User
  pub shell : Match
  pub room : Room
  pub teams : Option Team × Option Team
  pub known : readers.user_by_osu_id request.caller_osu_id ≡ Read.found user
  pub allowed : user.is_banned ≡ false
  pub verified : is_verified user.verify_status ≡ true
  pub shell_found : readers.match_by_id request.match_id ≡ Read.found shell
  pub room_found : readers.room_by_id shell.room_id ≡ Read.found room
  pub formal : (is_match_room shell.room_type && is_match_room room.room_type) ≡ true
  pub paired : is_paired room shell request.match_id ≡ true
  pub teams_found : room_teams readers room ≡ done teams
  pub starts : (is_start request.command && not (is_ready shell.status)) ≡ false
  pub capability : a.engine_actor.capability ≡ issuer request.command
  pub backed :
      backs_role user room teams.0 teams.1 a.engine_actor.capability a.engine_actor.team ≡ true
  pub plain : a.engine_actor.admin_override ≡ false
  pub recorded : (a.user_id ≡ user.id) × (a.osu_id ≡ user.online_id) × (a.global_roles ≡ user.roles)

read_or-eq-done {ℓ} :
    {A : Type ℓ} (r : Read A) (e : CommandError) {a : A} → read_or r e ≡ done a → r ≡ Read.found a
read_or-eq-done r e h = ground arith

-- The record of the facts that authorizeUser has found.
entitle :
    (readers : Readers) (request : Request) (user : User) (shell : Match) (room : Room)
    (teams : Option Team × Option Team) (actor : Actor) (admin override : Bool)
    {a : AuthorizedActor}
    → readers.user_by_osu_id request.caller_osu_id ≡ Read.found user
    → user.is_banned ≡ false
    → is_verified user.verify_status ≡ true
    → readers.match_by_id request.match_id ≡ Read.found shell
    → readers.room_by_id shell.room_id ≡ Read.found room
    → (not (is_match_room shell.room_type)
        || not (is_match_room room.room_type)
        || not (is_paired room shell request.match_id))
      ≡ false
    → room_teams readers room ≡ done teams
    → (is_start request.command && not (is_ready shell.status)) ≡ false
    → actor_for_command user room teams.0 teams.1 request.command ≡ done (actor, admin, override)
    → a ≡ authorized_actor user request actor admin override
    → IsEntitled readers request a
entitle readers request user shell room teams actor admin override {a} known allowed verified
      shell_found room_found formal teams_found starts acts result =
    let (capability, backed, plain) =
      actor_for_command-backs_role user room teams.0 teams.1 request.command acts in
    record {
      user = user;
      shell = shell;
      room = room;
      teams = teams;
      known = known;
      allowed = allowed;
      verified = verified;
      shell_found = shell_found;
      room_found = room_found;
      formal = ground arith;
      paired = ground arith;
      teams_found = teams_found;
      starts = starts;
      capability = rw result capability;
      backed = rw result backed;
      plain = rw result plain;
      recorded = rw result (refl, refl, refl);
    }

authorize_user-IsEntitled :
    (readers : Readers) (user : User) (request : Request) {a : AuthorizedActor}
    → readers.user_by_osu_id request.caller_osu_id ≡ Read.found user
    → user.is_banned ≡ false
    → is_verified user.verify_status ≡ true
    → authorize_user readers user request ≡ done a
    → IsEntitled readers request a
unfolding authorize_user
authorize_user-IsEntitled readers user request {a} known allowed verified h =
    let (shell, h₁, k₁) =
      >>=-eq-done (read_or (readers.match_by_id request.match_id) CommandError.resource_not_found) _
        h in
    let (room, h₂, k₂) =
      >>=-eq-done (read_or (readers.room_by_id shell.room_id) CommandError.resource_not_found) _
        k₁ in
    let (_, h₃, k₃) =
      >>=-eq-done
        (fail_if
          (not (is_match_room shell.room_type)
            || not (is_match_room room.room_type)
            || not (is_paired room shell request.match_id))
          CommandError.resource_not_found)
        _ k₂ in
    let (teams, h₄, k₄) = >>=-eq-done (room_teams readers room) _ k₃ in
    let (_, h₅, k₅) =
      >>=-eq-done
        (fail_if (is_start request.command && not (is_ready shell.status))
          CommandError.action_not_allowed)
        _ k₄ in
    let ((actor, admin, override), h₆, k₆) =
      >>=-eq-done (actor_for_command user room teams.0 teams.1 request.command) _ k₅ in
    entitle readers request user shell room teams actor admin override known allowed verified
      (read_or-eq-done _ _ h₁) (read_or-eq-done _ _ h₂) (fail_if-eq-done _ _ h₃) h₄
      (fail_if-eq-done _ _ h₅) h₆ (done-injective (sym k₆))

-- A human caller whose request is authorized is a known user, not banned and verified; the match is the
-- one of a formal room that names it, and is ready if the request starts it; and the engine actor is
-- what the tables ask of the command and what the user's roles and the room's teams back.
pub authorize-IsEntitled :
    (readers : Readers) (request : Request) {a : AuthorizedActor}
    → request.system ≡ false
    → authorize readers request ≡ done a
    → IsEntitled readers request a
unfolding authorize
authorize-IsEntitled readers request {a} human h =
    let h₀ : (read_or (readers.user_by_osu_id request.caller_osu_id) CommandError.auth_required
          >>= λ user.
              fail_if user.is_banned CommandError.user_banned
              >> (fail_if (not (is_verified user.verify_status)) CommandError.user_not_verified
                  >> authorize_user readers user request))
        ≡ done a =
      ground arith in
    let (user, h₁, k₁) =
      >>=-eq-done
        (read_or (readers.user_by_osu_id request.caller_osu_id) CommandError.auth_required) _ h₀ in
    let (_, h₂, k₂) = >>=-eq-done (fail_if user.is_banned CommandError.user_banned) _ k₁ in
    let (_, h₃, k₃) =
      >>=-eq-done (fail_if (not (is_verified user.verify_status)) CommandError.user_not_verified) _
        k₂ in
    authorize_user-IsEntitled readers user request (read_or-eq-done _ _ h₁) (fail_if-eq-done _ _ h₂)
      (ground (arith, fail_if-eq-done _ _ h₃)) k₃
