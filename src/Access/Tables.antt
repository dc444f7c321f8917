-- ===== src/Access/Tables.antt =====
-- The tables of internal/matchengine/README.md: for each command the lifecycles, phases, actors and
-- timers with which it can be accepted; RecordSurrender stands with the suspended matches too, as in
-- the code. They do not follow the code's order of checks.
use rct_hub_backend.Base.{◌≡◌, Bool, true, false, not, ◌&&◌, ◌||◌, ◌==◌, none, some}
use rct_hub_backend.Model.Kinds.{
  TeamSide, Lifecycle, Phase, Capability, team_side_Eq, capability_Eq,
}
use rct_hub_backend.Model.Timer.{Time, Timer, expired}
use rct_hub_backend.Model.State.{State, Actor, side_valid}
use rct_hub_backend.Model.Events.{Command}

abbrev pub admits : Lifecycle → Command → Bool
admits Lifecycle.ready Command.start_match = true
admits Lifecycle.running Command.start_match = false
admits Lifecycle.running (Command.resume_match _) = false
admits Lifecycle.running Command.unsupported = false
admits Lifecycle.running _ = true
admits Lifecycle.suspended (Command.resume_match _) = true
admits Lifecycle.suspended (Command.skip_current_action _) = true
admits Lifecycle.suspended (Command.abort_match _) = true
admits Lifecycle.suspended (Command.record_surrender _ _ _) = true
admits _ _ = false

abbrev pub is_ban : Phase → Bool
is_ban Phase.ban = true
is_ban _ = false

abbrev pub is_pick : Phase → Bool
is_pick Phase.pick = true
is_pick _ = false

abbrev pub is_waiting : Phase → Bool
is_waiting Phase.waiting_for_result = true
is_waiting _ = false

abbrev pub is_tb_preparation : Phase → Bool
is_tb_preparation Phase.tb_preparation = true
is_tb_preparation _ = false

abbrev pub is_tb_playing : Phase → Bool
is_tb_playing Phase.tb_playing = true
is_tb_playing _ = false

abbrev pub is_active_phase : Phase → Bool
is_active_phase Phase.none = false
is_active_phase _ = true

abbrev pub fits_phase : Command → Phase → Bool
fits_phase (Command.ban_pool_slot _) p = is_ban p
fits_phase (Command.referee_ban_pool_slot _ _ _) p = is_ban p
fits_phase (Command.place_piece _ _ _) p = is_pick p
fits_phase (Command.referee_place_piece _ _ _ _ _) p = is_pick p
fits_phase (Command.place_shiro _ _) p = is_pick p
fits_phase (Command.referee_place_shiro _ _ _ _) p = is_pick p
fits_phase (Command.rob_piece _ _) p = is_pick p
fits_phase (Command.referee_rob_piece _ _ _ _) p = is_pick p
fits_phase (Command.request_tb _ _) p = is_pick p
fits_phase (Command.referee_request_tb _ _ _ _) p = is_pick p
fits_phase (Command.respond_tb_request _ _) p = is_pick p
fits_phase (Command.referee_respond_tb_request _ _ _ _) p = is_pick p
fits_phase (Command.confirm_beatmap_result _ _) p = is_waiting p
fits_phase (Command.grant_additional_time _) p = is_ban p || is_pick p || is_waiting p
fits_phase (Command.skip_current_action _) p = is_ban p || is_pick p
fits_phase (Command.start_tb _) p = is_tb_preparation p
fits_phase (Command.confirm_tb_result _) p = is_tb_playing p
fits_phase (Command.calibrate_timer _ _) p = is_active_phase p
fits_phase (Command.pause_timer _) p = is_active_phase p
fits_phase (Command.resume_timer _) p = is_active_phase p
fits_phase _ p = true

abbrev pub is_referee : Actor → Bool
is_referee actor = actor.capability == Capability.referee

-- A competitive side, and the side to move.
abbrev pub is_active : TeamSide → TeamSide → Bool
is_active team active = side_valid team && team == active

abbrev pub leads_with : Capability → Actor → (TeamSide → Bool) → Bool
leads_with capability actor test =
    actor.capability == capability && elim actor.team [ none ↦ false | some team ↦ test team ]

abbrev pub may_issue : Command → Actor → TeamSide → Bool
may_issue Command.start_match actor active = is_referee actor || actor.admin_override
may_issue (Command.ban_pool_slot _) actor active =
    leads_with Capability.strategist actor (λ team. is_active team active)
may_issue (Command.place_piece _ _ _) actor active =
    leads_with Capability.strategist actor (λ team. is_active team active)
may_issue (Command.place_shiro _ _) actor active =
    leads_with Capability.strategist actor (λ team. is_active team active)
may_issue (Command.rob_piece _ _) actor active =
    leads_with Capability.strategist actor (λ team. is_active team active)
may_issue (Command.request_tb _ _) actor active = leads_with Capability.captain actor side_valid
may_issue (Command.respond_tb_request _ _) actor active =
    leads_with Capability.captain actor side_valid
may_issue (Command.referee_ban_pool_slot team _ _) actor active =
    is_referee actor && is_active team active
may_issue (Command.referee_place_piece team _ _ _ _) actor active =
    is_referee actor && is_active team active
may_issue (Command.referee_place_shiro team _ _ _) actor active =
    is_referee actor && is_active team active
may_issue (Command.referee_rob_piece team _ _ _) actor active =
    is_referee actor && is_active team active
may_issue (Command.referee_request_tb team _ _ _) actor active = is_referee actor && side_valid team
may_issue (Command.referee_respond_tb_request team _ _ _) actor active =
    is_referee actor && side_valid team
may_issue _ actor active = is_referee actor

-- A strategist acts while the timer runs; a proxy acts also after its end, and a captain and the
-- start of the tiebreaker want only that it is not paused. Additional time is for an expired timer.
abbrev pub in_time : Command → Timer → Time → Bool
in_time (Command.ban_pool_slot _) t now = not t.paused && not (expired t now)
in_time (Command.place_piece _ _ _) t now = not t.paused && not (expired t now)
in_time (Command.place_shiro _ _) t now = not t.paused && not (expired t now)
in_time (Command.rob_piece _ _) t now = not t.paused && not (expired t now)
in_time (Command.referee_ban_pool_slot _ _ _) t now = not t.paused
in_time (Command.referee_place_piece _ _ _ _ _) t now = not t.paused
in_time (Command.referee_place_shiro _ _ _ _) t now = not t.paused
in_time (Command.referee_rob_piece _ _ _ _) t now = not t.paused
in_time (Command.request_tb _ _) t now = not t.paused
in_time (Command.referee_request_tb _ _ _ _) t now = not t.paused
in_time (Command.respond_tb_request _ _) t now = not t.paused
in_time (Command.referee_respond_tb_request _ _ _ _) t now = not t.paused
in_time (Command.start_tb _) t now = not t.paused
in_time (Command.pause_timer _) t now = not t.paused
in_time (Command.resume_timer _) t now = t.paused
in_time (Command.grant_additional_time _) t now = expired t now
in_time _ t now = true

-- What is true of every accepted command.
pub record IsAllowed (s : State) (actor : Actor) (c : Command) (now : Time) : Type 0 where
  pub lifecycle : admits s.lifecycle c ≡ true
  pub phase : fits_phase c s.phase ≡ true
  pub authority : may_issue c actor s.active_team ≡ true
  pub time : in_time c s.timer now ≡ true
