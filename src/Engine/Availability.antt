-- ===== src/Engine/Availability.antt =====
-- AnalyzeForActor of internal/matchengine/availability.go: what an actor may do at an instant.
use rct_hub_backend.Base.{
  Bool, true, false, not, ◌&&◌, ◌||◌, Text, List, [], ◌∷◌, ◌++◌, Option, none, some, Map, get_or,
  keep, sort_texts, if◌then◌else◌, ◌==◌, text_Eq, nat_Eq,
}
use rct_hub_backend.Base.Int.{pos, ltb_ℤ}
use rct_hub_backend.Model.Kinds.{
  TeamSide, Lifecycle, Phase, Mod, PoolSlotState, Capability, team_side_Eq, lifecycle_Eq, phase_Eq,
  mod_Eq, pool_slot_state_Eq, capability_Eq,
}
use rct_hub_backend.Model.Timer.{Time, expired}
use rct_hub_backend.Model.State.{Cell, PoolSlot, State, Actor, TbRequestState, side_valid, opponent}
use rct_hub_backend.Engine.Analysis.{PlacementOption, analyze, zero_slot}
use rct_hub_backend.Engine.Tiebreak.{in_tb_window}
use rct_hub_backend.Engine.Plans.{RobberyPlan, robbery_plans}

pub data Action : Type 0 where
  start_match ban_pool_slot place_piece place_shiro rob_piece confirm_result grant_additional_time
        calibrate_timer pause_timer resume_timer suspend_match resume_match skip_current_action
        abort_match request_tb respond_tb_request start_tb confirm_tb_result record_surrender :
      Action

pub record ActorAnalysis : Type 0 where
  pub allowed_actions : List Action
  pub ban_pool_slot_ids : List Text
  pub legal_placements : List PlacementOption
  pub shiro_cells : List Cell
  pub robbery_plans : List RobberyPlan
  pub pending_tb_request_id : Text
  pub can_accept_tb_request : Bool
  pub can_reject_tb_request : Bool
  pub tb_request_teams : List TeamSide
  pub tb_response_teams : List TeamSide

abbrev pub no_analysis : ActorAnalysis
no_analysis = record {
  allowed_actions = [];
  ban_pool_slot_ids = [];
  legal_placements = [];
  shiro_cells = [];
  robbery_plans = [];
  pending_tb_request_id = [];
  can_accept_tb_request = false;
  can_reject_tb_request = false;
  tb_request_teams = [];
  tb_response_teams = [];
}

-- if test { actions = append(actions, action) }
abbrev pub offer : Bool → Action → List Action
offer test action = if test then action ∷ [] else []

unfoldable pub shiro_available : Map Text PoolSlot → Bool
shiro_available [] = false
shiro_available ((_, slot) ∷ m) =
    (slot.slot_mod == Mod.shiro && slot.state == PoolSlotState.available) || shiro_available m

abbrev pub is_bannable : PoolSlot → Bool
is_bannable slot =
    slot.state == PoolSlotState.available
    && not (slot.slot_mod == Mod.shiro)
    && not (slot.slot_mod == Mod.tb)

-- The keys in the map's order; sort.Strings puts them in order.
unfoldable pub bannable_ids : Map Text PoolSlot → List Text
bannable_ids [] = []
bannable_ids ((id, slot) ∷ m) =
    let rest = bannable_ids m in if is_bannable slot then id ∷ rest else rest

abbrev pub has_some {ℓ} : {A : Type ℓ} → List A → Bool
has_some [] = false
has_some (_ ∷ _) = true

-- The placements that are not of the Shiro.
abbrev pub is_plain : Map Text PoolSlot → PlacementOption → Bool
is_plain pool option = not ((get_or option.pool_slot_id pool zero_slot).slot_mod == Mod.shiro)

unfoldable pub plain_placements : State → List PlacementOption
plain_placements s = keep (is_plain s.pool_slots) (analyze s).legal_placements

unfoldable pub shiro_cells_of : State → List Cell
shiro_cells_of s = if shiro_available s.pool_slots then (analyze s).empty_cells else []

-- What the pick phase adds for strategists and referees alike.
abbrev pub pick_actions : List PlacementOption → List Cell → List RobberyPlan → List Action
pick_actions placements cells plans =
    offer (has_some placements) Action.place_piece
    ++ offer (has_some cells) Action.place_shiro
    ++ offer (has_some plans) Action.rob_piece

unfoldable pub analyze_strategist : State → TeamSide → Time → ActorAnalysis
analyze_strategist s team now =
    let ids = sort_texts (bannable_ids s.pool_slots) in
    let placements = plain_placements s in
    let cells = shiro_cells_of s in
    let plans = robbery_plans s team in
    if not (s.lifecycle == Lifecycle.running)
      || not (s.active_team == team)
      || s.timer.paused
      || expired s.timer now
    then no_analysis
    else if s.phase == Phase.ban
    then record no_analysis {
      ban_pool_slot_ids = ids;
      allowed_actions = offer (has_some ids) Action.ban_pool_slot;
    }
    else if s.phase == Phase.pick
    then record no_analysis {
      legal_placements = placements;
      shiro_cells = cells;
      robbery_plans = plans;
      allowed_actions = pick_actions placements cells plans;
    }
    else no_analysis

-- A captain without a pending request, and with one of a team.
unfoldable pub answer_request : Option TbRequestState → TeamSide → ActorAnalysis
answer_request none team = record no_analysis { allowed_actions = Action.request_tb ∷ [] }
answer_request (some pending) team =
    if pending.requested_by == team then no_analysis else record no_analysis {
      pending_tb_request_id = pending.id;
      can_accept_tb_request = true;
      can_reject_tb_request = true;
      allowed_actions = Action.respond_tb_request ∷ [];
    }

unfoldable pub analyze_captain : State → TeamSide → ActorAnalysis
analyze_captain s team =
    if not (s.lifecycle == Lifecycle.running)
      || not (s.phase == Phase.pick)
      || s.timer.paused
      || not (in_tb_window s.turn)
    then no_analysis
    else answer_request s.pending_tb_request team

abbrev pub is_ban_or_pick : Phase → Bool
is_ban_or_pick phase = phase == Phase.ban || phase == Phase.pick

-- The actions on the timer of a running match.
unfoldable pub timer_actions : State → Time → List Action
timer_actions s now =
    if s.timer.paused
    then Action.resume_timer ∷ Action.calibrate_timer ∷ []
    else if ltb_ℤ (pos 0) s.timer.duration
    then Action.pause_timer
        ∷ Action.calibrate_timer
        ∷ offer
            (expired s.timer now
              && (is_ban_or_pick s.phase || s.phase == Phase.waiting_for_result)
              && side_valid s.active_team
              && not (get_or s.active_team s.team_pause_used false))
            Action.grant_additional_time
      ++ offer (expired s.timer now && is_ban_or_pick s.phase) Action.skip_current_action
    else []

-- The tiebreaker requests of the pick phase.
unfoldable pub tb_analysis : State → ActorAnalysis → ActorAnalysis
tb_analysis s r =
    if not s.timer.paused && in_tb_window s.turn
    then elim s.pending_tb_request [
      | none ↦ record r {
        allowed_actions = r.allowed_actions ++ Action.request_tb ∷ [];
        tb_request_teams = TeamSide.red ∷ TeamSide.blue ∷ [];
      }
      | some pending ↦ record r {
        allowed_actions = r.allowed_actions ++ Action.respond_tb_request ∷ [];
        pending_tb_request_id = pending.id;
        can_accept_tb_request = true;
        can_reject_tb_request = true;
        tb_response_teams = opponent pending.requested_by ∷ [];
      }
    ]
    else r

-- The switch on the phase, for a running match, with the actions so far.
unfoldable pub referee_phase : State → List Action → ActorAnalysis
referee_phase s actions =
    let ids = sort_texts (bannable_ids s.pool_slots) in
    let placements = plain_placements s in
    let cells = shiro_cells_of s in
    let plans = robbery_plans s TeamSide.red ++ robbery_plans s TeamSide.blue in
    let pick = tb_analysis s (record no_analysis {
      legal_placements = placements;
      shiro_cells = cells;
      robbery_plans = plans;
      allowed_actions = actions ++ pick_actions placements cells plans;
    }) in
    let plain = λ (more : List Action). record no_analysis { allowed_actions = actions ++ more } in
    elim s.phase [
      | Phase.ban ↦ if s.timer.paused then plain [] else record no_analysis {
        ban_pool_slot_ids = ids;
        allowed_actions = actions ++ offer (has_some ids) Action.ban_pool_slot;
      }
      | Phase.pick ↦ if s.timer.paused then plain [] else pick
      | Phase.waiting_for_result ↦ plain (Action.confirm_result ∷ [])
      | Phase.tb_preparation ↦ plain (offer (not s.timer.paused) Action.start_tb)
      | Phase.tb_playing ↦ plain (Action.confirm_tb_result ∷ [])
      | _ ↦ plain []
    ]

unfoldable pub analyze_referee : State → Time → ActorAnalysis
analyze_referee s now =
    let running =
      referee_phase s (
        Action.suspend_match
        ∷ Action.abort_match
        ∷ Action.record_surrender
        ∷ timer_actions s now) in
    elim s.lifecycle [
      | Lifecycle.ready ↦ record no_analysis { allowed_actions = Action.start_match ∷ [] }
      | Lifecycle.suspended ↦ record no_analysis {
        allowed_actions =
            Action.resume_match
            ∷ Action.abort_match
            ∷ Action.record_surrender
            ∷ offer (is_ban_or_pick s.phase) Action.skip_current_action;
      }
      | Lifecycle.running ↦ running
      | _ ↦ no_analysis
    ]

-- The switch on the capability, for an actor with a competitive team.
unfoldable pub analyze_team : State → Capability → TeamSide → Time → ActorAnalysis
analyze_team s Capability.strategist team now = analyze_strategist s team now
analyze_team s Capability.captain team now = analyze_captain s team
analyze_team s _ team now = no_analysis

unfoldable pub analyze_for_actor : State → Actor → Time → ActorAnalysis
analyze_for_actor s actor now =
    let referee = analyze_referee s now in
    if now == 0
    then no_analysis
    else if actor.capability == Capability.referee
    then referee
    else elim actor.team [
      | none ↦ no_analysis
      | some team ↦
          if side_valid team then analyze_team s actor.capability team now else no_analysis
    ]
