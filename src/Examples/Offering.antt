-- ===== src/Examples/Offering.antt =====
-- The theorems on what actors are offered, each at one input.
use rct_hub_backend.Base.{◌≡◌, refl, true, false, codes, contains, text_Eq, arith}
use rct_hub_backend.Model.Kinds.{TeamSide}
use rct_hub_backend.Model.State.{strategist_actor, referee_actor}
use rct_hub_backend.Model.Events.{Command}
use rct_hub_backend.Engine.Rules.{missing_reason}
use rct_hub_backend.Engine.Execute.{execute}
use rct_hub_backend.Engine.Availability.{Action, analyze_for_actor}
use rct_hub_backend.Validation.{valid_lifecycle_data}
use rct_hub_backend.Sets.{distinct}
use rct_hub_backend.Offers.{
  action_Eq, accepts, plain_command, is_accepted, analyze_for_actor-accepts,
}
use rct_hub_backend.Bans.{pool_keys, analyze_for_actor-ban_pool_slot}
use rct_hub_backend.Examples.Fixture.{started}
use rct_hub_backend.Examples.Steps.{instant, later_than_zero}

started-data : valid_lifecycle_data started started.lifecycle ≡ true
unfolding valid_lifecycle_data
started-data = refl

reason-given : missing_reason (codes "rain") ≡ false
unfolding missing_reason rct_hub_backend.Base.is_blank
reason-given = refl

started-abort :
    contains Action.abort_match (analyze_for_actor started referee_actor instant).allowed_actions
    ≡ true
unfolding analyze_for_actor contains referee_actor
    rct_hub_backend.Engine.Availability.analyze_referee
    rct_hub_backend.Engine.Availability.referee_phase
started-abort = refl

started-keys : distinct (pool_keys started.pool_slots) ≡ true
unfolding distinct contains rct_hub_backend.Base.text_eq
started-keys = refl

analyze_for_actor-accepts_example :
    accepts started instant (plain_command Action.abort_match (codes "rain")) ≡ true
analyze_for_actor-accepts_example =
    analyze_for_actor-accepts started instant (codes "rain") Action.abort_match later_than_zero
      started-data reason-given refl started-abort

analyze_for_actor-ban_pool_slot_example :
    contains
      (codes "NM1")
      (analyze_for_actor started (strategist_actor TeamSide.red) instant).ban_pool_slot_ids
    ≡ is_accepted (
        execute started
          (strategist_actor TeamSide.red)
          (Command.ban_pool_slot (codes "NM1"))
          instant)
analyze_for_actor-ban_pool_slot_example =
    analyze_for_actor-ban_pool_slot started TeamSide.red instant (codes "NM1") refl later_than_zero
      started-keys
