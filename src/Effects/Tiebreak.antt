-- ===== src/Effects/Tiebreak.antt =====
-- The tiebreaker and surrender commands.
use rct_hub_backend.Base.{◌≡◌, ◌⊎◌, List, Text, none, some, true, arith, Bool, get_or}
use rct_hub_backend.Model.Kinds.{TeamSide, Phase, TbBasis, ResultReason, team_side_Eq}
use rct_hub_backend.Model.Errors.{ok}
use rct_hub_backend.Model.Timer.{Time, zero_timer}
use rct_hub_backend.Model.State.{State, Actor, PlayerId, side_valid, opponent}
use rct_hub_backend.Model.Events.{Event}
use rct_hub_backend.Engine.Terminal.{finish_match, won_result}
use rct_hub_backend.Engine.Tiebreak.{
  request_tb, respond_tb_request, start_tb, confirm_tb_result, record_surrender,
  validate_surrender_evidence, zero_roster,
}

module _ (s : State) (actor : Actor) {r : State × List Event} where
  pub request_tb-effect :
      (id : Text) (basis : TbBasis)
      → request_tb s actor id basis ≡ ok r
      → r.0 ≡ record s { pending_tb_request = r.0.pending_tb_request }
  unfolding request_tb
  request_tb-effect id basis h = ground arith

  pub respond_tb_request-effect :
      (id : Text) (accept : Bool) (now : Time)
      → respond_tb_request s actor id accept now ≡ ok r
      → (r.0 ≡ record s { pending_tb_request = none })
        ⊎ (r.0 ≡ record s {
          pending_tb_request = none;
          phase = Phase.tb_preparation;
          active_team = TeamSide.unset;
          tb_entry = r.0.tb_entry;
          timer = r.0.timer;
        })
  unfolding respond_tb_request
  respond_tb_request-effect id accept now h = ground arith

  pub start_tb-effect :
      (reason : Text) (now : Time)
      → start_tb s actor reason now ≡ ok r
      → r.0 ≡ record s { phase = Phase.tb_playing; timer = zero_timer }
  unfolding start_tb
  start_tb-effect reason now h = ground arith

  pub confirm_tb_result-effect :
      (team : TeamSide)
      → confirm_tb_result s actor team ≡ ok r
      → (side_valid team ≡ true) × (r.0 ≡ finish_match s team (won_result team ResultReason.tb))
  unfolding confirm_tb_result
  confirm_tb_result-effect team h = ground arith

  pub record_surrender-effect :
      (team : TeamSide) (ids : List PlayerId) (reason : Text)
      → record_surrender s actor team ids reason ≡ ok r
      → (evidence : List PlayerId) × (validate_surrender_evidence
            (get_or team s.rosters zero_roster)
            ids
          ≡ some evidence)
        × (r.0
            ≡ finish_match s
                (opponent team)
                (record (won_result (opponent team) ResultReason.surrender) {
                  surrendering_team = some team;
                  confirming_player_ids = evidence;
                }))
  unfolding record_surrender
  record_surrender-effect team ids reason h = ground arith
