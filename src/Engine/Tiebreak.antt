-- ===== src/Engine/Tiebreak.antt =====
-- The tiebreaker and surrender commands of internal/matchengine/engine.go.
use rct_hub_backend.Base.{
  Bool, not, ◌&&◌, ◌||◌, Text, List, [], ◌∷◌, ◌++◌, Option, none, some, get_or, contains, length,
  leb, if◌then◌else◌, is_some, is_empty, ◌==◌, text_Eq,
}
use rct_hub_backend.Base.Int.{ℤ, pos, ltb_ℤ, leb_ℤ, int_Eq}
use rct_hub_backend.Model.Kinds.{
  TeamSide, Lifecycle, Phase, TbBasis, ResultReason, Capability, team_side_Eq, lifecycle_Eq,
  tb_basis_Eq, capability_Eq,
}
use rct_hub_backend.Model.Errors.{ErrorCode, Fallible, ok, err, ◌>>=◌, ◌>>◌, fail_if}
use rct_hub_backend.Model.Timer.{Time, zero_timer, running_timer, expired}
use rct_hub_backend.Model.State.{
  PlayerId, Roster, TbRequestState, State, Actor, side_valid, opponent,
}
use rct_hub_backend.Model.Events.{EventType, Event, event, team_event, reason_event}
use rct_hub_backend.Engine.Rules.{Step, missing_reason, require_running_phase}
use rct_hub_backend.Engine.Terminal.{finish_match, won_result}

-- The team of a captain that is identified.
unfoldable pub require_captain : Actor → Fallible TeamSide
require_captain actor = elim actor.team [
  | none ↦ err ErrorCode.action_not_allowed
  | some team ↦
      if actor.capability == Capability.captain && side_valid team
      then ok team
      else err ErrorCode.action_not_allowed
]

-- state.Turn >= 11 && state.Turn <= 14
abbrev pub in_tb_window : ℤ → Bool
in_tb_window turn = leb_ℤ (pos 11) turn && leb_ℤ turn (pos 14)

unfoldable pub request_tb : State → Actor → Text → TbBasis → Step
unfolding require_running_phase require_captain
request_tb s actor request_id basis = do
  require_running_phase s Phase.pick
  team ← require_captain actor
  fail_if s.timer.paused ErrorCode.timer_paused
  fail_if (is_empty request_id) ErrorCode.invalid_request
  fail_if (is_some s.pending_tb_request) ErrorCode.tb_not_available
  fail_if (not (basis == TbBasis.captain_agreement && in_tb_window s.turn))
      ErrorCode.tb_not_available
  ok (
    record s {
      pending_tb_request = some (record { id = request_id; requested_by = team; basis = basis });
    },
    record (team_event EventType.tb_requested team) { request_id = request_id; basis = basis } ∷ [],
  )

-- The pending request that a response names.
unfoldable pub require_request : Option TbRequestState → Text → Fallible TbRequestState
require_request none request_id = err ErrorCode.tb_not_available
require_request (some pending) request_id =
    if is_empty request_id || not (request_id == pending.id)
    then err ErrorCode.tb_not_available
    else ok pending

unfoldable pub accept_tb : State → TbRequestState → TeamSide → Time → State × List Event
accept_tb s pending team now = (
  record s {
    pending_tb_request = none;
    phase = Phase.tb_preparation;
    active_team = TeamSide.unset;
    tb_entry = some (record {
      basis = pending.basis;
      request_id = pending.id;
      requested_by = pending.requested_by;
    });
    timer = running_timer now s.timers.tb_preparation;
  },
  record (team_event EventType.tb_request_accepted team) {
    request_id = pending.id;
    basis = pending.basis;
  }
      ∷ record (event EventType.tb_preparation_started) {
        request_id = pending.id;
        basis = pending.basis;
      }
      ∷ event EventType.timer_started
      ∷ [],
)

unfoldable pub respond_tb_request : State → Actor → Text → Bool → Time → Step
unfolding require_running_phase require_captain require_request accept_tb
respond_tb_request s actor request_id accept now = do
  require_running_phase s Phase.pick
  team ← require_captain actor
  fail_if s.timer.paused ErrorCode.timer_paused
  fail_if (ltb_ℤ s.turn (pos 11) || ltb_ℤ (pos 14) s.turn) ErrorCode.tb_not_available
  pending ← require_request s.pending_tb_request request_id
  fail_if (team == pending.requested_by) ErrorCode.action_not_allowed
  ok (
      if accept then accept_tb s pending team now else (
        record s { pending_tb_request = none },
        record (team_event EventType.tb_request_rejected team) {
          request_id = pending.id;
          basis = pending.basis;
        }
            ∷ [],
      ))

unfoldable pub start_tb : State → Actor → Text → Time → Step
unfolding require_running_phase
start_tb s actor reason now = do
  require_running_phase s Phase.tb_preparation
  fail_if (not (actor.capability == Capability.referee)) ErrorCode.action_not_allowed
  fail_if s.timer.paused ErrorCode.timer_paused
  fail_if (expired s.timer now && missing_reason reason) ErrorCode.invalid_request
  ok (
    record s { phase = Phase.tb_playing; timer = zero_timer },
    reason_event EventType.tb_started reason ∷ event EventType.timer_stopped ∷ [],
  )

unfoldable pub confirm_tb_result : State → Actor → TeamSide → Step
unfolding require_running_phase finish_match
confirm_tb_result s actor winning_team = do
  require_running_phase s Phase.tb_playing
  fail_if (not (actor.capability == Capability.referee)) ErrorCode.action_not_allowed
  fail_if (not (side_valid winning_team)) ErrorCode.invalid_request
  ok (
    finish_match s winning_team (won_result winning_team ResultReason.tb),
    team_event EventType.tb_result_confirmed winning_team
        ∷ team_event EventType.match_finished winning_team
        ∷ [],
  )

-- The loop of validateSurrenderEvidence. `unique` holds what the map `seen` holds; `none` is the
-- early return for a player who is not on the roster.
unfoldable pub collect_evidence :
    (rostered submitted unique : List PlayerId) → Option (List PlayerId)
collect_evidence rostered [] unique = some unique
collect_evidence rostered (id ∷ submitted) unique =
    let rest =
      collect_evidence rostered submitted
        (if contains id unique then unique else unique ++ id ∷ []) in
    if contains id rostered then rest else none

-- `none` where the second result of validateSurrenderEvidence is false.
unfoldable pub validate_surrender_evidence : Roster → List PlayerId → Option (List PlayerId)
validate_surrender_evidence roster submitted =
    elim (collect_evidence (roster.leader_id ∷ roster.player_ids) submitted []) [
      | none ↦ none
      | some unique ↦
          if leb 4 (length unique) && contains roster.leader_id unique then some unique else none
    ]

abbrev pub zero_roster : Roster
zero_roster = record { leader_id = pos 0; player_ids = [] }

unfoldable pub record_surrender : State → Actor → TeamSide → List PlayerId → Text → Step
unfolding finish_match
record_surrender s actor surrendering confirming reason = do
  fail_if (not (s.lifecycle == Lifecycle.running || s.lifecycle == Lifecycle.suspended))
      ErrorCode.match_lifecycle_conflict
  fail_if (not (actor.capability == Capability.referee)) ErrorCode.action_not_allowed
  fail_if (not (side_valid surrendering) || missing_reason reason) ErrorCode.invalid_request
  let checked = validate_surrender_evidence (get_or surrendering s.rosters zero_roster) confirming
  evidence ← elim checked [
    | none ↦ err ErrorCode.surrender_evidence_invalid
    | some unique ↦ ok unique
  ]
  let winner = opponent surrendering
  ok (
    finish_match s winner (record (won_result winner ResultReason.surrender) {
      surrendering_team = some surrendering;
      confirming_player_ids = evidence;
    }),
    record (team_event EventType.surrender_recorded surrendering) {
      player_ids = evidence;
      reason = reason;
    }
        ∷ team_event EventType.match_finished winner
        ∷ [],
  )
