-- ===== src/Validation/Evidence.antt =====
-- validateRecoveryEvidence and validateTBEntryEvidence.
use rct_hub_backend.Base.{
  Bool, true, false, not, ◌&&◌, ◌||◌, List, [], ◌∷◌, Option, none, some, get_or, ltb, is_some,
  is_empty, is_blank, if◌then◌else◌, ◌==◌, nat_Eq,
}
use rct_hub_backend.Model.Kinds.{
  TeamSide, Lifecycle, Phase, TbBasis, ResultReason, team_side_Eq, lifecycle_Eq, phase_Eq,
  tb_basis_Eq,
}
use rct_hub_backend.Model.Timer.{zero_time}
use rct_hub_backend.Model.State.{
  TbEntryState, MatchResult, StalemateEvidence, SuspensionState, State, side_valid, opponent,
}
use rct_hub_backend.Board.{has_four}
use rct_hub_backend.Engine.Analysis.{analyze}
use rct_hub_backend.Engine.Terminal.{forced_tb_requirements_met}
use rct_hub_backend.Engine.Tiebreak.{in_tb_window, validate_surrender_evidence, zero_roster}

abbrev pub is_live : Lifecycle → Bool
is_live l = l == Lifecycle.running || l == Lifecycle.suspended

abbrev pub is_tb_phase : Phase → Bool
is_tb_phase p = p == Phase.tb_preparation || p == Phase.tb_playing

unfoldable pub valid_pending_request : State → Bool
valid_pending_request s = elim s.pending_tb_request [
  | none ↦ true
  | some pending ↦
      is_live s.lifecycle
      && s.phase == Phase.pick
      && not (is_empty pending.id)
      && side_valid pending.requested_by
      && pending.basis == TbBasis.captain_agreement
      && in_tb_window s.turn
      && not (is_some s.tb_entry)
]

-- The switch on the basis.
unfoldable pub valid_tb_basis : State → TbEntryState → TbBasis → Bool
valid_tb_basis s entry TbBasis.captain_agreement =
    not (is_empty entry.request_id) && side_valid entry.requested_by && in_tb_window s.turn
valid_tb_basis s entry TbBasis.forced_after_robbery_checks =
    is_empty entry.request_id
    && entry.requested_by == TeamSide.unset
    && forced_tb_requirements_met s
valid_tb_basis s entry _ = false

unfoldable pub validate_tb_entry_evidence : State → Bool
validate_tb_entry_evidence s = elim s.tb_entry [
  | none ↦
      not (is_live s.lifecycle && s.phase == Phase.pick && forced_tb_requirements_met s)
      && not (is_tb_phase s.phase)
  | some entry ↦
      not (is_some s.pending_tb_request)
      && not (s.lifecycle == Lifecycle.ready || s.lifecycle == Lifecycle.adjudication_required)
      && not (is_live s.lifecycle && not (is_tb_phase s.phase))
      && valid_tb_basis s entry entry.basis
]

abbrev valid_suspension_evidence : Option SuspensionState → Bool
valid_suspension_evidence none = true
valid_suspension_evidence (some suspension) =
    not (is_blank suspension.reason) && not (suspension.suspended_at == zero_time)

-- The won counts are never negative in the model, so those checks always pass.
abbrev valid_adjudication : State → Option StalemateEvidence → Bool
valid_adjudication s none = false
valid_adjudication s (some evidence) =
    let analysis = analyze s in
    evidence.red_won_count == evidence.blue_won_count
    && analysis.stalemate
    && analysis.won_counts TeamSide.red == evidence.red_won_count
    && analysis.won_counts TeamSide.blue == evidence.blue_won_count

abbrev is_nil {ℓ} : {A : Type ℓ} → List A → Bool
is_nil [] = true
is_nil (_ ∷ _) = false

abbrev no_extra_evidence : MatchResult → Bool
no_extra_evidence r =
    not (is_some r.surrendering_team)
    && is_nil r.confirming_player_ids
    && r.red_won_count == 0
    && r.blue_won_count == 0

abbrev valid_surrender : State → MatchResult → Option TeamSide → Bool
valid_surrender s r none = false
valid_surrender s r (some team) =
    side_valid team
    && opponent team == r.winner
    && is_some
        (validate_surrender_evidence (get_or team s.rosters zero_roster) r.confirming_player_ids)

-- The switch on the reason of a result.
unfoldable pub valid_result : State → MatchResult → ResultReason → Bool
valid_result s r ResultReason.four_alignment =
    no_extra_evidence r && not (is_some s.tb_entry) && has_four s.board r.winner
valid_result s r ResultReason.tb = no_extra_evidence r && is_some s.tb_entry
valid_result s r ResultReason.surrender =
    r.red_won_count == 0 && r.blue_won_count == 0 && valid_surrender s r r.surrendering_team
valid_result s r ResultReason.stalemate_won_count =
    let analysis = analyze s in
    not (is_some r.surrendering_team)
    && is_nil r.confirming_player_ids
    && not (is_some s.tb_entry)
    && not (r.red_won_count == r.blue_won_count)
    && (if ltb r.blue_won_count r.red_won_count
        then r.winner == TeamSide.red
        else not (r.winner == TeamSide.red))
    && analysis.stalemate
    && analysis.won_counts TeamSide.red == r.red_won_count
    && analysis.won_counts TeamSide.blue == r.blue_won_count
valid_result s r ResultReason.unknown = false

abbrev valid_finish : State → Option MatchResult → Bool
valid_finish s none = false
valid_finish s (some r) = valid_result s r r.reason

unfoldable pub validate_recovery_evidence : State → Bool
validate_recovery_evidence s =
    valid_pending_request s
    && validate_tb_entry_evidence s
    && valid_suspension_evidence s.suspension
    && not (s.lifecycle == Lifecycle.aborted && is_blank s.abort_reason)
    && (if s.lifecycle == Lifecycle.adjudication_required
        then valid_adjudication s s.stalemate
        else true)
    && (if s.lifecycle == Lifecycle.finished then valid_finish s s.result else true)
