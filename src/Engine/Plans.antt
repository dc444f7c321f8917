-- ===== src/Engine/Plans.antt =====
-- robberyPlans of internal/matchengine/availability.go: every robbery that a team can choose.
use rct_hub_backend.Base.{
  Bool, ◌&&◌, Text, List, [], ◌∷◌, ◌++◌, none, some, flat_map, sort_texts, if◌then◌else◌, ◌==◌,
  text_Eq, text_leb, codes, is_some, nat_Eq,
}
use rct_hub_backend.Model.Kinds.{
  TeamSide, Lifecycle, Phase, team_side_Eq, lifecycle_Eq, phase_Eq, mod_Eq, pool_slot_state_Eq,
  capability_Eq,
}
use rct_hub_backend.Model.State.{BoardPiece, Board, State}
use rct_hub_backend.Board.{Alignment, find_alignments, contains_piece_id}
use rct_hub_backend.Engine.Robbery.{
  target_is_shiro, target_is_opponent, flatten_sacrifice_sets, board_after_robbery,
}

pub record RobberyPlan : Type 0 where
  pub target_piece_id : Text
  pub sacrifice_sets : List (List Text)

-- The parts of a sacrificeKey.
unfoldable pub set_key : List Text → Text
set_key [] = []
set_key (id ∷ ids) = id ++ codes "," ++ set_key ids

unfoldable pub sacrifice_key : List (List Text) → Text
sacrifice_key [] = []
sacrifice_key (set ∷ sets) = codes "|" ++ set_key (sort_texts set) ++ sacrifice_key sets

abbrev pub plan_leb : RobberyPlan → RobberyPlan → Bool
plan_leb a b =
    if a.target_piece_id == b.target_piece_id
    then text_leb (sacrifice_key a.sacrifice_sets) (sacrifice_key b.sacrifice_sets)
    else text_leb a.target_piece_id b.target_piece_id

-- sort.Slice by target and key; it leaves the order of equal plans open, and they stay as they come.
unfoldable pub insert_plan : RobberyPlan → List RobberyPlan → List RobberyPlan
insert_plan plan [] = plan ∷ []
insert_plan plan (other ∷ plans) =
    let rest = insert_plan plan plans in
    if plan_leb plan other then plan ∷ other ∷ plans else other ∷ rest

unfoldable pub sort_plans : List RobberyPlan → List RobberyPlan
sort_plans [] = []
sort_plans (plan ∷ plans) = insert_plan plan (sort_plans plans)

module _ (b : Board) (team : TeamSide) (target : BoardPiece) where
  abbrev pub plan_of : List (List Text) → RobberyPlan
  plan_of sets = record { target_piece_id = target.id; sacrifice_sets = sets }

  -- One alignment of two for a Shiro, where the target is still there afterwards.
  unfoldable pub shiro_plan : Alignment → List RobberyPlan
  shiro_plan a = elim (board_after_robbery b team target.id a.board_piece_ids 2) [
    | none ↦ []
    | some next ↦
        if contains_piece_id target.id next then plan_of (a.board_piece_ids ∷ []) ∷ [] else []
  ]

  unfoldable pub three_plan : Alignment → List RobberyPlan
  three_plan a =
      if is_some (board_after_robbery b team target.id a.board_piece_ids 3)
      then plan_of (a.board_piece_ids ∷ []) ∷ []
      else []

  unfoldable pub two_plan : Alignment → Alignment → List RobberyPlan
  two_plan first second =
      let sets = first.board_piece_ids ∷ second.board_piece_ids ∷ [] in
      elim (flatten_sacrifice_sets sets) [
        | none ↦ []
        | some ids ↦
            if is_some (board_after_robbery b team target.id ids 3) then plan_of sets ∷ [] else []
      ]

  -- The loops over two alignments, the first before the second.
  unfoldable pub two_plans : List Alignment → List RobberyPlan
  two_plans [] = []
  two_plans (first ∷ alignments) = flat_map (two_plan first) alignments ++ two_plans alignments

  unfoldable pub target_plans : List RobberyPlan
  target_plans =
      if target_is_shiro target
      then flat_map shiro_plan (find_alignments b team 2)
      else if target_is_opponent team target
      then flat_map three_plan (find_alignments b team 3) ++ two_plans (find_alignments b team 2)
      else []

-- The loop over Board.Pieces, in the order of the map.
unfoldable pub board_plans : Board → TeamSide → Board → List RobberyPlan
board_plans b team [] = []
board_plans b team ((_, target) ∷ pieces) = target_plans b team target ++ board_plans b team pieces

unfoldable pub robbery_plans : State → TeamSide → List RobberyPlan
robbery_plans s team =
    if s.lifecycle == Lifecycle.running && s.phase == Phase.pick && s.active_team == team
    then sort_plans (board_plans s.board team s.board)
    else []
