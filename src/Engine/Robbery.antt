-- ===== src/Engine/Robbery.antt =====
-- The robbery rules of internal/matchengine/engine.go.
use rct_hub_backend.Base.{
  ℕ, Bool, false, not, ◌&&◌, ◌||◌, Text, List, [], ◌∷◌, ◌++◌, Option, none, some, any, any_pair,
  contains, if◌then◌else◌, is_some, ◌==◌, text_Eq,
}
use rct_hub_backend.Model.Kinds.{TeamSide, Mod, Outcome, team_side_Eq, mod_Eq, outcome_Eq}
use rct_hub_backend.Model.State.{BoardPiece, Board, opponent}
use rct_hub_backend.Board.{
  Alignment, find_alignments, is_alignment, mark_dead, set_owner, piece_participates_in_alignment,
  is_won_by,
}

unfoldable pub target_is_shiro : BoardPiece → Bool
target_is_shiro target =
    target.piece_mod == Mod.shiro && target.outcome == Outcome.white && not (is_some target.owner)

unfoldable pub target_is_opponent : TeamSide → BoardPiece → Bool
target_is_opponent team target = is_won_by (opponent team) target

-- One set of flattenSacrificeSets; `flattened` holds what the map `seen` holds.
unfoldable pub flatten_set : List Text → List Text → Option (List Text)
flatten_set [] flattened = some flattened
flatten_set (id ∷ set) flattened =
    let rest = flatten_set set (flattened ++ id ∷ []) in
    if contains id flattened then none else rest

unfoldable pub flatten_from : List (List Text) → List Text → Option (List Text)
flatten_from [] flattened = some flattened
flatten_from (set ∷ sets) flattened = elim (flatten_set set flattened) [
  | none ↦ none
  | some flattened' ↦ flatten_from sets flattened'
]

-- `none` stands for an overlap.
unfoldable pub flatten_sacrifice_sets : List (List Text) → Option (List Text)
flatten_sacrifice_sets sets = flatten_from sets []

unfoldable pub valid_shiro_robbery_sacrifice : Board → TeamSide → List (List Text) → Bool
valid_shiro_robbery_sacrifice b team (set ∷ []) = is_alignment b team set 2
valid_shiro_robbery_sacrifice b team _ = false

unfoldable pub valid_normal_robbery_sacrifice : Board → TeamSide → List (List Text) → Bool
valid_normal_robbery_sacrifice b team (set ∷ []) = is_alignment b team set 3
valid_normal_robbery_sacrifice b team (first ∷ second ∷ []) =
    is_alignment b team first 2 && is_alignment b team second 2
valid_normal_robbery_sacrifice b team _ = false

unfoldable pub board_after_robbery : Board → TeamSide → Text → List Text → ℕ → Option Board
board_after_robbery b team target_id sacrifice_ids alignment_length =
    elim (set_owner target_id team (mark_dead sacrifice_ids b)) [
      | none ↦ none
      | some next ↦
          if piece_participates_in_alignment next team target_id alignment_length
          then some next
          else none
    ]

-- The rounds of teamHasLegalRobbery's loops for one target.
unfoldable pub can_rob_with : Board → TeamSide → Text → ℕ → Alignment → Bool
can_rob_with b team target_id len sacrifice =
    is_some (board_after_robbery b team target_id sacrifice.board_piece_ids len)

unfoldable pub can_rob_with_two : Board → TeamSide → Text → Alignment → Alignment → Bool
can_rob_with_two b team target_id first second =
    elim (flatten_sacrifice_sets (first.board_piece_ids ∷ second.board_piece_ids ∷ [])) [
      | none ↦ false
      | some ids ↦ is_some (board_after_robbery b team target_id ids 3)
    ]

unfoldable pub can_rob : Board → TeamSide → BoardPiece → Bool
can_rob b team target =
    if target_is_shiro target
    then any (can_rob_with b team target.id 2) (find_alignments b team 2)
    else target_is_opponent team target
      && (any (can_rob_with b team target.id 3) (find_alignments b team 3)
          || any_pair (can_rob_with_two b team target.id) (find_alignments b team 2))

unfoldable pub any_target : (BoardPiece → Bool) → Board → Bool
any_target p [] = false
any_target p ((_, piece) ∷ b) = p piece || any_target p b

unfoldable pub team_has_legal_robbery : Board → TeamSide → Bool
team_has_legal_robbery b team = any_target (can_rob b team) b
