-- ===== src/Domain/Order.antt =====
-- The turns of internal/domain/turn.go against those that internal/matchengine/validation.go asks for.
use rct_hub_backend.Base.{◌≡◌, ◌≢◌, Bool, true, false, Option, none, some, ◌&&◌, arith}
use rct_hub_backend.Base.Int.{pos, max_int64, inc64}
use rct_hub_backend.Model.Kinds.{TeamSide, Phase, Lifecycle}
use rct_hub_backend.Model.Timer.{Time}
use rct_hub_backend.Engine.Rules.{pick_team}
use rct_hub_backend.Validation.{valid_turn}
use rct_hub_backend.Domain.Entities.{Side}
use rct_hub_backend.Command.Authorize.{engine_team_side}
use rct_hub_backend.Domain.Turn.{
  MatchPhase, BpOrder, TurnState, start_ban, start_pick, next_ban, next_pick, next,
}

abbrev pub engine_phase : MatchPhase → Phase
engine_phase MatchPhase.ban = Phase.ban
engine_phase MatchPhase.pick = Phase.pick
engine_phase _ = Phase.unknown

abbrev pub is_side : Side → Bool
is_side Side.other = false
is_side _ = true

abbrev pub active_side : Option Side → TeamSide
active_side none = TeamSide.unset
active_side (some side) = engine_team_side side

abbrev pub is_turn : MatchPhase → Bool
is_turn MatchPhase.ban = true
is_turn MatchPhase.pick = true
is_turn _ = false

-- The state is in a ban or a pick, with a turn and a team to move that the engine's check accepts.
abbrev pub in_order : BpOrder → TurnState → Bool
in_order order t =
    is_turn t.phase
    && valid_turn (engine_phase t.phase) Lifecycle.running (engine_team_side order.first_ban)
        (engine_team_side order.first_pick) t.counter (active_side t.active_team)

-- The first ban is in order.
pub start_ban-in_order :
    (order : BpOrder) (now : Time) (t : TurnState) → in_order order (start_ban order now t) ≡ true
unfolding start_ban engine_team_side
start_ban-in_order order now t = ground arith

-- Unless the counter is the last int, the next turn after one that is in order is in order too, and its
-- team is the one that the engine has for it.
pub next-in_order :
    (order : BpOrder) (now : Time) (t : TurnState)
    → is_side order.first_ban ≡ true
    → is_side order.first_pick ≡ true
    → t.counter ≢ pos max_int64
    → in_order order t ≡ true
    → in_order order (next order now t) ≡ true
unfolding next next_ban next_pick start_pick engine_team_side pick_team inc64
next-in_order order now t ban pick last h = ground arith
