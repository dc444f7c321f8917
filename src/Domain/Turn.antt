-- ===== src/Domain/Turn.antt =====
-- internal/domain/turn.go: the turns of the older match model. time.Now() is the argument `now`.
use rct_hub_backend.Base.{◌%◌, nat_eq, Bool, false, ◌||◌, Option, none, some, ◌==◌, if◌then◌else◌}
use rct_hub_backend.Base.Int.{ℤ, pos, negsuc, inc64, ltb_ℤ, int_Eq}
use rct_hub_backend.Model.Timer.{Time, Duration, seconds}
use rct_hub_backend.Domain.Entities.{Side}

pub data MatchPhase : Type 0 where
  setup roll ban pick win tb ended unknown : MatchPhase

pub data TurnAction : Type 0 where
  ban rob pick win tb unknown : TurnAction

pub record BpOrder : Type 0 where
  pub first_pick : Side
  pub first_ban : Side

pub record TurnState : Type 0 where
  pub phase : MatchPhase
  pub counter : ℤ
  pub active_team : Option Side
  pub action : TurnAction
  pub started_at : Time
  pub time_limit : Duration
  pub bonus_time : Duration
  pub bonus_used : Bool

-- TeamSide.Opponent
abbrev pub other_side : Side → Side
other_side Side.red = Side.blue
other_side _ = Side.red

abbrev pub new_turn_state : TurnState
new_turn_state = record {
  phase = MatchPhase.roll;
  counter = pos 0;
  active_team = none;
  action = TurnAction.pick;
  started_at = 0;
  time_limit = pos 0;
  bonus_time = pos 0;
  bonus_used = false;
}

unfoldable pub start_ban : BpOrder → Time → TurnState → TurnState
start_ban order now t = record t {
  phase = MatchPhase.ban;
  counter = negsuc 2;
  action = TurnAction.ban;
  active_team = some order.first_ban;
  bonus_used = false;
  started_at = now;
  time_limit = seconds 60;
  bonus_time = seconds 15;
}

unfoldable pub start_pick : BpOrder → Time → TurnState → TurnState
start_pick order now t = record t {
  phase = MatchPhase.pick;
  counter = pos 1;
  action = TurnAction.pick;
  active_team = some order.first_pick;
  bonus_used = false;
  started_at = now;
  time_limit = seconds 90;
  bonus_time = seconds 30;
}

-- t.Counter%2 == 1, where Go's remainder of a negative number is not positive.
abbrev pub is_odd_counter : ℤ → Bool
is_odd_counter (pos n) = nat_eq (n % 2) 1
is_odd_counter (negsuc n) = false

-- Next of a ban turn and of a pick turn, after the counter went up.
unfoldable pub next_ban : BpOrder → Time → TurnState → TurnState
next_ban order now t =
    let picking = start_pick order now t in
    if ltb_ℤ (pos 0) t.counter then picking else record t {
      active_team = some (
          if t.counter == negsuc 1 || t.counter == negsuc 0
          then other_side order.first_ban
          else order.first_ban);
      action = TurnAction.ban;
      time_limit = seconds 60;
      bonus_time = seconds 15;
    }

unfoldable pub next_pick : BpOrder → TurnState → TurnState
next_pick order t = record t {
  active_team =
      some (if is_odd_counter t.counter then order.first_pick else other_side order.first_pick);
  action = TurnAction.pick;
  time_limit = seconds 90;
  bonus_time = seconds 30;
}

abbrev pub next_in : MatchPhase → BpOrder → Time → TurnState → TurnState
next_in MatchPhase.ban order now t = next_ban order now t
next_in MatchPhase.pick order now t = next_pick order t
next_in _ order now t = t

unfoldable pub next : BpOrder → Time → TurnState → TurnState
next order now t =
    next_in t.phase order now
      (record t { counter = inc64 t.counter; bonus_used = false; started_at = now })
