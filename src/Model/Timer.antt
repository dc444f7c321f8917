-- ===== src/Model/Timer.antt =====
-- The timers of internal/matchengine/model.go. An instant is counted in nanoseconds from Go's zero
-- time, and a duration is an int64 of nanoseconds.
use rct_hub_backend.Base.{
  ℕ, ◌-◌, ◌*◌, min, Bool, true, false, ◌&&◌, not, Text, codes, is_empty, leb, if◌then◌else◌,
}
use rct_hub_backend.Base.Int.{ℤ, pos, negsuc, ltb_ℤ, leb_ℤ, sub64, max_int64}

abbrev pub Time : Type 0
Time = ℕ

abbrev pub zero_time : Time
zero_time = 0

abbrev pub Duration : Type 0
Duration = ℤ

-- time.Time.Sub: the difference, held within an int64.
unfoldable pub time_sub : Time → Time → Duration
time_sub a b = if leb b a then pos (min (a - b) max_int64) else negsuc (min (b - a - 1) max_int64)

pub record Timer : Type 0 where
  pub started_at : Time
  pub duration : Duration
  pub paused : Bool
  pub remaining_at_pause : Duration

-- Timer{}
abbrev pub zero_timer : Timer
zero_timer = record {
  started_at = zero_time;
  duration = pos 0;
  paused = false;
  remaining_at_pause = pos 0;
}

-- Timer{StartedAt: now, Duration: duration}
abbrev pub running_timer : Time → Duration → Timer
running_timer now duration = record {
  started_at = now;
  duration = duration;
  paused = false;
  remaining_at_pause = pos 0;
}

unfoldable pub remaining : Timer → Time → Duration
unfolding time_sub sub64
remaining t now =
    if t.paused
    then if ltb_ℤ t.remaining_at_pause (pos 0) then pos 0 else t.remaining_at_pause
    else let left = sub64 t.duration (time_sub now t.started_at) in
      if ltb_ℤ left (pos 0) then pos 0 else if ltb_ℤ t.duration left then t.duration else left

unfoldable pub expired : Timer → Time → Bool
expired t now = leb_ℤ (remaining t now) (pos 0)

unfoldable pub pause : Timer → Time → Timer
pause t now = record t { remaining_at_pause = remaining t now; paused = true }

unfoldable pub resume : Timer → Time → Timer
resume t now =
    running_timer now (if ltb_ℤ t.remaining_at_pause (pos 0) then pos 0 else t.remaining_at_pause)

pub record TimerConfiguration : Type 0 where
  pub preset_id : Text
  pub ban : Duration
  pub ban_additional : Duration
  pub pick : Duration
  pub pick_additional : Duration
  pub result_confirmation : Duration
  pub result_confirmation_additional : Duration
  pub tb_preparation : Duration

abbrev pub seconds : ℕ → Duration
seconds n = pos (n * 1_000_000_000)

abbrev pub standard_timer_configuration : TimerConfiguration
standard_timer_configuration = record {
  preset_id = codes "RCTS1_STANDARD";
  ban = seconds 60;
  ban_additional = seconds 15;
  pick = seconds 90;
  pick_additional = seconds 30;
  result_confirmation = seconds 20;
  result_confirmation_additional = seconds 10;
  tb_preparation = seconds 90;
}

abbrev is_positive : Duration → Bool
is_positive d = ltb_ℤ (pos 0) d

unfoldable pub timers_valid : TimerConfiguration → Bool
timers_valid c =
    not (is_empty c.preset_id)
    && is_positive c.ban
    && is_positive c.ban_additional
    && is_positive c.pick
    && is_positive c.pick_additional
    && is_positive c.result_confirmation
    && is_positive c.result_confirmation_additional
    && is_positive c.tb_preparation
