-- ===== src/Countdown.antt =====
-- The countdown of the timers of internal/matchengine/model.go, alone and across a suspension of the
-- match by internal/matchengine/engine.go.
use rct_hub_backend.Base.{
  ℕ, ◌-◌, ◌+◌, ◌≤◌, ◌≡◌, ◌↔◌, true, false, none, Text, List, arith, refl, sym, ap, ◌∙◌, Bool-cases,
  inl, inr, ◌&&◌, not, if◌then◌else◌,
}
use rct_hub_backend.Base.Int.{pos, pos_part, ◌≤ℤ◌, max_int64, sub64, wrap64}
use rct_hub_backend.Model.Errors.{ok}
use rct_hub_backend.Model.Timer.{
  Time, Timer, time_sub, remaining, expired, pause, resume, running_timer,
}
use rct_hub_backend.Model.State.{State, Actor}
use rct_hub_backend.Model.Events.{Event}
use rct_hub_backend.Engine.Clock.{suspend_match, resume_match, has_timer}

-- A timer that has not been paused, with a duration that is not negative, has at every instant no
-- more left than its duration and no less than nothing, in spite of the wrap-around of int64.
pub remaining-bounds :
    (t : Timer) (now : Time) (d : ℕ)
    → t.paused ≡ false
    → t.duration ≡ pos d
    → d ≤ max_int64
    → (remaining t now ≡ pos (pos_part (remaining t now))) × (pos_part (remaining t now) ≤ d)
unfolding remaining time_sub sub64 wrap64
remaining-bounds t now d h e small = ground arith

-- Such a timer has, from its start on, exactly its duration less the time that has passed, and it is
-- expired from the instant on at which the duration has passed.
pub remaining-elapsed :
    (t : Timer) (passed : Time) (d : ℕ)
    → t.paused ≡ false
    → t.duration ≡ pos d
    → d ≤ max_int64
    → (remaining t (t.started_at + passed) ≡ pos (d - passed))
      × ((expired t (t.started_at + passed) ≡ true) ↔ (d ≤ passed))
unfolding remaining expired time_sub sub64 wrap64
remaining-elapsed t passed d h e small = ground arith

-- The time left is never negative and fits an int64 where the duration and the time left at a pause
-- do.
remaining_small :
    (t : Timer) (now : Time)
    → pos 0 ≤ℤ t.duration
    → t.duration ≤ℤ pos max_int64
    → t.remaining_at_pause ≤ℤ pos max_int64
    → (remaining t now ≡ pos (pos_part (remaining t now)))
      × (pos_part (remaining t now) ≤ max_int64)
unfolding remaining time_sub sub64 wrap64
remaining_small t now low high paused = ground arith

resume_left :
    (k : ℕ) (later passed : Time)
    → k ≤ max_int64
    → remaining (running_timer later (pos k)) (later + passed) ≡ pos (k - passed)
unfolding remaining time_sub sub64 wrap64
resume_left k later passed small = ground arith

remaining_paused :
    (t : Timer) (now : Time) (k : ℕ)
    → t.paused ≡ true
    → t.remaining_at_pause ≡ pos k
    → remaining t now ≡ pos k
unfolding remaining
remaining_paused t now k h e = ground arith

resume_running :
    (t : Timer) (now : Time) (k : ℕ)
    → t.remaining_at_pause ≡ pos k
    → resume t now ≡ running_timer now (pos k)
unfolding resume
resume_running t now k e = ground arith

-- A timer whose duration and time left lie in the range of an int64, paused at one instant and
-- resumed at a later or an earlier one: while it is paused it has what was left at the pause, and
-- from the resumption on exactly that less the time that has passed since.
pub resume-pause :
    (t : Timer) (now later passed : Time)
    → pos 0 ≤ℤ t.duration
    → t.duration ≤ℤ pos max_int64
    → t.remaining_at_pause ≤ℤ pos max_int64
    → (remaining (pause t now) later ≡ remaining t now)
      × (remaining (resume (pause t now) later) (later + passed)
          ≡ pos (pos_part (remaining t now) - passed))
unfolding pause
resume-pause t now later passed low high paused =
    let (left, small) = remaining_small t now low high paused in
    let k = pos_part (remaining t now) in
    (
      remaining_paused (pause t now) later k refl left ∙ sym left,
      ap (λ u. remaining u (later + passed)) (resume_running (pause t now) later k left)
          ∙ resume_left k later passed small,
    )

suspend_and_resume :
    (s : State) (actor other : Actor) (reason why : Text) (now later : Time)
    {r u : State × List Event}
    → suspend_match s actor reason now ≡ ok r
    → resume_match r.0 other why later ≡ ok u
    → u.0 ≡ record s {
      suspension = none;
      timer =
          if has_timer s.timer && not s.timer.paused
          then resume (pause s.timer now) later
          else s.timer;
    }
unfolding suspend_match resume_match
suspend_and_resume s actor other reason why now later h g = ground arith

remaining_idle :
    (t : Timer) (now : Time) → t.paused ≡ false → t.duration ≡ pos 0 → remaining t now ≡ pos 0
unfolding remaining
remaining_idle t now p d = ground arith

held_left :
    (t : Timer) (now later passed : Time)
    → t.paused ≡ true
    → pos 0 ≤ℤ t.duration
    → t.duration ≤ℤ pos max_int64
    → t.remaining_at_pause ≤ℤ pos max_int64
    → remaining t (later + passed) ≡ pos (pos_part (remaining t now) - 0)
unfolding remaining
held_left t now later passed p low high paused = ground arith

-- The timer that a suspension and a resumption leave.
resumed_left :
    (t : Timer) (now later passed : Time)
    → pos 0 ≤ℤ t.duration
    → t.duration ≤ℤ pos max_int64
    → t.remaining_at_pause ≤ℤ pos max_int64
    → remaining
        (if has_timer t && not t.paused then resume (pause t now) later else t)
        (later + passed)
      ≡ pos (pos_part (remaining t now) - (if t.paused then 0 else passed))
resumed_left t now later passed low high paused = elim (Bool-cases t.paused) [
  | inl p ↦ ground (arith, p, held_left t now later passed p low high paused)
  | inr p ↦ elim (Bool-cases (has_timer t)) [
    | inl e ↦ ground (arith, p, e, (resume-pause t now later passed low high paused).1)
    | inr e ↦ (ground (arith, p, e, remaining_idle t now, remaining_idle t (later + passed)))
  ]
]

-- A running match with such a timer, suspended at one instant and resumed at another, is as it was
-- before the suspension but for its timer; the timer has what was left at the suspension, less the
-- time that has passed since the resumption unless it was paused before.
pub resume_match-suspend_match :
    (s : State) (actor other : Actor) (reason why : Text) (now later passed : Time)
    {r u : State × List Event}
    → pos 0 ≤ℤ s.timer.duration
    → s.timer.duration ≤ℤ pos max_int64
    → s.timer.remaining_at_pause ≤ℤ pos max_int64
    → suspend_match s actor reason now ≡ ok r
    → resume_match r.0 other why later ≡ ok u
    → (u.0 ≡ record s { suspension = none; timer = u.0.timer })
      × (remaining u.0.timer (later + passed)
          ≡ pos (pos_part (remaining s.timer now) - (if s.timer.paused then 0 else passed)))
resume_match-suspend_match s actor other reason why now later passed {u} low high paused h g =
    let round = suspend_and_resume s actor other reason why now later h g in
    (
      ground (arith, round),
      ap (λ v. remaining v.timer (later + passed)) round
          ∙ resumed_left s.timer now later passed low high paused,
    )
