-- ===== src/Timer.antt =====
-- The focus timer: web/src/features/timer/useTimer.ts. The hook's state is a record, each callback
-- is a function on it, and `Date.now()` is the argument `clock` (milliseconds). `null` is `none`.
pub mod Log
pub mod Stored
pub mod Invariant
pub mod Laws
pub mod Provider
use konku.Common.{
  ℕ, ◌+◌, ◌-◌, ◌*◌, Text, Option, none, some, Bool, true, false, List, [], ◌∷◌, leb, if◌then◌else◌,
}

pub data TimerStatus : Type 0 where
  idle running paused done : TimerStatus

-- `interface TimerState`.
pub record TimerState : Type 0 where
  pub status : TimerStatus
  pub duration_minutes : ℕ
  pub domain_id : Option Text
  pub target_at : Option ℕ
  pub remaining_ms : Option ℕ
  pub logged : Bool

abbrev pub durations : List ℕ
durations = 15 ∷ 20 ∷ 25 ∷ 30 ∷ 45 ∷ []

abbrev pub default_duration : ℕ
default_duration = 20

abbrev pub minute_ms : ℕ
minute_ms = 60000

abbrev pub initial : TimerState
initial = record {
  status = idle;
  duration_minutes = default_duration;
  domain_id = none;
  target_at = none;
  remaining_ms = none;
  logged = false;
}

-- `x ?? d`.
abbrev pub or_else {ℓ} : {A : Type ℓ} → Option A → A → A
or_else none d = d
or_else (some a) d = a

set_duration_by : TimerStatus → ℕ → TimerState → TimerState
set_duration_by idle minutes s = record s { duration_minutes = minutes }
set_duration_by _ minutes s = s

-- A picker change is ignored unless the timer is idle.
unfoldable pub set_duration : ℕ → TimerState → TimerState
unfolding set_duration_by
set_duration minutes s = set_duration_by s.status minutes s

unfoldable pub set_domain : Option Text → TimerState → TimerState
set_domain domain s = record s { domain_id = domain }

unfoldable pub start : ℕ → TimerState → TimerState
start clock s = record s {
  status = running;
  target_at = some (clock + s.duration_minutes * minute_ms);
  remaining_ms = none;
  logged = false;
}

pause_by : TimerStatus → Option ℕ → ℕ → TimerState → TimerState
pause_by running (some target) clock s = record s {
  status = paused;
  remaining_ms = some (target - clock);
  target_at = none;
}
pause_by running none clock s = s
pause_by _ target clock s = s

-- `Math.max(0, s.targetAt - Date.now())` is the truncated difference.
unfoldable pub pause : ℕ → TimerState → TimerState
unfolding pause_by
pause clock s = pause_by s.status s.target_at clock s

resume_by : TimerStatus → ℕ → TimerState → TimerState
resume_by paused clock s = record s {
  status = running;
  target_at = some (clock + or_else s.remaining_ms 0);
  remaining_ms = none;
}
resume_by _ clock s = s

unfoldable pub resume : ℕ → TimerState → TimerState
unfolding resume_by
resume clock s = resume_by s.status clock s

-- Back to the start, keeping the chosen duration and domain.
unfoldable pub reset : TimerState → TimerState
reset s = record s { status = idle; target_at = none; remaining_ms = none; logged = false }

unfoldable pub mark_logged : TimerState → TimerState
mark_logged s = record s { logged = true }

finish_by : TimerStatus → TimerState → TimerState
finish_by running s = record s { status = done; target_at = none }
finish_by _ s = s

-- The updater that `tick` hands to `setState` when the target has passed.
unfoldable pub finish : TimerState → TimerState
unfolding finish_by
finish s = finish_by s.status s

tick_by : TimerStatus → Option ℕ → ℕ → ℕ → TimerState → TimerState × ℕ
tick_by running (some target) clock now s = if leb target clock then (finish s, now) else (s, clock)
tick_by running none clock now s = (s, now)
tick_by _ target clock now s = (s, now)

-- The ticking effect, over the state and the instant `now` last looked at: it is off unless the
-- timer runs towards a target.
unfoldable pub tick : ℕ → ℕ → TimerState → TimerState × ℕ
unfolding tick_by finish
tick clock now s = tick_by s.status s.target_at clock now s

remaining_by : TimerStatus → Option ℕ → ℕ → TimerState → ℕ
remaining_by running (some target) now s = target - now
remaining_by running none now s = s.duration_minutes * minute_ms
remaining_by paused target now s = or_else s.remaining_ms 0
remaining_by done target now s = 0
remaining_by idle target now s = s.duration_minutes * minute_ms

-- What the timer face shows, from the instant last looked at.
unfoldable pub remaining : ℕ → TimerState → ℕ
unfolding remaining_by
remaining now s = remaining_by s.status s.target_at now s

-- What the screens and the clock can do to the timer.
pub data Action : Type 0 where
  duration_set : ℕ → Action
  domain_set : Option Text → Action
  started : ℕ → Action
  paused_at : ℕ → Action
  resumed : ℕ → Action
  was_reset : Action
  ticked : ℕ → Action

unfoldable pub act : Action → TimerState → TimerState
unfolding set_duration set_domain start pause resume reset tick
act (duration_set m) s = set_duration m s
act (domain_set d) s = set_domain d s
act (started t) s = start t s
act (paused_at t) s = pause t s
act (resumed t) s = resume t s
act was_reset s = reset s
act (ticked t) s = (tick t t s).0
