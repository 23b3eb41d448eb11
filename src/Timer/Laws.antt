-- ===== src/Timer/Laws.antt =====
-- The clock arithmetic of the timer, and its round trip through the store.
use konku.Common.{
  ℕ, ◌+◌, ◌-◌, ◌≤◌, ◌≡◌, refl, none, some, Bool, true, false, List, [], ◌&&◌, ◌∷◌, leb,
  if◌then◌else◌, arith, exists, ◌==◌,
}
use konku.Timer.{
  TimerStatus, TimerState, running, done, pause, resume, tick, remaining, finish, durations,
}
use konku.Timer.Stored.{load, save, known_duration, known_domain, has_ended}
use konku.Timer.Invariant.{IsWellFormed}

-- Pausing a running timer at or before its target and resuming it later leaves exactly the time
-- that was left, moved by the length of the break.
pub resume-pause :
    (s : TimerState) (target t u : ℕ)
    → s.status ≡ running
    → s.target_at ≡ some target
    → t ≤ u
    → t ≤ target
    → ((resume u (pause t s)).status ≡ running)
      × ((resume u (pause t s)).target_at ≡ some (target + (u - t)))
      × (remaining u (resume u (pause t s)) ≡ remaining t s)
      × (remaining u (pause t s) ≡ remaining t s)
unfolding resume pause remaining
resume-pause s target t u r e le early = ground arith

-- The looks at the clock of a timer that nobody touches.
unfoldable pub looks : List ℕ → ℕ → TimerState → TimerState × ℕ
looks [] now s = (s, now)
looks (t ∷ ts) now s = looks ts (tick t now s).1 (tick t now s).0

shows_over : (ts : List ℕ) (now : ℕ) (s : TimerState) → s.status ≡ done → looks ts now s ≡ (s, now)
unfolding looks tick
shows_over [] now s h = refl
shows_over (t ∷ ts) now s h = ground (arith, shows_over ts now s h)

-- However often and however irregularly the clock is looked at, a timer that runs towards a target
-- and is otherwise left alone ends exactly when some look falls at or after the target, and is the
-- same timer before that.
pub looks_settle :
    (ts : List ℕ) (now target : ℕ) (s : TimerState)
    → s.status ≡ running
    → s.target_at ≡ some target
    → (looks ts now s).0 ≡ (if exists (λ t. leb target t) ts then finish s else s)
unfolding looks tick finish
looks_settle [] now target s r e = refl
looks_settle (t ∷ ts) now target s r e = ground (
  arith,
  looks_settle ts t target s r e,
  shows_over ts now (record s { status = done; target_at = none }) refl,
)

abbrev pub is_running : TimerStatus → Bool
is_running running = true
is_running _ = false

-- A reload: a well-formed timer with one of the offered durations and a domain that is none or a
-- UUID comes back as it was, unless it was running and its target has passed or is 0, and then it
-- comes back finished.
pub load-save :
    (clock : ℕ) (s : TimerState)
    → IsWellFormed s
    → exists (λ d. d == s.duration_minutes) durations ≡ true
    → known_domain s.domain_id ≡ s.domain_id
    → load clock (save s)
      ≡ (if is_running s.status && has_ended clock s.target_at then finish s else s)
unfolding load save known_duration finish has_ended
load-save clock s h d e = ground arith
