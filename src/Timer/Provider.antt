-- ===== src/Timer/Provider.antt =====
-- One timer for the whole app: web/src/features/timer/TimerProvider.tsx. React runs the effects of
-- a commit in order, and a state that they set is committed again; `settle` is both commits. The
-- requests handed to `logSession.mutate` are kept in the order in which they are sent.
pub mod Settling
pub mod Laws
use konku.Common.{
  ℕ, ◌==◌, ◌||◌, Text, Option, none, some, Bool, true, false, List, [], ◌∷◌, ◌++◌, if◌then◌else◌,
}
use konku.Timer.{
  TimerStatus, TimerState, idle, running, paused, done, Action, act, set_duration, mark_logged,
}
use konku.Timer.Stored.{Saved, load, write}

-- The argument of `logSession.mutate`.
pub record Session : Type 0 where
  pub domain_id : Option Text
  pub duration_minutes : ℕ
  pub session_date : Text

-- The hook's state, what the store holds, the two refs, and the requests sent.
pub record Provider : Type 0 where
  pub timer : TimerState
  pub stored : Saved
  pub applied_default : Option ℕ
  pub sent : Bool
  pub posted : List Session

unfoldable pub session : Text → TimerState → Session
session today s = record {
  domain_id = s.domain_id;
  duration_minutes = s.duration_minutes;
  session_date = today;
}

-- The account's default, applied to an idle timer when the default changes.
default_by : Option ℕ → Option ℕ → Provider → Provider
default_by none applied p = p
default_by (some d) none p = record p { applied_default = some d; timer = set_duration d p.timer }
default_by (some d) (some a) p =
    if a == d then p else record p { applied_default = some d; timer = set_duration d p.timer }

unfoldable pub default_effect : Option ℕ → Provider → Provider
unfolding default_by set_duration
default_effect account p = default_by account p.applied_default p

log_by : TimerStatus → Text → TimerState → Provider → Provider
log_by done today seen p = if seen.logged || p.sent then p else record p {
  sent = true;
  timer = mark_logged p.timer;
  posted = p.posted ++ session today seen ∷ [];
}
log_by _ today seen p = record p { sent = false }

-- The recording effect. It reads the state of the render that it belongs to, `seen`.
unfoldable pub log_effect : Text → TimerState → Provider → Provider
unfolding log_by mark_logged session
log_effect today seen p = log_by seen.status today seen p

-- The effects of one commit: those of `useTimer` first, then the provider's. The flag says whether
-- the store can be written.
unfoldable pub pass : Bool → Option ℕ → Text → Provider → Provider
unfolding default_effect log_effect write
pass ok account today p =
    let seen = p.timer in
    log_effect today seen (default_effect account (record p { stored = write ok seen p.stored }))

unfoldable pub settle : Bool → Option ℕ → Text → Provider → Provider
settle ok account today p = pass ok account today (pass ok account today p)

-- What happens to the app: an action on the timer, a reload of the page, a press of "retry".
pub data Happening : Type 0 where
  acted : Action → Happening
  reloaded : ℕ → Happening
  retried : Happening

unfoldable pub mounted : ℕ → Provider → Provider
mounted clock p = record p { timer = load clock p.stored; applied_default = none; sent = false }

unfoldable pub happen : Text → Happening → Provider → Provider
unfolding act mounted session
happen today (acted a) p = record p { timer = act a p.timer }
happen today (reloaded clock) p = mounted clock p
happen today retried p = record p { posted = p.posted ++ session today p.timer ∷ [] }

-- A happening with the account's default, the local day and whether the store can be written at that
-- moment.
pub record Moment : Type 0 where
  pub happening : Happening
  pub account : Option ℕ
  pub writable : Bool
  pub today : Text

unfoldable pub live : Moment → Provider → Provider
unfolding settle happen
live m p = settle m.writable m.account m.today (happen m.today m.happening p)

unfoldable pub lives : List Moment → Provider → Provider
lives [] p = p
lives (m ∷ ms) p = lives ms (live m p)
