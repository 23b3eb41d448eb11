-- ===== src/Examples/Timers.antt =====
-- Histories of the focus timer: two sessions, a reload that overshoots the target, and a retry.
use konku.Common.{codes, List, [], ◌∷◌, none, some, true, false, arith}
use konku.Timer.{
  TimerState, running, initial, Action, duration_set, domain_set, started, paused_at, resumed,
  was_reset, ticked,
}
use konku.Timer.Stored.{load, save}
use konku.Timer.Invariant.{IsWellFormed, acts, acts-load-IsWellFormed}
use konku.Timer.Provider.{Provider, Happening, acted, reloaded, retried, Moment}

abbrev home : Provider
home = record {
  timer = initial;
  stored = save initial;
  applied_default = none;
  sent = false;
  posted = [];
}

abbrev at : Happening → Moment
at e = record { happening = e; account = some 30; writable = true; today = codes "2025-03-01" }

abbrev history : List Moment
history =
    at (acted (duration_set 15))
    ∷ at (acted (started 1000))
    ∷ record (at (acted (ticked 1500))) { writable = false }
    ∷ at (acted (ticked 2000000))
    ∷ at (reloaded 2000500)
    ∷ at retried
    ∷ at (acted was_reset)
    ∷ at (acted (started 3000000))
    ∷ at (reloaded 9000000)
    ∷ []

abbrev morning : List Action
morning = duration_set 45 ∷ domain_set none ∷ started 1000 ∷ paused_at 5000 ∷ []

abbrev evening : List Action
evening = resumed 900000 ∷ ticked 9000000 ∷ []

acts-load-IsWellFormed_example :
    IsWellFormed (acts evening (load 700000 (save (acts morning initial))))
acts-load-IsWellFormed_example = acts-load-IsWellFormed morning evening 700000

abbrev busy : TimerState
busy = record initial { status = running; target_at = some 1200000 }

busy-IsWellFormed : IsWellFormed busy
busy-IsWellFormed = ground arith
