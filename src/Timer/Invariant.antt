-- ===== src/Timer/Invariant.antt =====
-- What holds of the timer's state between two updates.
use konku.Common.{ℕ, ◌≡◌, ◌≢◌, none, List, [], ◌∷◌, arith}
use konku.Timer.{TimerState, running, paused, initial, Action, act}
use konku.Timer.Stored.{load, save}

-- A target exactly while running, a remainder exactly while paused.
pub record IsWellFormed (s : TimerState) : Type 0 where
  pub running_target : s.status ≡ running → s.target_at ≢ none
  pub target_running : s.target_at ≢ none → s.status ≡ running
  pub paused_rest : s.status ≡ paused → s.remaining_ms ≢ none
  pub rest_paused : s.remaining_ms ≢ none → s.status ≡ paused

pub initial-IsWellFormed : IsWellFormed initial
initial-IsWellFormed = ground arith

pub act-IsWellFormed : (a : Action) (s : TimerState) → IsWellFormed s → IsWellFormed (act a s)
unfolding act
act-IsWellFormed a s h = ground arith

unfoldable pub acts : List Action → TimerState → TimerState
acts [] s = s
acts (a ∷ as') s = acts as' (act a s)

acts-IsWellFormed :
    (as' : List Action) (s : TimerState) → IsWellFormed s → IsWellFormed (acts as' s)
unfolding acts
acts-IsWellFormed [] s h = h
acts-IsWellFormed (a ∷ as') s h = acts-IsWellFormed as' (act a s) (act-IsWellFormed a s h)

load-save-IsWellFormed :
    (clock : ℕ) (s : TimerState) → IsWellFormed s → IsWellFormed (load clock (save s))
unfolding load save
load-save-IsWellFormed clock s h = ground arith

-- From a new timer, after any actions, a reload at any instant and any further actions, there is
-- a target exactly while the timer runs and a remainder exactly while it is paused.
pub acts-load-IsWellFormed :
    (before after : List Action) (clock : ℕ)
    → IsWellFormed (acts after (load clock (save (acts before initial))))
acts-load-IsWellFormed before after clock =
    acts-IsWellFormed after _
      (load-save-IsWellFormed clock _ (acts-IsWellFormed before initial initial-IsWellFormed))
