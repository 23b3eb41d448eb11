-- ===== src/Timer/Provider/Settling.antt =====
-- The effects of a commit come to rest in two commits.
use konku.Common.{
  ℕ, ◌≡◌, ◌≢◌, ◌⊎◌, Text, Option, none, Bool, true, false, List, [], ◌∷◌, ◌++◌, append-nil, arith,
  not, ◌&&◌, if◌then◌else◌,
}
use konku.Timer.{TimerStatus, TimerState, done}
use konku.Timer.Stored.{write}
use konku.Timer.Provider.{Session, Provider, session, pass, settle, Happening, retried, Moment}

abbrev pub is_done : TimerStatus → Bool
is_done done = true
is_done _ = false

-- The requests that a moment calls for, told from the statuses before and after it alone: one for
-- a session that ends there, and one for a press of "retry".
abbrev pub retries : Happening → Text → TimerState → List Session
retries retried today s = session today s ∷ []
retries _ today s = []

abbrev pub calls_for : Moment → TimerState → TimerState → List Session
calls_for m before after =
    retries m.happening m.today before
    ++ (if not (is_done before.status) && is_done after.status
        then session m.today after ∷ []
        else [])

-- What holds of the provider when its effects have run.
pub record IsSettled (p : Provider) : Type 0 where
  pub done_logged : p.timer.status ≡ done → p.timer.logged ≡ true
  pub open_fresh : p.timer.status ≢ done → p.sent ≡ false
  pub open_unlogged : p.timer.status ≢ done → p.timer.logged ≡ false

-- What holds between a happening and its effects.
pub record IsPending (p : Provider) : Type 0 where
  pub done_once : p.timer.status ≡ done → (p.timer.logged ≡ true) ⊎ (p.sent ≡ false)
  pub open_unlogged : p.timer.status ≢ done → p.timer.logged ≡ false

-- What holds when one pass of the effects has run.
pub record IsPassed (account : Option ℕ) (p : Provider) : Type 0 where
  pub done_logged : p.timer.status ≡ done → p.timer.logged ≡ true
  pub open_fresh : p.timer.status ≢ done → p.sent ≡ false
  pub open_unlogged : p.timer.status ≢ done → p.timer.logged ≡ false
  pub applied : (account ≡ none) ⊎ (account ≡ p.applied_default)

abbrev pub ends : Text → TimerState → List Session
ends today s = if is_done s.status && not s.logged then session today s ∷ [] else []

pub pass-IsPassed :
    (ok : Bool) (account : Option ℕ) (today : Text) (p : Provider)
    → IsPending p
    → IsPassed account (pass ok account today p)
unfolding pass write
pass-IsPassed ok account today p h = ground arith

pass-status :
    (ok : Bool) (account : Option ℕ) (today : Text) (p : Provider)
    → (pass ok account today p).timer.status ≡ p.timer.status
unfolding pass write
pass-status ok account today p = ground arith

pass-session :
    (ok : Bool) (account : Option ℕ) (today : Text) (p : Provider)
    → p.timer.status ≡ done
    → session today (pass ok account today p).timer ≡ session today p.timer
unfolding pass write
pass-session ok account today p e = ground arith

pass-posted :
    (ok : Bool) (account : Option ℕ) (today : Text) (p : Provider)
    → IsPending p
    → (pass ok account today p).posted ≡ p.posted ++ ends today p.timer
unfolding pass session write
pass-posted ok account today p h = ground (arith, append-nil p.posted)

-- A second pass only writes the store.
pub pass_again :
    (ok : Bool) (account : Option ℕ) (today : Text) (p : Provider)
    → IsPassed account p
    → pass ok account today p ≡ record p { stored = write ok p.timer p.stored }
unfolding pass write
pass_again ok account today p h = ground arith

pub settle_lem :
    (ok : Bool) (account : Option ℕ) (today : Text) (p : Provider)
    → IsPending p
    → settle ok account today p
      ≡ (let q = pass ok account today p in record q { stored = write ok q.timer q.stored })
unfolding settle
settle_lem ok account today p h =
    pass_again ok account today (pass ok account today p) (pass-IsPassed ok account today p h)

pub settle-IsSettled :
    (ok : Bool) (account : Option ℕ) (today : Text) (p : Provider)
    → IsPending p
    → IsSettled (settle ok account today p)
settle-IsSettled ok account today p h =
    let q = pass-IsPassed ok account today p h in
    rw (settle_lem ok account today p h) (record {
      done_logged = q.done_logged;
      open_fresh = q.open_fresh;
      open_unlogged = q.open_unlogged;
    })

pub settle-status :
    (ok : Bool) (account : Option ℕ) (today : Text) (p : Provider)
    → IsPending p
    → (settle ok account today p).timer.status ≡ p.timer.status
settle-status ok account today p h =
    rw (settle_lem ok account today p h) (pass-status ok account today p)

pub settle-session :
    (ok : Bool) (account : Option ℕ) (today : Text) (p : Provider)
    → IsPending p
    → p.timer.status ≡ done
    → session today (settle ok account today p).timer ≡ session today p.timer
settle-session ok account today p h e =
    rw (settle_lem ok account today p h) (pass-session ok account today p e)

pub settle-posted :
    (ok : Bool) (account : Option ℕ) (today : Text) (p : Provider)
    → IsPending p
    → (settle ok account today p).posted ≡ p.posted ++ ends today p.timer
settle-posted ok account today p h =
    rw (settle_lem ok account today p h) (pass-posted ok account today p h)
