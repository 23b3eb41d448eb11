-- ===== src/Timer/Provider/Laws.antt =====
-- A finished session is recorded exactly once.
use konku.Common.{
  ℕ, ◌≡◌, refl, sym, ◌∙◌, ap, Text, Option, Bool, true, false, List, [], ◌∷◌, ◌++◌, arith, not,
  ◌&&◌, ◌||◌,
}
use konku.Timer.{TimerState}
use konku.Timer.Stored.{Saved, load, save, write}
use konku.Timer.Provider.{
  Session, Provider, log_effect, pass, settle, Happening, acted, reloaded, retried, happen, Moment,
  live,
}
use konku.Timer.Provider.Settling.{
  calls_for, IsSettled, IsPending, pass-IsPassed, pass_again, settle_lem,
}

-- A reload reads the timer back as it was.
abbrev IsKept : Happening → Provider → Type 0
IsKept (reloaded clock) p = p.stored ≡ save p.timer
IsKept _ p = Unit

happen-IsPending :
    (today : Text) (e : Happening) (p : Provider)
    → IsSettled p
    → IsKept e p
    → IsPending (happen today e p)
unfolding happen load save
happen-IsPending today (acted a) p h k = ground arith
happen-IsPending today (reloaded clock) p h k = rw k (ground arith)
happen-IsPending today retried p h k = ground arith

-- The requests that a history calls for: one for each session that ends in it and one for each
-- press of "retry", in order.
unfoldable pub expected : List Moment → Provider → List Session
expected [] p = []
expected (m ∷ ms) p = calls_for m p.timer (live m p).timer ++ expected ms (live m p)

abbrev is_reload : Happening → Bool
is_reload (reloaded clock) = true
is_reload _ = false

-- Every reload finds the store as the moment before it left the timer: it could be written then. The
-- flag says that of the moment before the first.
abbrev pub finds_kept : Bool → List Moment → Bool
finds_kept kept [] = true
finds_kept kept (m ∷ ms) = (kept || not (is_reload m.happening)) && finds_kept m.writable ms

-- React's double run of the recording effect in development, with the state of one render, sends
-- what a single run sends.
log_effect_twice :
    (today : Text) (seen : TimerState) (p : Provider)
    → log_effect today seen (log_effect today seen p) ≡ log_effect today seen p
unfolding log_effect
log_effect_twice today seen p = ground arith

write_twice :
    (ok : Bool) (t : TimerState) (stored : Saved)
    → write ok t (write ok t stored) ≡ write ok t stored
unfolding write
write_twice true t stored = refl
write_twice false t stored = refl

-- The effects come to rest after two commits: a third changes nothing.
settle_rests :
    (ok : Bool) (account : Option ℕ) (today : Text) (e : Happening) (p : Provider)
    → IsSettled p
    → IsKept e p
    → pass ok account today (settle ok account today (happen today e p))
      ≡ settle ok account today (happen today e p)
settle_rests ok account today e p h k =
    let mid = happen today e p in
    let ready = happen-IsPending today e p h k in
    let q = pass-IsPassed ok account today mid ready in
    let r = pass ok account today mid in
    let rest : Provider = record r { stored = write ok r.timer r.stored } in
    let again : pass ok account today rest ≡ record rest { stored = write ok r.timer rest.stored } =
      pass_again ok account today rest (record {
        done_logged = q.done_logged;
        open_fresh = q.open_fresh;
        open_unlogged = q.open_unlogged;
        applied = q.applied;
      }) in
    let end : pass ok account today rest ≡ rest =
      again ∙ ap (λ st. record rest { stored = st }) (write_twice ok r.timer r.stored) in
    let settled = settle_lem ok account today mid ready in
    ap (pass ok account today) settled ∙ end ∙ sym settled
