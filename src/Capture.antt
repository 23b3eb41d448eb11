-- ===== src/Capture.antt =====
-- The dialog that a finished session opens: web/src/features/timer/CaptureDialog.tsx, shown by
-- CaptureGate.tsx beside it while the timer is done. Closing it resets the timer, which takes it off
-- the screen; the next one is mounted afresh.
pub mod Laws
use konku.Common.{
  ℕ, suc, Bool, true, false, Text, codes, Option, List, [], ◌∷◌, ◌++◌, truthy, if◌then◌else◌,
}
use konku.Common.Trim.{trim}
use konku.Timer.{TimerStatus, idle, running, paused, done, TimerState, reset}

-- What a capture asks the server to create.
pub record Note : Type 0 where
  pub content_md : Text
  pub domain_id : Option Text

-- `pending` is the mutation's, whose state is that of the last save.
pub record Capture : Type 0 where
  pub timer : TimerState
  pub text : Text
  pub pending : Bool
  pub sent : List Note

abbrev pub is_done : TimerStatus → Bool
is_done idle = false
is_done running = false
is_done paused = false
is_done done = true

unfoldable pub close : Capture → Capture
close s = record s { timer = reset s.timer; text = []; pending = false }

unfoldable pub content_of : Text → Text
content_of text = trim text ++ codes "\n"

unfoldable pub save : Capture → Capture
save s =
    if truthy (trim s.text)
    then record s {
      pending = true;
      sent =
          s.sent ++ record { content_md = content_of s.text; domain_id = s.timer.domain_id } ∷ [];
    }
    else close s

-- Typing, the shortcut of the field, the two buttons, a press outside or Escape, and the answer to
-- the last save, which runs its callback while the dialog is there.
pub data Event : Type 0 where
  typed : Text → Event
  keyed saved skipped dismissed succeeded failed : Event

unfoldable pub on_dialog : Event → Capture → Capture
on_dialog (typed text) s = record s { text = text }
on_dialog keyed s = save s
on_dialog saved s = if s.pending then s else save s
on_dialog skipped s = if s.pending then s else close s
on_dialog dismissed s = close s
on_dialog succeeded s = if s.pending then close s else s
on_dialog failed s = record s { pending = false }

unfoldable pub handle : Event → Capture → Capture
handle e s = if is_done s.timer.status then on_dialog e s else s

unfoldable pub handle_all : List Event → Capture → Capture
handle_all [] s = s
handle_all (e ∷ es) s = handle_all es (handle e s)
