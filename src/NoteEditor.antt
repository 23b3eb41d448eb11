-- ===== src/NoteEditor.antt =====
-- The note editor: web/src/features/notes/NoteEditorPage.tsx. The screen's fields, the refs and the
-- save mutation are one record; what is handed to the network is kept in the order of sending.
-- TanStack runs the callbacks of the newest `mutate` alone, so one request is in flight at a time.
pub mod Laws
pub mod Retry
use konku.Common.{
  ℕ, suc, Bool, true, false, ◌&&◌, ◌||◌, not, Text, List, [], ◌∷◌, ◌++◌, Option, none, some, str_eq,
  if◌then◌else◌, min, get_elem?, length, ◌-◌,
}
use konku.Common.SameIds.{same_ids}
use konku.Flush.{PendingWrite, patch}

-- `NoteInput`, and what the editor holds of a `Note`.
pub record Note : Type 0 where
  pub title : Text
  pub content_md : Text
  pub domain_id : Option Text
  pub category_ids : List Text

abbrev pub no_note : Note
no_note = record { title = []; content_md = []; domain_id = none; category_ids = [] }

-- `saved` is the ref, `screen` the four fields, `attempt` the retries of the present failure;
-- `in_flight` and `failed` are the mutation's.
pub record Editor : Type 0 where
  pub screen : Note
  pub saved : Note
  pub loaded : Bool
  pub attempt : ℕ
  pub removed : Bool
  pub in_flight : Option Note
  pub failed : Bool
  pub sent : List Note

abbrev pub opened : Editor
opened = record {
  screen = no_note;
  saved = no_note;
  loaded = false;
  attempt = 0;
  removed = false;
  in_flight = none;
  failed = false;
  sent = [];
}

unfoldable pub same_domain : Option Text → Option Text → Bool
same_domain none none = true
same_domain (some a) (some b) = str_eq a b
same_domain _ _ = false

unfoldable pub differs : Note → Note → Bool
differs a b =
    not (str_eq a.title b.title)
    || not (str_eq a.content_md b.content_md)
    || (not (same_domain a.domain_id b.domain_id) || not (same_ids a.category_ids b.category_ids))

unfoldable pub dirty : Editor → Bool
dirty e = e.loaded && differs e.screen e.saved

-- `doSave`: the mutation starts with what is on screen.
unfoldable pub do_save : Editor → Editor
do_save e = record e { in_flight = some e.screen; failed = false; sent = e.sent ++ e.screen ∷ [] }

unfoldable pub save_if_dirty : Editor → Editor
save_if_dirty e = if dirty e then do_save e else e

-- `RETRY_MS[Math.min(attempt, RETRY_MS.length - 1)]`.
abbrev pub retry_ms : List ℕ
retry_ms = 2000 ∷ 5000 ∷ 15000 ∷ 30000 ∷ 60000 ∷ []

abbrev or_zero : Option ℕ → ℕ
or_zero none = 0
or_zero (some d) = d

unfoldable pub retry_delay : ℕ → ℕ
retry_delay attempt = or_zero (get_elem? retry_ms (min attempt (length retry_ms - 1)))

-- The query's answer: adopted once.
unfoldable pub arrive : Note → Editor → Editor
arrive note e = if e.loaded then e else record e { screen = note; saved = note; loaded = true }

-- The save button, disabled while clean or pending.
unfoldable pub press_save : Editor → Editor
press_save e = elim e.in_flight [ none ↦ save_if_dirty e | some n ↦ e ]

-- The retry's timer, which is set while a failed save leaves the editor dirty.
unfoldable pub retry : Editor → Editor
retry e = if e.failed && dirty e then do_save (record e { attempt = suc e.attempt }) else e

-- Leaving the screen, and the tab going to the background.
unfoldable pub leave : Editor → Editor
leave e = if e.removed then e else save_if_dirty e

-- `pending` of the keepalive path; `stringify` is JSON's.
unfoldable pub pending : (Note → Text) → Text → Editor → Option PendingWrite
pending stringify path e =
    if e.removed || not (dirty e)
    then none
    else some (record { path = path; method = patch; body = stringify e.screen })

respond_by : Option Note → Note → Editor → Editor
respond_by none fresh e = e
respond_by (some n) fresh e = record e {
  saved = fresh;
  attempt = 0;
  in_flight = none;
  failed = false;
}

-- `onSuccess`, with the row that the server answers.
unfoldable pub respond : Note → Editor → Editor
unfolding respond_by
respond fresh e = respond_by e.in_flight fresh e

fail_by : Option Note → Editor → Editor
fail_by none e = e
fail_by (some n) e = record e { in_flight = none; failed = true }

unfoldable pub fail : Editor → Editor
unfolding fail_by
fail e = fail_by e.in_flight e

pub data Event : Type 0 where
  arrived : Note → Event
  edited : Note → Event
  -- The debounce and the `online` listener.
  debounced online pressed retried left hidden removed_now : Event
  answered : Note → Event
  refused : Event

unfoldable pub handle : Event → Editor → Editor
unfolding arrive press_save retry leave respond fail save_if_dirty do_save
handle (arrived note) e = arrive note e
handle (edited fields) e = record e { screen = fields }
handle debounced e = save_if_dirty e
handle online e = save_if_dirty e
handle pressed e = press_save e
handle retried e = retry e
handle left e = leave e
handle hidden e = leave e
handle removed_now e = record e { removed = true }
handle (answered fresh) e = respond fresh e
handle refused e = fail e

unfoldable pub handle_all : List Event → Editor → Editor
handle_all [] e = e
handle_all (ev ∷ evs) e = handle_all evs (handle ev e)
