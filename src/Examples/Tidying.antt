-- ===== src/Examples/Tidying.antt =====
-- The log of two days, a screen that crashes, a changed password and a new category.
use konku.Common.{
  ◌≡◌, ◌≢◌, ◌↔◌, refl, true, false, Text, codes, str_eq, none, some, List, [], ◌∷◌, ◌++◌, All,
}
use konku.Common.Trim.{trim, trim_end, trim_start, is_space}
use konku.Timer.Log.{FocusSession, Day, opened, group_by_day, AreDays, all_sessions}
use konku.Timer.Log.Laws.{group_by_day_lem}
use konku.Reporting.{text, fresh}
use konku.Boundary
use konku.Boundary.{Boundary, view, updated, render, did_catch, broke, Failure}
use konku.Boundary.Laws.{view_of, reporter_of, updated_lem}
use konku.Form.{Values, Parsed, success}
use konku.Settings.Password
use konku.Settings.Password.{
  Passwords, typed, submitted, dismissed, answered, mounted, IsClean, IsAccepted, closed_lem,
}
use konku.Labels
use konku.Labels.{Screen, create, recolour, created, recoloured, cancelled, added}
use konku.Labels.Laws.{saved_lem, closed_by_old}

abbrev session : Text → Text → FocusSession
session id date = record { id = id; session_date = date; duration_minutes = 20 }

abbrev sessions : List FocusSession
sessions =
    session (codes "a") (codes "2025-03-02")
    ∷ session (codes "b") (codes "2025-03-01")
    ∷ session (codes "c") (codes "2025-03-01")
    ∷ []

abbrev days : List Day
days =
    opened (session (codes "a") (codes "2025-03-02"))
    ∷ record {
      date = codes "2025-03-01";
      total_minutes = 40;
      sessions =
          session (codes "b") (codes "2025-03-01") ∷ session (codes "c") (codes "2025-03-01") ∷ [];
    }
    ∷ []

group_by_day_lem_example :
    (days ≡ group_by_day sessions) ↔ (AreDays days × (all_sessions days ≡ sessions))
group_by_day_lem_example = group_by_day_lem sessions days

abbrev failing : Failure
failing = (text (codes "boom"), codes " at NotesPage")

abbrev start : Boundary
start = record { crashed = false; reset_key = codes "/home"; reporter = fresh }

abbrev crashed : Boundary
crashed = Boundary.handle_all (broke (codes "/home") failing ∷ []) start

updated_lem_example :
    (view (Boundary.handle (updated (codes "/notes") (codes "/notes") (some failing)) crashed)
      ≡ view_of (some failing))
    × ((Boundary.handle (updated (codes "/notes") (codes "/notes") (some failing)) crashed).reporter
        ≡ reporter_of (codes "/notes") (some failing) crashed.reporter)
    × ((Boundary.handle
          (updated (codes "/notes") (codes "/notes") (some failing))
          crashed).reset_key
        ≡ codes "/notes")
unfolding Boundary.handle_all Boundary.handle render did_catch str_eq
updated_lem_example =
    updated_lem (broke (codes "/home") failing ∷ []) start (codes "/notes") (codes "/notes")
      (some failing) refl

-- A schema that takes any pair of passwords that are given.
abbrev parse : Values → Parsed Passwords
parse v =
    success
      (record { current_password = v (codes "currentPassword"); password = v (codes "password") })

abbrev fields : List Text
fields = codes "currentPassword" ∷ codes "password" ∷ []

abbrev changing : List Password.Event
changing =
    Password.opened
    ∷ typed (codes "password") (codes "correct horse battery")
    ∷ submitted
    ∷ dismissed
    ∷ answered none
    ∷ []

closed_lem_example :
    ((Password.handle_all parse fields changing (mounted parse fields)).is_open ≡ false
      → IsClean parse fields (Password.handle_all parse fields changing (mounted parse fields)))
    × All (IsAccepted parse) (Password.handle_all parse fields changing (mounted parse fields)).sent
closed_lem_example = closed_lem parse fields changing

abbrev form : Labels.Form
form = record { key = 0; label = codes " history "; color = codes "#6A8D73"; busy = false }

abbrev screen : Screen
screen = record { form = some form; mounted = 1; flows = []; sent = [] }

abbrev edits : List Labels.Event
edits = Labels.typed (codes "geography") ∷ Labels.coloured (codes "#B08968") ∷ []

saved_lem_example :
    ((Labels.handle_all
        (Labels.submitted
          ∷ (edits ++ created 0 (some (codes "c1", codes "#5C6B73")) ∷ recoloured 0 false ∷ []))
        screen).form
      ≡ none)
    × ((Labels.handle_all
          (Labels.submitted
            ∷ (edits ++ created 0 (some (codes "c1", codes "#5C6B73")) ∷ recoloured 0 false ∷ []))
          screen).sent
        ≡ create (trim form.label) ∷ recolour (codes "c1") form.color ∷ [])
unfolding trim trim_end trim_start is_space str_eq
saved_lem_example =
    saved_lem form screen edits (codes "c1") (codes "#5C6B73") false refl refl refl (tt, (tt, tt))

closed_by_old_example :
    ((Labels.handle_all (Labels.submitted ∷ cancelled ∷ added ∷ edits) screen).form ≢ none)
    × ((Labels.handle_all
          (created 0 (some (codes "c1", codes "#6A8D73")) ∷ recoloured 0 true ∷ [])
          (Labels.handle_all (Labels.submitted ∷ cancelled ∷ added ∷ edits) screen)).form
        ≡ none)
unfolding trim trim_end trim_start is_space
closed_by_old_example =
    closed_by_old form screen edits (codes "c1") (codes "#6A8D73") true refl refl refl
      (tt, (tt, tt))
