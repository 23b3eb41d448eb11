-- ===== src/ReviewSets/Screen.antt =====
-- The screen of one saved set: `ReviewSetPage` and its `CardPicker` in
-- web/src/features/review/ReviewSetPage.tsx, once its set has been loaded.
use konku.Common.{
  Bool, true, false, Text, codes, Option, none, some, List, [], ◌∷◌, ◌++◌, if◌then◌else◌,
}
use konku.ReviewSets.{toggle}

pub data Request : Type 0 where
  start_run : (set_id run_date : Text) → Request
  set_cards : (set_id : Text) → List Text → Request
  archive_set delete_set : (set_id : Text) → Request

-- `gone` is where the screen went, which takes it off. `chosen` is the picker's state, which starts
-- as the pinned cards; the rest are the mutations in flight.
pub record SetScreen : Type 0 where
  pub id : Text
  pub chosen : List Text
  pub starting : Bool
  pub saving : Bool
  pub archiving : Bool
  pub deleting : Bool
  pub gone : Option Text
  pub sent : List Request

unfoldable pub opened : Text → List Text → SetScreen
opened id pinned = record {
  id = id;
  chosen = pinned;
  starting = false;
  saving = false;
  archiving = false;
  deleting = false;
  gone = none;
  sent = [];
}

-- A press with the day of the device, a ticked card, the buttons, and the answers. The buttons that
-- archive and delete stay on; the answer is that of the last request of its kind.
pub data Event : Type 0 where
  begun : (today : Text) → Event
  run_answered : Option Text → Event
  ticked : Text → Event
  saved archived deleted : Event
  cards_answered archive_answered delete_answered : Bool → Event

unfoldable pub begin : Text → SetScreen → SetScreen
begin today s =
    if s.starting
    then s
    else record s { starting = true; sent = s.sent ++ start_run s.id today ∷ [] }

abbrev pub run_path : Text → Text
run_path id = codes "/review/runs/" ++ id

-- `onSuccess: (run) => navigate(...)`.
abbrev pub started : Option Text → SetScreen → SetScreen
started none s = record s { starting = false }
started (some run) s = record s { starting = false; gone = some (run_path run) }

unfoldable pub submit_cards : SetScreen → SetScreen
submit_cards s =
    if s.saving
    then s
    else record s { saving = true; sent = s.sent ++ set_cards s.id s.chosen ∷ [] }

abbrev pub leave_on : Bool → Option Text
leave_on true = some (codes "/review")
leave_on false = none

unfoldable pub on_screen : Event → SetScreen → SetScreen
on_screen (begun today) s = begin today s
on_screen (run_answered answer) s = if s.starting then started answer s else s
on_screen (ticked card) s = record s { chosen = toggle card s.chosen }
on_screen saved s = submit_cards s
on_screen (cards_answered ok) s = record s { saving = false }
on_screen archived s = record s { archiving = true; sent = s.sent ++ archive_set s.id ∷ [] }
on_screen (archive_answered ok) s =
    if s.archiving then record s { archiving = false; gone = leave_on ok } else s
on_screen deleted s = record s { deleting = true; sent = s.sent ++ delete_set s.id ∷ [] }
on_screen (delete_answered ok) s =
    if s.deleting then record s { deleting = false; gone = leave_on ok } else s

abbrev pub handle_by : Option Text → Event → SetScreen → SetScreen
handle_by none e s = on_screen e s
handle_by (some path) e s = s

unfoldable pub handle : Event → SetScreen → SetScreen
handle e s = handle_by s.gone e s

unfoldable pub handle_all : List Event → SetScreen → SetScreen
handle_all [] s = s
handle_all (e ∷ es) s = handle_all es (handle e s)
