-- ===== src/ListScreen/Screen.antt =====
-- The state of the list of notes and what is done on it (web/src/features/notes/NotesPage.tsx). The
-- rows come from the query, the requests go to its mutations; a control that the screen does not
-- show, or shows disabled, does nothing.
use konku.Common.{
  ℕ, Bool, true, false, ◌&&◌, not, Text, truthy, Option, none, some, List, [], ◌∷◌, ◌++◌, length,
  ltb, if◌then◌else◌,
}
use konku.Common.Trim.{trim}
use konku.Queries.Requests.{Params}
use konku.Selection.{toggle, toggle_all, ordered, count}
use konku.ListScreen.Params.{
  set_param, toggle_param, clear_param, is_deleted, query, domain_ids, category_ids,
}

-- What the last delete removed.
pub record Undo : Type 0 where
  pub ids : List Text
  pub count : ℕ

pub data Request : Type 0 where
  remove restore : List Text → Request
  create : Request

-- Whose callback waits on the restore in flight.
pub data Restoring : Type 0 where
  idle undoing selected : Restoring

-- `opened` is the rows that were opened as previews, `sent` the requests, the oldest first.
pub record Screen : Type 0 where
  pub params : Params
  pub ids : List Text
  pub raw : List Text
  pub confirming : Bool
  pub undo : Option Undo
  pub leaving : Bool
  pub removing : Option (List Text)
  pub restoring : Restoring
  pub creating : Bool
  pub opened : List Text
  pub sent : List Request

unfoldable pub shown : Params → Screen
shown params = record {
  params = params;
  ids = [];
  raw = [];
  confirming = false;
  undo = none;
  leaving = false;
  removing = none;
  restoring = idle;
  creating = false;
  opened = [];
  sent = [];
}

unfoldable pub filtering : Params → Bool
filtering ps =
    if truthy (trim (query ps))
    then true
    else if ltb 0 (length (domain_ids ps))
    then true
    else ltb 0 (length (category_ids ps))

unfoldable pub open_row : Text → Screen → Screen
open_row id s =
    if is_deleted s.params
    then record s { raw = toggle id s.raw }
    else record s { opened = s.opened ++ id ∷ [] }

abbrev pub confirm_by : Option (List Text) → Screen → Screen
confirm_by none s = record s {
  removing = some (ordered s.ids s.raw);
  sent = s.sent ++ remove (ordered s.ids s.raw) ∷ [];
}
confirm_by (some ids) s = s

-- The dialog's button, off while a removal is in flight.
unfoldable pub confirm_delete : Screen → Screen
confirm_delete s = if s.confirming then confirm_by s.removing s else s

abbrev pub removed_by : Option (List Text) → ℕ → Screen → Screen
removed_by none n s = s
removed_by (some ids) n s = record s {
  confirming = false;
  raw = [];
  undo = some (record { ids = ids; count = n });
  removing = none;
}

abbrev pub is_idle : Restoring → Bool
is_idle idle = true
is_idle undoing = false
is_idle selected = false

abbrev pub undo_by : Option Undo → Screen → Screen
undo_by none s = s
undo_by (some u) s =
    if is_idle s.restoring
    then record s { restoring = undoing; sent = s.sent ++ restore u.ids ∷ [] }
    else s

unfoldable pub undo_delete : Screen → Screen
undo_delete s = undo_by s.undo s

-- The selection bar is there when a visible row is ticked.
unfoldable pub has_bar : Screen → Bool
has_bar s = ltb 0 (count s.ids s.raw)

unfoldable pub restore_selected : Screen → Screen
restore_selected s =
    if has_bar s && is_deleted s.params && is_idle s.restoring
    then record s { restoring = selected; sent = s.sent ++ restore (ordered s.ids s.raw) ∷ [] }
    else s

abbrev pub restored_by : Restoring → Screen → Screen
restored_by idle s = s
restored_by undoing s = record s { undo = none; restoring = idle }
restored_by selected s = record s { raw = []; restoring = idle }

unfoldable pub new_note : Screen → Screen
new_note s =
    if not (is_deleted s.params) && not s.creating
    then record s { creating = true; sent = s.sent ++ create ∷ [] }
    else s

-- The three writers of the address each withdraw the offer to undo.
pub data Event : Type 0 where
  param_set : Text → Option Text → Event
  param_toggled : Text → Text → Event
  param_cleared : Text → Event
  listed : List Text → Event
  ticked row_pressed : Text → Event
  all_pressed selection_cleared delete_pressed dialog_closed confirmed : Event
  removed : ℕ → Event
  remove_failed undo_pressed restore_pressed restored restore_failed : Event
  new_pressed created create_failed : Event

unfoldable pub handle : Event → Screen → Screen
handle (param_set key value) s = record s { params = set_param key value s.params; undo = none }
handle (param_toggled key id) s = record s { params = toggle_param key id s.params; undo = none }
handle (param_cleared key) s = record s { params = clear_param key s.params; undo = none }
handle (listed ids) s = record s { ids = ids }
handle (ticked id) s = record s { raw = toggle id s.raw }
handle (row_pressed id) s = open_row id s
handle all_pressed s = if has_bar s then record s { raw = toggle_all s.ids s.raw } else s
handle selection_cleared s = if has_bar s then record s { raw = [] } else s
handle delete_pressed s =
    if has_bar s && not (is_deleted s.params) then record s { confirming = true } else s
handle dialog_closed s = record s { confirming = false }
handle confirmed s = confirm_delete s
handle (removed n) s = removed_by s.removing n s
handle remove_failed s = record s { removing = none }
handle undo_pressed s = undo_delete s
handle restore_pressed s = restore_selected s
handle restored s = restored_by s.restoring s
handle restore_failed s = record s { restoring = idle }
handle new_pressed s = new_note s
handle created s = if s.creating then record s { creating = false; leaving = true } else s
handle create_failed s = record s { creating = false }

unfoldable pub handle_all : List Event → Screen → Screen
handle_all [] s = s
handle_all (e ∷ es) s = handle_all es (handle e s)

-- The view, and whether the list opens a row of its own accord.
pub data ViewMode : Type 0 where
  list grid : ViewMode

abbrev pub is_list : ViewMode → Bool
is_list list = true
is_list grid = false

unfoldable pub auto_enabled : ViewMode → Screen → Bool
auto_enabled view s = is_list view && not (is_deleted s.params) && not s.leaving
