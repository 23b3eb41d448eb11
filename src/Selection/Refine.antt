-- ===== src/Selection/Refine.antt =====
-- The ticked rows as a set: what the hook of web/src/lib/use-selection.ts stands for, with the order
-- in which rows were ticked forgotten.
use konku.Common.{
  ◌≡◌, refl, ap, ◌∙◌, Bool, false, ◌&&◌, not, Text, List, [], ◌∷◌, length, every, filter, str_eq,
  ltb, if◌then◌else◌,
}
use mathlib.Core.Path.{fun_ext}
use konku.Common.Sets.{has}
use konku.Selection.{toggle, clear, all_on, toggle_all, ordered}
use konku.Selection.Laws.{has-toggle, has-toggle_all, ordered_lem}

-- What the hook gives the screen: a row is pressed, the control of all rows is pressed over a visible
-- list, the selection is cleared.
pub data Event : Type 0 where
  pressed : Text → Event
  all_pressed : List Text → Event
  cleared : Event

unfoldable pub handle : Event → List Text → List Text
handle (pressed id) raw = toggle id raw
handle (all_pressed ids) raw = toggle_all ids raw
handle cleared raw = clear raw

unfoldable pub handle_all : List Event → List Text → List Text
handle_all [] raw = raw
handle_all (e ∷ es) raw = handle_all es (handle e raw)

-- A set of rows.
abbrev pub Ticked : Type 0
Ticked = Text → Bool

abbrev pub nothing : Ticked
nothing y = false

abbrev flip : Text → Ticked → Ticked
flip id ticked y = if str_eq id y then not (ticked id) else ticked y

-- Every row of a list that is not empty is in the set.
abbrev covers : List Text → Ticked → Bool
covers ids ticked = ltb 0 (length ids) && every ticked ids

abbrev flip_all : List Text → Ticked → Ticked
flip_all ids ticked y = if has y ids then not (covers ids ticked) else ticked y

unfoldable pub meant : Event → Ticked → Ticked
meant (pressed id) ticked = flip id ticked
meant (all_pressed ids) ticked = flip_all ids ticked
meant cleared ticked = nothing

unfoldable pub all_meant : List Event → Ticked → Ticked
all_meant [] ticked = ticked
all_meant (e ∷ es) ticked = all_meant es (meant e ticked)

abbrev pub in_set : List Text → Ticked
in_set raw y = has y raw

handle-meant : (e : Event) (raw : List Text) → in_set (handle e raw) ≡ meant e (in_set raw)
unfolding handle meant
handle-meant (pressed id) raw = fun_ext (λ y. has-toggle id y raw)
handle-meant (all_pressed ids) raw = fun_ext (λ y. has-toggle_all ids raw y ∙ unfold all_on in refl)
handle-meant cleared raw = fun_ext (λ y. unfold clear has in refl)

handle_all-meant :
    (es : List Event) (raw : List Text) → in_set (handle_all es raw) ≡ all_meant es (in_set raw)
unfolding handle_all all_meant
handle_all-meant [] raw = refl
handle_all-meant (e ∷ es) raw =
    handle_all-meant es (handle e raw) ∙ ap (all_meant es) (handle-meant e raw)

-- Whatever is pressed over whatever lists, the rows that are ticked are those of the set that the
-- presses mean, each press flipping its row, or all the visible rows together; and what a mutation
-- is sent is the visible rows of that set, in the order of the list.
pub handle_all_refines :
    (es : List Event) (ids : List Text)
    → (in_set (handle_all es []) ≡ all_meant es nothing)
      × (ordered ids (handle_all es []) ≡ filter (all_meant es nothing) ids)
handle_all_refines es ids =
    let same : in_set (handle_all es []) ≡ all_meant es nothing =
      handle_all-meant es [] ∙ ap (all_meant es) (unfold has in refl) in
    (same, ordered_lem ids (handle_all es []) ∙ ap (λ p. filter p ids) same)
