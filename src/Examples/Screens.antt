-- ===== src/Examples/Screens.antt =====
-- The list screens: ticked rows, filters, deletes and the search box.
use konku.Common.{◌≡◌, refl, true, Text, codes, List, [], ◌∷◌, ◌++◌, filter}
use konku.Selection.{ordered}
use konku.Selection.Refine
use konku.Selection.Refine.{
  pressed, all_pressed, cleared, all_meant, nothing, in_set, handle_all_refines,
}
use konku.ListScreen.Toggles.{Press}
use konku.ListScreen.Screen.{
  Screen, shown, remove, restore, listed, ticked, confirmed, removed, undo_pressed, handle_all,
}
use konku.ListScreen.Laws.{undo_lem}
use konku.ListScreen.Search
use konku.ListScreen.Search.{mounted, typing, time, rendered, moved, entered, typed, fire}
use konku.ListScreen.Settling.{typed_commits}

abbrev visible : List Text
visible = codes "a" ∷ codes "b" ∷ codes "c" ∷ []

abbrev presses : List Refine.Event
presses = pressed (codes "b") ∷ pressed (codes "x") ∷ all_pressed visible ∷ pressed (codes "a") ∷ []

handle_all_refines_example :
    (in_set (Refine.handle_all presses []) ≡ all_meant presses nothing)
    × (ordered visible (Refine.handle_all presses []) ≡ filter (all_meant presses nothing) visible)
handle_all_refines_example = handle_all_refines presses visible

abbrev filters : List Press
filters =
    (codes "domainId", codes "d2")
    ∷ (codes "categoryId", codes "k")
    ∷ (codes "domainId", codes "d1")
    ∷ []

-- Two rows ticked, and the dialog open.
abbrev asking : Screen
asking = record (shown []) { ids = visible; raw = codes "c" ∷ codes "a" ∷ []; confirming = true }

undo_lem_example :
    (handle_all
      (confirmed
        ∷ ticked (codes "a")
        ∷ removed 2
        ∷ listed []
        ∷ ticked (codes "b")
        ∷ undo_pressed
        ∷ [])
      asking).sent
    ≡ asking.sent
      ++ remove (ordered asking.ids asking.raw) ∷ restore (ordered asking.ids asking.raw) ∷ []
unfolding shown
undo_lem_example =
    undo_lem 2 asking (ticked (codes "a") ∷ []) (listed [] ∷ ticked (codes "b") ∷ []) refl refl refl
      (tt, tt) (tt, (tt, tt))

abbrev search : List Search.Event
search = typing (codes "s") ∷ time ∷ typing (codes "se") ∷ rendered ∷ entered ∷ []

typed_commits_example :
    ((fire (
        Search.handle_all
          (rendered ∷ [])
          (typed (codes "sel") (Search.handle_all search (mounted []))))).text
      ≡ codes "sel")
    × ((fire (
          Search.handle_all
            (rendered ∷ [])
            (typed (codes "sel") (Search.handle_all search (mounted []))))).url
        ≡ codes "sel")
typed_commits_example =
    typed_commits [] (codes "sel") search (rendered ∷ []) (tt, (tt, (tt, (tt, (tt, tt)))))
      (refl, tt)
