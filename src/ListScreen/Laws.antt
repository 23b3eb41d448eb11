-- ===== src/ListScreen/Laws.antt =====
-- What the list screen asks for: its deletes and their undoing, and its silence once it hands over
-- to the editor.
use konku.Common.{
  ℕ, ◌≡◌, refl, ap, ◌∙◌, Bool, true, false, Text, Option, none, some, List, [], ◌∷◌, ◌++◌, All,
  append_assoc, if◌then◌else◌, arith,
}
use konku.Selection.{ordered}
use konku.Peek.{Router, auto_select}
use konku.ListScreen.Screen.{
  Undo, Request, remove, restore, Restoring, idle, Screen, open_row, confirm_by, confirm_delete,
  removed_by, undo_delete, restore_selected, new_note, Event, listed, ticked, row_pressed,
  all_pressed, selection_cleared, delete_pressed, dialog_closed, confirmed, removed, undo_pressed,
  created, handle, handle_all, ViewMode, auto_enabled,
}

-- What is done on the rows: none of it writes the address or sends a request.
abbrev pub IsOnRows : Event → Type 0
IsOnRows (listed ids) = Unit
IsOnRows (ticked id) = Unit
IsOnRows (row_pressed id) = Unit
IsOnRows all_pressed = Unit
IsOnRows selection_cleared = Unit
IsOnRows delete_pressed = Unit
IsOnRows dialog_closed = Unit
IsOnRows _ = ⊥

-- What the offer to undo stands on.
abbrev offer : Screen → Option Undo × Restoring × Option (List Text) × List Request
offer s = (s.undo, s.restoring, s.removing, s.sent)

offer-handle : (e : Event) (s : Screen) → IsOnRows e → offer (handle e s) ≡ offer s
unfolding handle open_row
offer-handle (listed ids) s h = refl
offer-handle (ticked id) s h = refl
offer-handle (row_pressed id) s h = ground arith
offer-handle all_pressed s h = ground arith
offer-handle selection_cleared s h = ground arith
offer-handle delete_pressed s h = ground arith
offer-handle dialog_closed s h = refl
offer-handle _ s h = absurd h

offer-handle_all :
    (es : List Event) (s : Screen) → All IsOnRows es → offer (handle_all es s) ≡ offer s
unfolding handle_all
offer-handle_all [] s h = refl
offer-handle_all (e ∷ es) s (h, hs) = offer-handle_all es (handle e s) hs ∙ offer-handle e s h

handle_all-append :
    (es fs : List Event) (s : Screen) → handle_all (es ++ fs) s ≡ handle_all fs (handle_all es s)
unfolding handle_all
handle_all-append [] fs s = refl
handle_all-append (e ∷ es) fs s = handle_all-append es fs (handle e s)

undone :
    (s : Screen) (u : Undo)
    → s.undo ≡ some u
    → s.restoring ≡ idle
    → (handle undo_pressed s).sent ≡ s.sent ++ restore u.ids ∷ []
unfolding handle undo_delete
undone s u e i = ground (arith, e, i)

leaving_kept : (e : Event) (s : Screen) → s.leaving ≡ true → (handle e s).leaving ≡ true
unfolding handle open_row confirm_delete undo_delete restore_selected new_note
leaving_kept e s h = ground (arith, h)

confirm_lem :
    (s : Screen) → s.confirming ≡ true → s.removing ≡ none → confirm_delete s ≡ confirm_by none s
unfolding confirm_delete
confirm_lem s c r =
    ap (λ b. if b then confirm_by s.removing s else s) c ∙ ap (λ o. confirm_by o s) r

abbrev removed_on : ℕ → Screen → Screen
removed_on n s = removed_by s.removing n s

confirmed_offer :
    (s : Screen)
    → s.confirming ≡ true
    → s.removing ≡ none
    → offer (handle confirmed s) ≡ (
      s.undo,
      s.restoring,
      some (ordered s.ids s.raw),
      s.sent ++ remove (ordered s.ids s.raw) ∷ [],
    )
unfolding handle
confirmed_offer s c r = ap offer (confirm_lem s c r)

removed_offer :
    (n : ℕ) (ids : List Text) (s : Screen)
    → s.removing ≡ some ids
    → offer (handle (removed n) s)
      ≡ (some (record { ids = ids; count = n }), s.restoring, none, s.sent)
unfolding handle
removed_offer n ids s r = ap (λ o. offer (removed_by o n s)) r

-- After a delete is confirmed, undoing it restores exactly the rows that it deleted, which are the rows
-- that were visible and ticked when it was confirmed, in the order of the list; and these two requests
-- are all that was sent. That is so whatever is ticked, opened or loaded on the same address while the
-- delete is on its way and after it.
pub undo_lem :
    (n : ℕ) (s : Screen) (ds es : List Event)
    → s.confirming ≡ true
    → s.removing ≡ none
    → s.restoring ≡ idle
    → All IsOnRows ds
    → All IsOnRows es
    → (handle_all (confirmed ∷ (ds ++ removed n ∷ (es ++ undo_pressed ∷ []))) s).sent
      ≡ s.sent ++ remove (ordered s.ids s.raw) ∷ restore (ordered s.ids s.raw) ∷ []
unfolding handle_all
undo_lem n s ds es c r i hd h =
    let ids = ordered s.ids s.raw in
    let t = handle_all ds (handle confirmed s) in
    let u = handle_all es (handle (removed n) t) in
    let asked = offer-handle_all ds (handle confirmed s) hd ∙ confirmed_offer s c r in
    let done = removed_offer n ids t (ap (λ o. o.2) asked) in
    let kept = offer-handle_all es (handle (removed n) t) h ∙ done in
    ap (λ x. x.sent)
      (handle_all-append ds (removed n ∷ (es ++ undo_pressed ∷ [])) (handle confirmed s)
        ∙ handle_all-append es (undo_pressed ∷ []) (handle (removed n) t))
    ∙ undone u (record { ids = ids; count = n }) (ap (λ o. o.0) kept)
        (ap (λ o. o.1) kept ∙ ap (λ o. o.1) asked ∙ i)
    ∙ ap (λ xs. xs ++ restore ids ∷ []) (ap (λ o. o.3) kept ∙ ap (λ o. o.3) asked)
    ∙ append_assoc s.sent (remove ids ∷ []) (restore ids ∷ [])

all_leaving_kept :
    (es : List Event) (s : Screen) → s.leaving ≡ true → (handle_all es s).leaving ≡ true
unfolding handle_all
all_leaving_kept [] s h = h
all_leaving_kept (e ∷ es) s h = all_leaving_kept es (handle e s) (leaving_kept e s h)

leaving_created : (s : Screen) → s.creating ≡ true → (handle created s).leaving ≡ true
unfolding handle
leaving_created s c = ground (arith, c)

auto_off : (view : ViewMode) (s : Screen) → s.leaving ≡ true → auto_enabled view s ≡ false
unfolding auto_enabled
auto_off view s e = ground (arith, e)

auto_select_off :
    (router : Router) (enabled : Bool) (ids : List Text) (prefix : Text) (to_path : Text → Text)
    (h : router.History)
    → enabled ≡ false
    → auto_select router enabled ids prefix to_path h ≡ h
unfolding auto_select
auto_select_off router enabled ids prefix to_path h e = rw e refl

-- Once a note has been created and the screen hands over to its editor, nothing that still happens
-- to the list makes it open a row of its own accord: the navigation to the editor stands.
pub created_stands :
    (s : Screen) (es : List Event) (view : ViewMode) (prefix : Text) (router : Router)
    (h : router.History)
    → s.creating ≡ true
    → let t = handle_all es (handle created s) in
      auto_select router (auto_enabled view t) t.ids prefix (λ id. prefix ++ id) h ≡ h
created_stands s es view prefix router h c =
    let gone : (handle_all es (handle created s)).leaving ≡ true =
      all_leaving_kept es _ (leaving_created s c) in
    auto_select_off router _ _ prefix _ h (auto_off view _ gone)
