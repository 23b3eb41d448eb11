-- ===== src/Labels/Laws.antt =====
-- What saving a new category sends, and which form it closes.
use mathlib.Core.Path.{subst}
use konku.Common.{
  suc, ◌≡◌, ◌≢◌, refl, sym, ap, ◌∙◌, inl, inr, Bool, true, false, Text, str_eq, truthy, Option,
  none, some, List, [], ◌∷◌, ◌++◌, append_assoc, length, get_elem?, All, if◌then◌else◌, Bool-cases,
}
use konku.Common.Trim.{trim}
use konku.Labels.{
  create, recolour, Form, Flow, Stage, creating, recolouring, finished, Screen, Event, added,
  cancelled, submitted, typed, coloured, created, recoloured, set, submit_by, on_created,
  on_recoloured, handle, handle_all, first_color,
}

-- Typing and choosing a colour.
abbrev pub IsEdit : Event → Type 0
IsEdit (typed text) = Unit
IsEdit (coloured color) = Unit
IsEdit _ = ⊥

abbrev edited : Event → Form → Form
edited (typed text) f = record f { label = text }
edited (coloured color) f = record f { color = color }
edited _ f = f

abbrev all_edited : List Event → Form → Form
all_edited [] f = f
all_edited (e ∷ es) f = all_edited es (edited e f)

edited_screen :
    (e : Event) (f : Form) (s : Screen)
    → IsEdit e
    → handle e (record s { form = some f }) ≡ record s { form = some (edited e f) }
unfolding handle
edited_screen (typed text) f s h = refl
edited_screen (coloured color) f s h = refl
edited_screen added f s h = absurd h
edited_screen cancelled f s h = absurd h
edited_screen submitted f s h = absurd h
edited_screen (created n answer) f s h = absurd h
edited_screen (recoloured n ok) f s h = absurd h

all_edited_screen :
    (es : List Event) (f : Form) (s : Screen)
    → All IsEdit es
    → handle_all es (record s { form = some f }) ≡ record s { form = some (all_edited es f) }
unfolding handle_all
all_edited_screen [] f s h = refl
all_edited_screen (e ∷ es) f s (h, hs) =
    ap (handle_all es) (edited_screen e f s h) ∙ all_edited_screen es (edited e f) s hs

handle_all-append :
    (es later : List Event) (s : Screen)
    → handle_all (es ++ later) s ≡ handle_all later (handle_all es s)
unfolding handle_all
handle_all-append [] later s = refl
handle_all-append (e ∷ es) later s = handle_all-append es later (handle e s)

get_elem?-last :
    (flows : List Flow) (f : Flow) → get_elem? (flows ++ f ∷ []) (length flows) ≡ some f
get_elem?-last [] f = refl
get_elem?-last (g ∷ flows) f = get_elem?-last flows f

set-last :
    (flows : List Flow) (f : Flow) (stage : Stage)
    → set (flows ++ f ∷ []) (length flows) stage ≡ flows ++ record f { stage = stage } ∷ []
set-last [] f stage = refl
set-last (g ∷ flows) f stage = ap (λ t. g ∷ t) (set-last flows f stage)

-- The run that a form starts.
abbrev started : Form → Flow
started f = record { owner = f.key; color = f.color; stage = creating }

abbrev saving : Form → Screen → Screen
saving f s = record s {
  form = some (record f { busy = true });
  flows = s.flows ++ started f ∷ [];
  sent = s.sent ++ create (trim f.label) ∷ [];
}

submitted_screen :
    (f : Form) (s : Screen)
    → s.form ≡ some f
    → f.busy ≡ false
    → truthy (trim f.label) ≡ true
    → handle submitted s ≡ saving f s
unfolding handle
submitted_screen f s h b t =
    ap (λ o. submit_by o s) h
    ∙ ap (λ x. if x then s else if truthy (trim f.label) then saving f s else s) b
    ∙ ap (λ x. if x then saving f s else s) t

abbrev closing : Form → Screen → Screen
closing f s = record (saving f s) {
  form = none;
  flows = s.flows ++ record (started f) { stage = finished } ∷ [];
}

abbrev repainting : Form → Text → Option Form → Screen → Screen
repainting f id g s = record (saving f s) {
  form = g;
  flows = s.flows ++ record (started f) { stage = recolouring } ∷ [];
  sent = (s.sent ++ create (trim f.label) ∷ []) ++ recolour id f.color ∷ [];
}

created_screen :
    (f : Form) (g : Option Form) (s : Screen) (id color : Text)
    → handle (created (length s.flows) (some (id, color))) (record (saving f s) { form = g })
      ≡ (if str_eq color f.color then closing f s else repainting f id g s)
unfolding handle
created_screen f g s id color =
    ap (λ o. on_created (length s.flows) o (some (id, color)) (record (saving f s) { form = g }))
      (get_elem?-last s.flows (started f))
    ∙ elim (Bool-cases (str_eq color f.color)) [
      | inl e ↦ rw e (
          ap (λ (x : List Flow). record (closing f s) { flows = x })
            (set-last s.flows (started f) finished))
      | inr e ↦ rw e (
          ap (λ (x : List Flow). record (repainting f id g s) { flows = x })
            (set-last s.flows (started f) recolouring))
    ]

recoloured_closing :
    (f : Form) (s : Screen) (ok : Bool)
    → handle (recoloured (length s.flows) ok) (closing f s) ≡ closing f s
unfolding handle
recoloured_closing f s ok =
    ap (λ o. on_recoloured (length s.flows) o (closing f s))
      (get_elem?-last s.flows (record (started f) { stage = finished }))

recoloured_repainting :
    (f : Form) (id : Text) (g : Option Form) (s : Screen) (ok : Bool)
    → handle (recoloured (length s.flows) ok) (repainting f id g s)
      ≡ record (closing f s) { sent = (repainting f id g s).sent }
unfolding handle
recoloured_repainting f id g s ok =
    ap (λ o. on_recoloured (length s.flows) o (repainting f id g s))
      (get_elem?-last s.flows (record (started f) { stage = recolouring }))
    ∙ ap (λ (x : List Flow). record (closing f s) { flows = x; sent = (repainting f id g s).sent })
        (set-last s.flows (record (started f) { stage = recolouring }) finished)

-- What the two answers come to, whatever form is on the screen.
answered :
    (f : Form) (g : Option Form) (s : Screen) (id color : Text) (ok : Bool)
    → let a =
        handle (recoloured (length s.flows) ok) (
          handle
            (created (length s.flows) (some (id, color)))
            (record (saving f s) { form = g })) in
      (a.form ≡ none)
      × (a.sent
          ≡ s.sent
            ++ (create (trim f.label)
                ∷ (if str_eq color f.color then [] else recolour id f.color ∷ [])))
answered f g s id color ok =
    rw (created_screen f g s id color) (elim (Bool-cases (str_eq color f.color)) [
      | inl e ↦ rw (e, recoloured_closing f s ok) (refl, refl)
      | inr e ↦
          rw (e, recoloured_repainting f id g s ok)
            (refl, append_assoc s.sent (create (trim f.label) ∷ []) (recolour id f.color ∷ []))
    ])

-- Saving a form with a name asks for the category under its trimmed name; once that is there, for the
-- colour that the form had when it was saved, if the category has another; and then it closes the
-- form, whether that colour was stored or not, whatever was typed in the meantime.
pub saved_lem :
    (f : Form) (s : Screen) (edits : List Event) (id color : Text) (ok : Bool)
    → s.form ≡ some f
    → f.busy ≡ false
    → truthy (trim f.label) ≡ true
    → All IsEdit edits
    → let n = length s.flows in
      let a =
        handle_all (submitted ∷ (edits ++ created n (some (id, color)) ∷ recoloured n ok ∷ [])) s in
      (a.form ≡ none)
      × (a.sent
          ≡ s.sent
            ++ (create (trim f.label)
                ∷ (if str_eq color f.color then [] else recolour id f.color ∷ [])))
unfolding handle_all
saved_lem f s edits id color ok h b t es =
    let n = length s.flows in
    let later = created n (some (id, color)) ∷ recoloured n ok ∷ [] in
    let g = some (all_edited edits (record f { busy = true })) in
    let same : handle_all (submitted ∷ (edits ++ later)) s
        ≡ handle (recoloured n ok)
            (handle (created n (some (id, color))) (record (saving f s) { form = g })) =
      ap (handle_all (edits ++ later)) (submitted_screen f s h b t)
      ∙ handle_all-append edits later (saving f s)
      ∙ ap (handle_all later)
          (all_edited_screen edits (record f { busy = true }) (saving f s) es) in
    subst
      (λ (a : Screen).
        (a.form ≡ none)
        × (a.sent
            ≡ s.sent
              ++ (create (trim f.label)
                  ∷ (if str_eq color f.color then [] else recolour id f.color ∷ []))))
      (sym same) (answered f g s id color ok)

-- The next form, while the run of the old one goes on.
reopened :
    (f : Form) (s : Screen)
    → handle added (handle cancelled (saving f s))
      ≡ record (saving f (record s { mounted = suc s.mounted })) {
        form = some (record { key = s.mounted; label = []; color = first_color; busy = false });
      }
unfolding handle
reopened f s = refl

-- A form that is saved, cancelled before the answer and opened anew: whatever has been entered in the
-- new form, it is there until the answers to the old one come, which close it.
pub closed_by_old :
    (f : Form) (s : Screen) (edits : List Event) (id color : Text) (ok : Bool)
    → s.form ≡ some f
    → f.busy ≡ false
    → truthy (trim f.label) ≡ true
    → All IsEdit edits
    → let n = length s.flows in
      let b = handle_all (submitted ∷ cancelled ∷ added ∷ edits) s in
      (b.form ≢ none)
      × ((handle_all (created n (some (id, color)) ∷ recoloured n ok ∷ []) b).form ≡ none)
unfolding handle_all
closed_by_old f s edits id color ok h b t es =
    let n = length s.flows in
    let fresh : Form = record { key = s.mounted; label = []; color = first_color; busy = false } in
    let new : Screen = record s { mounted = suc s.mounted } in
    let same : handle_all (submitted ∷ cancelled ∷ added ∷ edits) s
        ≡ record (saving f new) { form = some (all_edited edits fresh) } =
      ap (λ x. handle_all (cancelled ∷ added ∷ edits) x) (submitted_screen f s h b t)
      ∙ ap (handle_all edits) (reopened f s)
      ∙ all_edited_screen edits fresh (saving f new) es in
    (
      λ e. no_form (sym (ap (λ x. x.form) same) ∙ e),
      ap (λ (x : Screen). (handle_all (created n (some (id, color)) ∷ recoloured n ok ∷ []) x).form)
            same
          ∙ (answered f (some (all_edited edits fresh)) new id color ok).0,
    )
  where
    no_form : {g : Form} → some g ≡ none → ⊥
    no_form h = cc
