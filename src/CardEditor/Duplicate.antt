-- ===== src/CardEditor/Duplicate.antt =====
-- A creation that is still in flight when the screen is left is sent a second time.
use konku.Common.{◌≡◌, true, false, [], ◌∷◌, ◌++◌, none, append_assoc}
use konku.CardEditor.{create, Editor, input, valid, dirty, persist, press_save, leave, hide}
use konku.CardEditor.Laws.{pressed, left, hidden, handle, handle_all}

-- On the new-card screen, with nothing in flight yet, pressing "save" and leaving before the
-- server has answered sends the creation twice, for every card that is unsaved and has both sides;
-- so does pressing it and hiding the tab.
pub pressed_then_left :
    (e : Editor)
    → e.route ≡ none
    → e.in_flight ≡ none
    → e.removed ≡ false
    → valid e ≡ true
    → dirty e ≡ true
    → ((handle_all (pressed ∷ left ∷ []) e).sent
        ≡ e.sent ++ create (input e) ∷ create (input e) ∷ [])
      × ((handle_all (pressed ∷ hidden ∷ []) e).sent
          ≡ e.sent ++ create (input e) ∷ create (input e) ∷ [])
unfolding handle_all handle press_save leave hide persist dirty input valid
pressed_then_left e r f m v d = (
  simp (f, v, d, r, m) (append_assoc e.sent (create (input e) ∷ []) (create (input e) ∷ [])),
  simp (f, v, d, r, m) (append_assoc e.sent (create (input e) ∷ []) (create (input e) ∷ [])),
)
