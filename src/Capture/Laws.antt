-- ===== src/Capture/Laws.antt =====
-- What the capture dialog sends, and how often.
use konku.Common.{
  ℕ, zero, suc, ◌≡◌, refl, sym, ap, ◌∙◌, true, false, List, [], ◌∷◌, ◌++◌, truthy, codes,
  append_assoc, append-nil, if◌then◌else◌,
}
use konku.Common.Trim.{trim}
use konku.Timer.{done, reset}
use konku.Capture.{
  Note, Capture, is_done, close, content_of, save, Event, keyed, saved, on_dialog, handle,
  handle_all,
}

abbrev pub replicate {ℓ} : {A : Type ℓ} → ℕ → A → List A
replicate zero a = []
replicate (suc n) a = a ∷ replicate n a

-- The note of what is in the field, in the domain of the timer.
abbrev pub note_of : Capture → Note
note_of s = record { content_md = trim s.text ++ codes "\n"; domain_id = s.timer.domain_id }

abbrev saving : Capture → Capture
saving s = record s { pending = true; sent = s.sent ++ note_of s ∷ [] }

save_lem : (s : Capture) → truthy (trim s.text) ≡ true → save s ≡ saving s
unfolding save content_of
save_lem s t = ap (λ b. if b then saving s else close s) t

on_done : (e : Event) (s : Capture) → s.timer.status ≡ done → handle e s ≡ on_dialog e s
unfolding handle
on_done e s d = ap (λ st. if is_done st then on_dialog e s else s) d

keyed_lem :
    (s : Capture) → s.timer.status ≡ done → truthy (trim s.text) ≡ true → handle keyed s ≡ saving s
unfolding on_dialog
keyed_lem s d t = on_done keyed s d ∙ save_lem s t

all_keyed :
    (n : ℕ) (s : Capture)
    → s.timer.status ≡ done
    → truthy (trim s.text) ≡ true
    → (handle_all (replicate n keyed) s).sent ≡ s.sent ++ replicate n (note_of s)
unfolding handle_all
all_keyed zero s d t = sym (append-nil s.sent)
all_keyed (suc n) s d t =
    ap (λ x. (handle_all (replicate n keyed) x).sent) (keyed_lem s d t)
    ∙ all_keyed n (saving s) d t
    ∙ append_assoc s.sent (note_of s ∷ []) (replicate n (note_of s))

pressed_again :
    (n : ℕ) (s : Capture)
    → s.timer.status ≡ done
    → s.pending ≡ true
    → handle_all (replicate n saved) s ≡ s
unfolding handle_all on_dialog
pressed_again zero s d p = refl
pressed_again (suc n) s d p =
    ap (handle_all (replicate n saved)) (on_done saved s d ∙ ap (λ b. if b then s else save s) p)
    ∙ pressed_again n s d p

pressed_once : (s : Capture) → s.pending ≡ false → on_dialog saved s ≡ save s
unfolding on_dialog
pressed_once s p = ap (λ b. if b then s else save s) p

-- With something in the field, pressing the button any number of times before the answer sends it
-- once, trimmed and with a line end, in the domain of the session; the shortcut sends it again at
-- each press.
pub saved_or_keyed :
    (n : ℕ) (s : Capture)
    → s.timer.status ≡ done
    → s.pending ≡ false
    → truthy (trim s.text) ≡ true
    → ((handle_all (replicate (suc n) saved) s).sent ≡ s.sent ++ note_of s ∷ [])
      × ((handle_all (replicate (suc n) keyed) s).sent ≡ s.sent ++ replicate (suc n) (note_of s))
saved_or_keyed n s d p t =
    let first : handle saved s ≡ saving s = on_done saved s d ∙ pressed_once s p ∙ save_lem s t in
    let once : handle_all (replicate (suc n) saved) s ≡ saving s =
      unfold handle_all in
      ap (handle_all (replicate n saved)) first ∙ pressed_again n (saving s) d refl in
    (ap (λ x. x.sent) once, all_keyed (suc n) s d t)

-- Off the screen the dialog takes no events.
closed_stays :
    (es : List Event) (s : Capture) → is_done s.timer.status ≡ false → handle_all es s ≡ s
unfolding handle_all handle
closed_stays [] s d = refl
closed_stays (e ∷ es) s d =
    let same : (if is_done s.timer.status then on_dialog e s else s) ≡ s =
      ap (λ b. if b then on_dialog e s else s) d in
    ap (handle_all es) same ∙ closed_stays es s d

-- Once a capture is saved, skipped or dismissed, the timer is idle and nothing that still reaches the
-- dialog sends anything.
closed_sends_nothing : (es : List Event) (s : Capture) → handle_all es (close s) ≡ close s
closed_sends_nothing es s = closed_stays es (close s) (unfold close reset in refl)
