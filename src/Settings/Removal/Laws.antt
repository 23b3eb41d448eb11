-- ===== src/Settings/Removal/Laws.antt =====
-- A closed dialog is clean, and a deletion that is sent is not called off.
use konku.Common.{
  ℕ, ◌≡◌, refl, sym, ap, ◌∙◌, inl, inr, Bool, true, false, not, Text, truthy, Option, none, some,
  List, [], ◌∷◌, ◌++◌, length, filter, ◌==◌, every, arith, Bool-cases, if◌then◌else◌,
}
use mathlib.Core.Path.{subst}
use konku.Settings.Removal.{
  Event, opened, dismissed, cancelled, typed, submitted, answered, Dialog, mounted, close,
  is_pending, waits_for, flies, mutate, on_submit, on_open, on_closed, on_screen, settle, handle,
  handle_all,
}

-- That an event is not the answer to a request.
abbrev pub is_other : ℕ → Event → Bool
is_other n (answered m error) = not (m == n)
is_other n _ = true

flies-filter :
    (n m : ℕ) (ns : List ℕ)
    → (m == n) ≡ false
    → flies n ns ≡ true
    → flies n (filter (λ k. not (k == m)) ns) ≡ true
flies-filter n m [] e h = cc
flies-filter n m (k ∷ ns) e h = ground (arith, flies-filter n m ns)

handle-flies :
    (n : ℕ) (e : Event) (d : Dialog)
    → is_other n e ≡ true
    → flies n d.in_flight ≡ true
    → flies n (handle e d).in_flight ≡ true
unfolding handle settle on_open on_submit mutate close
handle-flies n opened d o h = ground arith
handle-flies n dismissed d o h = ground arith
handle-flies n cancelled d o h = ground arith
handle-flies n (typed value) d o h = ground arith
handle-flies n submitted d o h = ground arith
handle-flies n (answered m none) d o h = ground (arith, flies-filter n m d.in_flight)
handle-flies n (answered m (some e)) d o h = ground (arith, flies-filter n m d.in_flight)

handle_all-flies :
    (n : ℕ) (es : List Event) (d : Dialog)
    → every (is_other n) es ≡ true
    → flies n d.in_flight ≡ true
    → flies n (handle_all es d).in_flight ≡ true
unfolding handle_all
handle_all-flies n [] d o h = h
handle_all-flies n (e ∷ es) d o h =
    handle_all-flies n es (handle e d) (ground arith) (handle-flies n e d (ground arith) h)

handle_all_append :
    (es fs : List Event) (d : Dialog) → handle_all (es ++ fs) d ≡ handle_all fs (handle_all es d)
unfolding handle_all
handle_all_append [] fs d = refl
handle_all_append (e ∷ es) fs d = handle_all_append es fs (handle e d)

deleted :
    (n : ℕ) (d : Dialog)
    → flies n d.in_flight ≡ true
    → (handle (answered n none) d).signed_out ≡ true
unfolding handle settle
deleted n d h = rw h refl

submitted-flies :
    (d : Dialog)
    → d.signed_out ≡ false
    → d.is_open ≡ true
    → is_pending d.pending ≡ false
    → truthy d.password ≡ true
    → flies (length d.sent) (handle submitted d).in_flight ≡ true
unfolding handle on_open on_submit mutate
submitted-flies d s o p w = ground arith

-- Confirming with a password, while the dialog waits for nothing, deletes the account whatever
-- happens before the server's answer: once that comes, without an error, the user is signed out, also
-- when the dialog has been dismissed, has been opened again or waits for another request.
pub submitted_deletes :
    (d : Dialog) (more : List Event)
    → d.signed_out ≡ false
    → d.is_open ≡ true
    → is_pending d.pending ≡ false
    → truthy d.password ≡ true
    → every (is_other (length d.sent)) more ≡ true
    → (handle_all (submitted ∷ more ++ answered (length d.sent) none ∷ []) d).signed_out ≡ true
submitted_deletes d more s o p w e =
    unfold handle_all in
    rw (handle_all_append more (answered (length d.sent) none ∷ []) (handle submitted d)) (
      deleted (length d.sent) (handle_all more (handle submitted d))
        (handle_all-flies (length d.sent) more (handle submitted d) e (submitted-flies d s o p w)))

-- A dialog that is closed, and the passwords that were sent.
abbrev pub IsTidy : Dialog → Type 0
IsTidy d =
    (d.is_open ≡ false → (d.password ≡ []) × (d.pending ≡ none) × (d.error ≡ none))
    × (every truthy d.sent ≡ true)

every-snoc :
    (ps : List Text) (p : Text)
    → every truthy ps ≡ true
    → truthy p ≡ true
    → every truthy (ps ++ p ∷ []) ≡ true
every-snoc [] p h k = ground arith
every-snoc (q ∷ ps) p h k = ground (arith, every-snoc ps p)

opened-IsTidy : (d : Dialog) → d.is_open ≡ true → every truthy d.sent ≡ true → IsTidy d
opened-IsTidy d o a = (λ f. absurd (no_both (sym o ∙ f)), a)
  where
    no_both : true ≡ false → ⊥
    no_both h = cc

IsTidy-if : (b : Bool) (d e : Dialog) → IsTidy d → IsTidy e → IsTidy (if b then d else e)
IsTidy-if true d e p q = p
IsTidy-if false d e p q = q

on_submit-IsTidy : (d : Dialog) → d.is_open ≡ true → IsTidy d → IsTidy (on_submit d)
unfolding on_submit mutate
on_submit-IsTidy d o h =
    IsTidy-if (is_pending d.pending) d _ h (elim (Bool-cases (truthy d.password)) [
      | inl e ↦ rw e (opened-IsTidy (mutate d) o (every-snoc d.sent d.password h.1 e))
      | inr e ↦ rw e h
    ])

on_open-IsTidy : (e : Event) (d : Dialog) → d.is_open ≡ true → IsTidy d → IsTidy (on_open e d)
unfolding on_open close
on_open-IsTidy opened d o h = h
on_open-IsTidy dismissed d o h = (λ f. (refl, refl, refl), h.1)
on_open-IsTidy cancelled d o h =
    IsTidy-if (is_pending d.pending) d _ h (λ f. (refl, refl, refl), h.1)
on_open-IsTidy (typed value) d o h = opened-IsTidy (on_open (typed value) d) o h.1
on_open-IsTidy submitted d o h = on_submit-IsTidy d o h
on_open-IsTidy (answered n error) d o h = h

on_closed-IsTidy : (e : Event) (d : Dialog) → IsTidy d → IsTidy (on_closed e d)
on_closed-IsTidy opened d h = opened-IsTidy (on_closed opened d) refl h.1
on_closed-IsTidy _ d h = h

settle-IsTidy : (n : ℕ) (error : Option Text) (d : Dialog) → IsTidy d → IsTidy (settle n error d)
unfolding settle
settle-IsTidy n none d h = h
settle-IsTidy n (some message) d h = elim (Bool-cases d.is_open) [
  | inl o ↦
      IsTidy-if (waits_for n d.pending) _ _
        (opened-IsTidy
          (record d {
            in_flight = filter (λ m. not (m == n)) d.in_flight;
            pending = none;
            error = some message;
          })
          o h.1)
        h
  | inr o ↦ rw (ap (waits_for n) (h.0 o).1) h
]

on_screen-IsTidy :
    (e : Event) (d : Dialog) → IsTidy d → IsTidy (if d.signed_out then d else on_screen e d)
on_screen-IsTidy e d h = IsTidy-if d.signed_out d (on_screen e d) h (elim (Bool-cases d.is_open) [
  | inl o ↦
      subst (λ b. IsTidy (if b then on_open e d else on_closed e d)) (sym o)
        (on_open-IsTidy e d o h)
  | inr o ↦
      subst (λ b. IsTidy (if b then on_open e d else on_closed e d)) (sym o)
        (on_closed-IsTidy e d h)
])

handle-IsTidy : (e : Event) (d : Dialog) → IsTidy d → IsTidy (handle e d)
unfolding handle
handle-IsTidy (answered n error) d h =
    IsTidy-if (flies n d.in_flight) (settle n error d) d (settle-IsTidy n error d h) h
handle-IsTidy opened d h = on_screen-IsTidy opened d h
handle-IsTidy dismissed d h = on_screen-IsTidy dismissed d h
handle-IsTidy cancelled d h = on_screen-IsTidy cancelled d h
handle-IsTidy (typed value) d h = on_screen-IsTidy (typed value) d h
handle-IsTidy submitted d h = on_screen-IsTidy submitted d h

handle_all-IsTidy : (es : List Event) (d : Dialog) → IsTidy d → IsTidy (handle_all es d)
unfolding handle_all
handle_all-IsTidy [] d h = h
handle_all-IsTidy (e ∷ es) d h = handle_all-IsTidy es (handle e d) (handle-IsTidy e d h)

-- Whatever is done to the dialog and whenever answers come: while it is closed it holds no password,
-- waits for nothing and shows no error; and no empty password was ever sent.
pub handle_all-mounted : (es : List Event) → IsTidy (handle_all es mounted)
handle_all-mounted es = handle_all-IsTidy es mounted (λ f. (refl, refl, refl), refl)
