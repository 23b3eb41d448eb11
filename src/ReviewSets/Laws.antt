-- ===== src/ReviewSets/Laws.antt =====
-- What the forms of the saved sets send.
use konku.Common.{
  ◌≡◌, refl, sym, ap, ◌∙◌, inl, inr, Bool, true, false, Text, truthy, Option, none, some, List, [],
  ◌∷◌, ◌++◌, append_assoc, append-nil, All, All-append, if◌then◌else◌, Bool-cases,
}
use mathlib.Core.Path.{subst}
use konku.Common.Trim.{trim, trim-trim}
use konku.Common.Sets.{has, IsDistinct, DisjointFrom, DisjointFrom-add, DisjointFrom-nil}
use konku.ReviewSets.{
  Selection, random, fixed, toggle, NewSet, Form, blank, count_of, count_by, new_set, submit, Event,
  titled, selected, formatted, counted, domain_toggled, category_toggled, submitted, succeeded,
  failed, cancelled, on_form, handle, handle_all, choose_all,
}

abbrev has_count : {Number : Type 0} → Option Number → Bool
has_count none = false
has_count (some n) = true

abbrev is_random : Selection → Bool
is_random random = true
is_random fixed = false

-- A set that can be saved: its title is trimmed and not blank, and it has a count exactly when its
-- cards are drawn at random.
abbrev pub IsWhole : {Number : Type 0} → NewSet Number → Type 0
IsWhole s =
    (truthy s.title ≡ true)
    × (trim s.title ≡ s.title)
    × (has_count s.question_count ≡ is_random s.selection)

module _ (Number : Type 0) where
  count_lem : (s : Selection) (n : Number) → has_count (count_of Number s n) ≡ is_random s
  count_lem random n = refl
  count_lem fixed n = refl

  abbrev accepted : Form Number → Form Number
  accepted f = record f { pending = true; sent = f.sent ++ new_set Number f ∷ [] }

  accepted-IsWhole :
      (f : Form Number)
      → truthy (trim f.title) ≡ true
      → All IsWhole f.sent
      → All IsWhole (accepted f).sent
  unfolding new_set
  accepted-IsWhole f t h =
      All-append IsWhole f.sent _ h
        ((t, trim-trim f.title, count_lem f.selection f.question_count), tt)

  submit-IsWhole : (f : Form Number) → All IsWhole f.sent → All IsWhole (submit Number f).sent
  unfolding submit
  submit-IsWhole f h =
      let ready : Form Number = if truthy (trim f.title) then accepted f else f in
      elim (Bool-cases f.pending) [
        | inl p ↦ subst (λ b. All IsWhole (if b then f else ready).sent) (sym p) h
        | inr p ↦
            subst (λ b. All IsWhole (if b then f else ready).sent) (sym p)
              (elim (Bool-cases (truthy (trim f.title))) [
                | inl t ↦
                    subst (λ b. All IsWhole (if b then accepted f else f).sent) (sym t)
                      (accepted-IsWhole f t h)
                | inr t ↦ subst (λ b. All IsWhole (if b then accepted f else f).sent) (sym t) h
              ])
      ]

  count_by-sent :
      (s : Selection) (n : Number) (f : Form Number) → (count_by Number s n f).sent ≡ f.sent
  count_by-sent random n f = refl
  count_by-sent fixed n f = refl

  on_form-IsWhole :
      (e : Event Number) (f : Form Number)
      → All IsWhole f.sent
      → All IsWhole (on_form Number e f).sent
  unfolding on_form
  on_form-IsWhole (titled text) f h = h
  on_form-IsWhole (selected s) f h = h
  on_form-IsWhole (formatted m) f h = h
  on_form-IsWhole (counted n) f h = subst (All IsWhole) (sym (count_by-sent f.selection n f)) h
  on_form-IsWhole (domain_toggled id) f h = h
  on_form-IsWhole (category_toggled id) f h = h
  on_form-IsWhole submitted f h = submit-IsWhole f h
  on_form-IsWhole succeeded f h = elim (Bool-cases f.pending) [
    | inl p ↦
        subst (λ b. All IsWhole (if b then record f { pending = false; closed = true } else f).sent)
          (sym p) h
    | inr p ↦
        subst (λ b. All IsWhole (if b then record f { pending = false; closed = true } else f).sent)
          (sym p) h
  ]
  on_form-IsWhole failed f h = h
  on_form-IsWhole cancelled f h = h

  handle_all-IsWhole :
      (es : List (Event Number)) (f : Form Number)
      → All IsWhole f.sent
      → All IsWhole (handle_all Number es f).sent
  unfolding handle_all handle
  handle_all-IsWhole [] f h = h
  handle_all-IsWhole (e ∷ es) f h = handle_all-IsWhole es _ (elim (Bool-cases f.closed) [
    | inl c ↦ subst (λ b. All IsWhole (if b then f else on_form Number e f).sent) (sym c) h
    | inr c ↦
        subst (λ b. All IsWhole (if b then f else on_form Number e f).sent) (sym c)
          (on_form-IsWhole e f h)
  ])

  -- Every set that the form sends has a title that is trimmed and not blank, and a number of questions
  -- exactly when its cards are drawn at random, whatever the count's field held before.
  pub sent_sets-IsWhole :
      (ten : Number) (es : List (Event Number))
      → All IsWhole (handle_all Number es (blank Number ten)).sent
  unfolding blank
  sent_sets-IsWhole ten es = handle_all-IsWhole es _ tt

toggle_new : (id : Text) (ids : List Text) → has id ids ≡ false → toggle id ids ≡ ids ++ id ∷ []
unfolding toggle
toggle_new id ids h = rw h refl

choose_all-append :
    (ids chosen : List Text)
    → IsDistinct ids
    → DisjointFrom chosen ids
    → choose_all ids chosen ≡ chosen ++ ids
unfolding choose_all
choose_all-append [] chosen d h = sym (append-nil chosen)
choose_all-append (id ∷ ids) chosen (n, d) (h, hs) =
    ap (choose_all ids) (toggle_new id chosen h)
    ∙ choose_all-append ids (chosen ++ id ∷ []) d (DisjointFrom-add id chosen ids n hs)
    ∙ append_assoc chosen (id ∷ []) ids

-- Cards that are each pressed once are asked in the order in which they were pressed.
choose_all_lem : (ids : List Text) → IsDistinct ids → choose_all ids [] ≡ ids
choose_all_lem ids d = choose_all-append ids [] d (DisjointFrom-nil ids)
