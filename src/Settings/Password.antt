-- ===== src/Settings/Password.antt =====
-- The dialog that changes the password: web/src/features/settings/ChangePassword.tsx, over the form of
-- web/src/lib/useZodForm.ts with the schema as an argument. Closing it resets the mutation, which
-- lets go of a request that is in flight: its answer calls nothing back.
use konku.Common.{
  ◌≡◌, refl, sym, ◌∙◌, inl, inr, Bool, true, false, Text, Option, none, some, List, [], ◌∷◌, ◌++◌,
  All, All-append, if◌then◌else◌, Bool-cases,
}
use mathlib.Core.Path.{subst}
use konku.Form
use konku.Form.{Form, Parsed, success, failure, Values, blank, submit, reset, output}

-- What the schema gives, and what is sent: the current password and the new one.
pub record Passwords : Type 0 where
  pub current_password : Text
  pub password : Text

pub data Event : Type 0 where
  opened : Event
  -- Escape or a press outside, and the button, which is off while a request is in flight.
  dismissed cancelled : Event
  -- Typing into a field and leaving it.
  typed : (field value : Text) → Event
  left : (field : Text) → Event
  submitted : Event
  answered : (error : Option Text) → Event

pub record Dialog : Type 0 where
  pub is_open : Bool
  pub form : Form
  pub pending : Bool
  pub error : Option Text
  pub sent : List Passwords

module _ (parse : Values → Parsed Passwords) (fields : List Text) where
  abbrev pub no_values : Values
  no_values field = []

  abbrev pub empty : Form
  empty = blank parse fields no_values

  unfoldable pub mounted : Dialog
  mounted = record { is_open = false; form = empty; pending = false; error = none; sent = [] }

  -- `onOpenChange(false)`.
  unfoldable pub close : Dialog → Dialog
  close d = record d { is_open = false; form = empty; pending = false; error = none }

  abbrev pub mutate : Option Passwords → Dialog → Dialog
  mutate none d = d
  mutate (some values) d = record d { pending = true; error = none; sent = d.sent ++ values ∷ [] }

  -- The submit button, and with it the Enter of a field, is off while a request is in flight.
  unfoldable pub on_submit : Dialog → Dialog
  on_submit d =
      if d.pending
      then d
      else (let (form, values) = submit parse fields no_values d.form in
          mutate values (record d { form = form }))

  -- `onSuccess`, or the error that is shown.
  unfoldable pub settle : Option Text → Dialog → Dialog
  settle none d = record d { is_open = false; form = empty; pending = false; error = none }
  settle (some message) d = record d { pending = false; error = some message }

  unfoldable pub on_open : Event → Dialog → Dialog
  on_open opened d = d
  on_open dismissed d = close d
  on_open cancelled d = if d.pending then d else close d
  on_open (typed field value) d = record d {
    form = Form.set_value parse fields no_values field value d.form;
  }
  on_open (left field) d = record d { form = Form.blur parse fields no_values field d.form }
  on_open submitted d = on_submit d
  on_open (answered error) d = if d.pending then settle error d else d

  abbrev pub on_closed : Event → Dialog → Dialog
  on_closed opened d = record d { is_open = true }
  on_closed _ d = d

  unfoldable pub handle : Event → Dialog → Dialog
  handle e d = if d.is_open then on_open e d else on_closed e d

  unfoldable pub handle_all : List Event → Dialog → Dialog
  handle_all [] d = d
  handle_all (e ∷ es) d = handle_all es (handle e d)

-- A request that the schema accepted.
abbrev pub IsAccepted : (Values → Parsed Passwords) → Passwords → Type 0
IsAccepted parse p = (values : Values) × (parse values ≡ success p)

module _ (parse : Values → Parsed Passwords) (fields : List Text) where
  -- What is left of a dialog that is closed.
  abbrev pub IsClean : Dialog → Type 0
  IsClean d = (d.form ≡ empty parse fields) × (d.pending ≡ false) × (d.error ≡ none)

  abbrev IsSafe : Dialog → Type 0
  IsSafe d = (d.is_open ≡ false → IsClean d) × All (IsAccepted parse) d.sent

  -- A dialog that stays open.
  still_open :
      (d e : Dialog)
      → d.is_open ≡ true
      → e.is_open ≡ d.is_open
      → All (IsAccepted parse) e.sent
      → IsSafe e
  still_open d e o q a = (λ f. absurd (no_both (sym o ∙ sym q ∙ f)), a)
    where
      no_both : true ≡ false → ⊥
      no_both h = cc

  output_accepts :
      (values : Values) (r : Parsed Passwords) (p : Passwords)
      → parse values ≡ r
      → Form.output_of parse fields (no_values parse fields) r ≡ some p
      → IsAccepted parse p
  unfolding Form.output_of
  output_accepts values (success q) p e h = (values, e ∙ (cc))
  output_accepts values (failure issues) p e h = absurd (none_some h)
    where
      none_some : none ≡ some p → ⊥
      none_some h = cc

  mutate-IsSafe :
      (values : Option Passwords) (d : Dialog)
      → d.is_open ≡ true
      → ((p : Passwords) → values ≡ some p → IsAccepted parse p)
      → All (IsAccepted parse) d.sent
      → IsSafe (mutate parse fields values d)
  mutate-IsSafe none d o f a = still_open d d o refl a
  mutate-IsSafe (some p) d o f a =
      still_open d (mutate parse fields (some p) d) o refl
        (All-append (IsAccepted parse) d.sent _ a (f p refl, tt))

  on_submit-IsSafe : (d : Dialog) → d.is_open ≡ true → IsSafe d → IsSafe (on_submit parse fields d)
  unfolding on_submit submit output
  on_submit-IsSafe d o (c, a) =
      let next : Dialog =
        mutate parse fields (output parse fields (no_values parse fields) d.form.values)
          (record d { form = (submit parse fields (no_values parse fields) d.form).0 }) in
      elim (Bool-cases d.pending) [
        | inl e ↦ subst (λ b. IsSafe (if b then d else next)) (sym e) (c, a)
        | inr e ↦
            subst (λ b. IsSafe (if b then d else next)) (sym e)
              (mutate-IsSafe (output parse fields (no_values parse fields) d.form.values)
                (record d { form = (submit parse fields (no_values parse fields) d.form).0 }) o
                (λ p h. output_accepts d.form.values (parse d.form.values) p refl h) a)
      ]

  on_open-IsSafe :
      (e : Event) (d : Dialog) → d.is_open ≡ true → IsSafe d → IsSafe (on_open parse fields e d)
  unfolding on_open close settle
  on_open-IsSafe opened d o h = h
  on_open-IsSafe dismissed d o (c, a) = (λ f. (refl, refl, refl), a)
  on_open-IsSafe cancelled d o (c, a) = elim (Bool-cases d.pending) [
    | inl e ↦ subst (λ b. IsSafe (if b then d else close parse fields d)) (sym e) (c, a)
    | inr e ↦
        subst (λ b. IsSafe (if b then d else close parse fields d)) (sym e)
          (λ f. (refl, refl, refl), a)
  ]
  on_open-IsSafe (typed field value) d o (c, a) =
      still_open d (on_open parse fields (typed field value) d) o refl a
  on_open-IsSafe (left field) d o (c, a) =
      still_open d (on_open parse fields (left field) d) o refl a
  on_open-IsSafe submitted d o h = on_submit-IsSafe d o h
  on_open-IsSafe (answered none) d o (c, a) = elim (Bool-cases d.pending) [
    | inl e ↦
        subst (λ b. IsSafe (if b then settle parse fields none d else d)) (sym e)
          (λ f. (refl, refl, refl), a)
    | inr e ↦ subst (λ b. IsSafe (if b then settle parse fields none d else d)) (sym e) (c, a)
  ]
  on_open-IsSafe (answered (some m)) d o (c, a) = elim (Bool-cases d.pending) [
    | inl e ↦
        subst (λ b. IsSafe (if b then settle parse fields (some m) d else d)) (sym e)
          (still_open d (settle parse fields (some m) d) o refl a)
    | inr e ↦ subst (λ b. IsSafe (if b then settle parse fields (some m) d else d)) (sym e) (c, a)
  ]

  on_closed-IsSafe :
      (e : Event) (d : Dialog) → d.is_open ≡ false → IsSafe d → IsSafe (on_closed parse fields e d)
  on_closed-IsSafe opened d o (c, a) = (λ f. c o, a)
  on_closed-IsSafe _ d o h = h

  handle_all-IsSafe :
      (es : List Event) (d : Dialog) → IsSafe d → IsSafe (handle_all parse fields es d)
  unfolding handle_all handle
  handle_all-IsSafe [] d h = h
  handle_all-IsSafe (e ∷ es) d h = handle_all-IsSafe es _ (elim (Bool-cases d.is_open) [
    | inl o ↦
        subst (λ b. IsSafe (if b then on_open parse fields e d else on_closed parse fields e d))
          (sym o) (on_open-IsSafe e d o h)
    | inr o ↦
        subst (λ b. IsSafe (if b then on_open parse fields e d else on_closed parse fields e d))
          (sym o) (on_closed-IsSafe e d o h)
  ])

  -- Whatever is done to the dialog and whenever answers come: while it is closed its form is as new, it
  -- shows no error and waits for nothing; and each request that it ever sent is what the schema made of
  -- some values of the fields.
  pub closed_lem :
      (es : List Event)
      → let d = handle_all parse fields es (mounted parse fields) in
        (d.is_open ≡ false → IsClean d) × All (IsAccepted parse) d.sent
  unfolding mounted
  closed_lem es = handle_all-IsSafe es _ (λ f. (refl, refl, refl), tt)
