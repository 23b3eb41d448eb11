-- ===== src/Form.antt =====
-- One form against one schema: web/src/lib/useZodForm.ts. The schema's `safeParse` is zod's and is
-- an argument. Values, errors and touched fields are functions of the field's name, and each
-- handler runs on the state that was last rendered.
pub mod Laws
use konku.Common.{
  ℕ, Bool, true, false, ◌&&◌, ◌||◌, not, Text, List, [], ◌∷◌, Option, none, some, str_eq, truthy,
  if◌then◌else◌,
}
use konku.Common.Sets.{has}

-- `result.error.issues[i]`: the first part of its path, as a string, and its message.
pub record Issue : Type 0 where
  pub path : Option Text
  pub message : Text

pub data Parsed (Out : Type 0) : Type 0 where
  success : Out → Parsed Out
  failure : List Issue → Parsed Out

abbrev pub Values : Type 0
Values = Text → Text

abbrev pub Errors : Type 0
Errors = Text → Option Text

-- `{ ...f, [key]: value }`.
abbrev pub put {ℓ} : {B : Type ℓ} → Text → B → (Text → B) → Text → B
put key value f j = if str_eq key j then value else f j

abbrev pub is_some {ℓ} : {A : Type ℓ} → Option A → Bool
is_some none = false
is_some (some a) = true

abbrev pub name_of : Option Text → Text
name_of none = []
name_of (some key) = key

-- The loop of `validate`: the first issue of a path wins, and an issue with no path is dropped.
unfoldable pub collect : Errors → List Issue → Errors
collect found [] = found
collect found (i ∷ issues) =
    let key = name_of i.path in
    collect
      (if truthy key && not (is_some (found key)) then put key (some i.message) found else found)
      issues

pub record Form : Type 0 where
  pub values : Values
  pub errors : Errors
  pub touched : Text → Bool
  pub submitted : Bool

-- What the person does to the form.
pub data Event : Type 0 where
  typed : Text → Text → Event
  left : Text → Event
  sent : Event
  cleared : Event

module _ {Out : Type 0} (parse : Values → Parsed Out) (fields : List Text) (initial : Values) where
  found_of : Parsed Out → Errors
  found_of (success out) = λ k. none
  found_of (failure issues) = collect (λ k. none) issues

  unfoldable pub output_of : Parsed Out → Option Out
  output_of (success out) = some out
  output_of (failure issues) = none

  -- `validate(next).errors` and `validate(next).output`.
  unfoldable pub found : Values → Errors
  unfolding found_of
  found next = found_of (parse next)

  unfoldable pub output : Values → Option Out
  unfolding output_of
  output next = output_of (parse next)

  unfoldable pub blank : Form
  blank = record { values = initial; errors = λ k. none; touched = λ k. false; submitted = false }

  abbrev pub shows : Option Text → Bool
  shows none = false
  shows (some message) = truthy message

  -- The updater of `setValue`: the field itself, and what it clears elsewhere.
  recheck : Text → Errors → Errors → Errors
  recheck field now prev k =
      if str_eq field k
      then now k
      else if shows (prev k) && not (is_some (now k))
      then none
      else prev k

  unfoldable pub set_value : Text → Text → Form → Form
  unfolding recheck
  set_value field value s =
      let next = put field value s.values in
      if is_some (s.errors field) || s.touched field
      then record s { values = next; errors = recheck field (found next) s.errors }
      else record s { values = next }

  unfoldable pub blur : Text → Form → Form
  blur field s = record s {
    touched = put field true s.touched;
    errors = put field (found s.values field) s.errors;
  }

  -- The state, and what `onValid` is called with, if it is.
  unfoldable pub submit : Form → Form × Option Out
  submit s = (
    record s { submitted = true; errors = found s.values; touched = λ k. has k fields },
    output s.values,
  )

  unfoldable pub reset : Form → Form
  reset s = blank

  unfoldable pub handle : Event → Form → Form
  handle (typed field value) s = set_value field value s
  handle (left field) s = blur field s
  handle sent s = (submit s).0
  handle cleared s = reset s

  unfoldable pub handle_all : List Event → Form → Form
  handle_all [] s = s
  handle_all (e ∷ es) s = handle_all es (handle e s)
