-- ===== src/Labels.antt =====
-- The screen that tidies the categories: `CategorySettings` and `NewCategoryForm` in
-- web/src/features/categories/CategorySettings.tsx. Saving runs an async function: it awaits the
-- creation, then the change of colour, then calls `onDone`, which closes whatever form is on the
-- screen. What it awaits goes on when its form has gone.
pub mod Laws
use konku.Common.{
  ℕ, suc, Bool, true, false, Text, codes, str_eq, truthy, Option, none, some, List, [], ◌∷◌, ◌++◌,
  length, get_elem?, ◌==◌, if◌then◌else◌, zero,
}
use konku.Common.Trim.{trim}

pub data Request : Type 0 where
  create : (label : Text) → Request
  recolour : (id color : Text) → Request

-- A form on the screen; `key` tells one from the next.
pub record Form : Type 0 where
  pub key : ℕ
  pub label : Text
  pub color : Text
  pub busy : Bool

pub data Stage : Type 0 where
  creating recolouring finished : Stage

-- One run of `submit`: the form it started on, and the colour it closed over.
pub record Flow : Type 0 where
  pub owner : ℕ
  pub color : Text
  pub stage : Stage

-- `form` is there while `adding` is true.
pub record Screen : Type 0 where
  pub form : Option Form
  pub mounted : ℕ
  pub flows : List Flow
  pub sent : List Request

pub data Event : Type 0 where
  added cancelled submitted : Event
  typed coloured : Text → Event
  -- The answers to the n-th run: the category, or a failure, and whether the new colour was stored.
  created : (n : ℕ) → Option (Text × Text) → Event
  recoloured : (n : ℕ) → (ok : Bool) → Event

-- `COLOR_PALETTE[0]`.
abbrev pub first_color : Text
first_color = codes "#4F7CAC"

abbrev pub set : List Flow → ℕ → Stage → List Flow
set [] n stage = []
set (f ∷ flows) zero stage = record f { stage = stage } ∷ flows
set (f ∷ flows) (suc n) stage = f ∷ set flows n stage

abbrev pub add_by : Option Form → Screen → Screen
add_by none s = record s {
  form = some (record { key = s.mounted; label = []; color = first_color; busy = false });
  mounted = suc s.mounted;
}
add_by (some f) s = s

abbrev pub submit_by : Option Form → Screen → Screen
submit_by none s = s
submit_by (some f) s =
    if f.busy
    then s
    else if truthy (trim f.label)
    then record s {
      form = some (record f { busy = true });
      flows = s.flows ++ record { owner = f.key; color = f.color; stage = creating } ∷ [];
      sent = s.sent ++ create (trim f.label) ∷ [];
    }
    else s

abbrev pub edit : (Form → Form) → Option Form → Option Form
edit change none = none
edit change (some f) = some (change f)

-- The mutations of a form that is still there are idle again.
abbrev pub rested : ℕ → Form → Form
rested owner f = if f.key == owner then record f { busy = false } else f

-- `onDone()`.
abbrev pub done : ℕ → Screen → Screen
done n s = record s { form = none; flows = set s.flows n finished }

-- What follows the first `await`.
abbrev pub created_by : ℕ → Flow → Option (Text × Text) → Screen → Screen
created_by n f none s = record s {
  form = edit (rested f.owner) s.form;
  flows = set s.flows n finished;
}
created_by n f (some (id, color)) s =
    if str_eq color f.color
    then done n s
    else record s { flows = set s.flows n recolouring; sent = s.sent ++ recolour id f.color ∷ [] }

abbrev pub on_created : ℕ → Option Flow → Option (Text × Text) → Screen → Screen
on_created n none answer s = s
on_created n (some f) answer s = elim f.stage [ creating ↦ created_by n f answer s | _ ↦ s ]

-- What follows the second: `.catch(() => null)` lets a failure pass.
abbrev pub on_recoloured : ℕ → Option Flow → Screen → Screen
on_recoloured n none s = s
on_recoloured n (some f) s = elim f.stage [ recolouring ↦ done n s | _ ↦ s ]

unfoldable pub handle : Event → Screen → Screen
handle added s = add_by s.form s
handle cancelled s = record s { form = none }
handle submitted s = submit_by s.form s
handle (typed text) s = record s { form = edit (λ f. record f { label = text }) s.form }
handle (coloured color) s = record s { form = edit (λ f. record f { color = color }) s.form }
handle (created n answer) s = on_created n (get_elem? s.flows n) answer s
handle (recoloured n ok) s = on_recoloured n (get_elem? s.flows n) s

unfoldable pub handle_all : List Event → Screen → Screen
handle_all [] s = s
handle_all (e ∷ es) s = handle_all es (handle e s)
