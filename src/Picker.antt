-- ===== src/Picker.antt =====
-- The category picker of the two editors: `CategoryPicker` in web/src/components/ui/category.tsx. The
-- selected ids are the form's, which `onChange` replaces; `lower` is `toLowerCase`.
pub mod Laws
use konku.Common.{
  ℕ, Bool, true, false, ◌||◌, not, Text, str_eq, truthy, starts_with, Option, none, some, List, [],
  ◌∷◌, ◌++◌, filter, if◌then◌else◌,
}
use konku.Common.Trim.{trim}
use konku.Common.Sets.{has}

pub record Category : Type 0 where
  pub id : Text
  pub label : Text

-- `s.includes(part)`.
unfoldable pub contains : Text → Text → Bool
contains part [] = starts_with part []
contains part (c ∷ s) = let rest = contains part s in starts_with part (c ∷ s) || rest

-- `flight` is what a commit that awaits the creation closed over: the selected ids of its render.
-- `asked` is the labels that were sent to be created.
pub record Picker : Type 0 where
  pub categories : List Category
  pub selected : List Text
  pub query : Text
  pub flight : Option (List Text)
  pub asked : List Text

abbrev pub flip : Text → List Text → List Text
flip id selected =
    if has id selected then filter (λ s. not (str_eq s id)) selected else selected ++ id ∷ []

unfoldable pub toggle : Text → Picker → Picker
toggle id p = record p { selected = flip id p.selected }

abbrev pub with_created : Text → List Text → Picker → Picker
with_created id captured p =
    if has id captured
    then record p { query = []; flight = none }
    else record p { selected = captured ++ id ∷ []; query = []; flight = none }

abbrev pub created_by : Option (List Text) → Option Text → Picker → Picker
created_by none answer p = p
created_by (some captured) none p = record p { flight = none }
created_by (some captured) (some id) p = with_created id captured p

-- What follows the `await`.
unfoldable pub created : Option Text → Picker → Picker
created answer p = created_by p.flight answer p

module _ (lower : Text → Text) where
  unfoldable pub matches : List Category → Text → List Category
  matches categories query =
      if truthy (lower (trim query))
      then filter (λ c. contains (lower (trim query)) (lower c.label)) categories
      else categories

  unfoldable pub exact : List Category → Text → Option Category
  exact [] query = none
  exact (c ∷ categories) query =
      let rest = exact categories query in
      if str_eq (lower c.label) (lower (trim query)) then some c else rest

  abbrev pub commit_by : Option Category → Picker → Picker
  commit_by none p = record p { flight = some p.selected; asked = p.asked ++ trim p.query ∷ [] }
  commit_by (some c) p =
      if has c.id p.selected then record p { query = [] } else record (toggle c.id p) { query = [] }

  unfoldable pub commit : Picker → Picker
  commit p = if truthy (trim p.query) then commit_by (exact p.categories p.query) p else p

  pub data Event : Type 0 where
    typed toggled : Text → Event
    committed : Event
    answered : Option Text → Event
    listed : List Category → Event

  -- The field and the create button are off while a creation is in flight; the rows and the chips
  -- are not.
  abbrev pub when_idle : Option (List Text) → Picker → Picker → Picker
  when_idle none next p = next
  when_idle (some captured) next p = p

  unfoldable pub handle : Event → Picker → Picker
  handle (typed query) p = when_idle p.flight (record p { query = query }) p
  handle (toggled id) p = toggle id p
  handle committed p = when_idle p.flight (commit p) p
  handle (answered answer) p = created answer p
  handle (listed categories) p = record p { categories = categories }

  unfoldable pub handle_all : List Event → Picker → Picker
  handle_all [] p = p
  handle_all (e ∷ es) p = handle_all es (handle e p)
