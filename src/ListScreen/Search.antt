-- ===== src/ListScreen/Search.antt =====
-- The search box of the list screens: web/src/components/ui/search-input.tsx. `url` is the query in
-- the address, which a commit writes at once and which the box is told of by a later render.
use konku.Common.{Text, str_eq, Option, none, some, List, [], ◌∷◌, ◌++◌, if◌then◌else◌}

-- `settled` is the ref, `timer` the text that the timer in flight would commit.
pub record Box : Type 0 where
  pub text : Text
  pub settled : Text
  pub timer : Option Text
  pub url : Text
  pub commits : List Text

unfoldable pub mounted : Text → Box
mounted value = record { text = value; settled = value; timer = none; url = value; commits = [] }

unfoldable pub commit : Text → Box → Box
commit t b = record b { settled = t; url = t; commits = b.commits ++ t ∷ [] }

-- The effect on the text, which runs when a render has another text than the last.
unfoldable pub schedule : Text → Box → Box
schedule last b =
    if str_eq b.text last
    then b
    else record b { timer = if str_eq b.text b.settled then none else some b.text }

unfoldable pub typed : Text → Box → Box
typed t b = schedule b.text (record b { text = t })

abbrev pub fire_by : Option Text → Box → Box
fire_by none b = b
fire_by (some t) b = record (commit t b) { timer = none }

unfoldable pub fire : Box → Box
fire b = fire_by b.timer b

-- Enter leaves the timer in flight alone.
unfoldable pub enter : Box → Box
enter b = commit b.text b

-- A render with the query of the address: the effect on the value.
unfoldable pub render : Box → Box
render b =
    if str_eq b.url b.settled
    then b
    else schedule b.text (record b { settled = b.url; text = b.url })

-- Typing, the timer, Enter, a render, and an address that changes from outside.
pub data Event : Type 0 where
  typing : Text → Event
  time entered rendered : Event
  moved : Text → Event

unfoldable pub handle : Event → Box → Box
handle (typing t) b = typed t b
handle time b = fire b
handle entered b = enter b
handle rendered b = render b
handle (moved value) b = record b { url = value }

unfoldable pub handle_all : List Event → Box → Box
handle_all [] b = b
handle_all (e ∷ es) b = handle_all es (handle e b)
