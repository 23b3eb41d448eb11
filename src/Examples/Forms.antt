-- ===== src/Examples/Forms.antt =====
-- A form at concrete inputs.
use konku.Common.{true, false, Text, codes, List, [], ◌∷◌, none, some, if◌then◌else◌, truthy}
use konku.Form.{Values, Parsed, success, failure, Form, Event, typed, left}

-- A schema that wants a name.
abbrev parse : Values → Parsed Text
parse v =
    if truthy (v (codes "name"))
    then success (v (codes "name"))
    else failure (record { path = some (codes "name"); message = codes "required" } ∷ [])

abbrev fields : List Text
fields = codes "name" ∷ []

abbrev empty_values : Values
empty_values k = []

abbrev empty_form : Form
empty_form = record {
  values = empty_values;
  errors = λ k. none;
  touched = λ k. true;
  submitted = false;
}

abbrev typing : List Event
typing = typed (codes "name") (codes "A") ∷ left (codes "mail") ∷ []
