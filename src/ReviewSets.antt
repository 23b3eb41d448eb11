-- ===== src/ReviewSets.antt =====
-- The saved sets of the review: the form of a new set in web/src/features/review/ReviewHomePage.tsx,
-- and the order of the card picker in ReviewSetPage.tsx beside it. `Number` is the type of
-- the number that the count's field holds, which the form only passes on.
pub mod Laws
pub mod Picks
pub mod Screen
use konku.Common.{
  ℕ, Bool, true, false, Text, codes, truthy, Option, none, some, List, [], ◌∷◌, ◌++◌, ltb, ◌==◌,
  filter, not, str_eq, if◌then◌else◌,
}
use konku.Common.Trim.{trim}
use konku.Common.Sets.{has}

pub data Selection : Type 0 where
  random fixed : Selection

pub data Format : Type 0 where
  recall choice : Format

-- `includes(id) ? filter : [...ids, id]`, of the filters' boxes and of the cards.
unfoldable pub toggle : Text → List Text → List Text
toggle id ids = if has id ids then filter (λ s. not (str_eq s id)) ids else ids ++ id ∷ []

module _ (Number : Type 0) where
  -- What a new set asks the server for.
  pub record NewSet : Type 0 where
    pub title : Text
    pub selection : Selection
    pub format : Format
    pub question_count : Option Number
    pub time_limit_minutes : Option Number
    pub domain_ids : List Text
    pub category_ids : List Text

  pub record Form : Type 0 where
    pub title : Text
    pub selection : Selection
    pub format : Format
    pub question_count : Number
    pub domain_ids : List Text
    pub category_ids : List Text
    pub pending : Bool
    pub closed : Bool
    pub sent : List NewSet

  -- The count's field starts at ten.
  unfoldable pub blank : Number → Form
  blank ten = record {
    title = [];
    selection = random;
    format = recall;
    question_count = ten;
    domain_ids = [];
    category_ids = [];
    pending = false;
    closed = false;
    sent = [];
  }

  abbrev pub count_of : Selection → Number → Option Number
  count_of random n = some n
  count_of fixed n = none

  unfoldable pub new_set : Form → NewSet
  new_set f = record {
    title = trim f.title;
    selection = f.selection;
    format = f.format;
    question_count = count_of f.selection f.question_count;
    time_limit_minutes = none;
    domain_ids = f.domain_ids;
    category_ids = f.category_ids;
  }

  -- The submit button, and with it the Enter of a field, is off while a creation is in flight.
  unfoldable pub submit : Form → Form
  submit f =
      if f.pending
      then f
      else if truthy (trim f.title)
      then record f { pending = true; sent = f.sent ++ new_set f ∷ [] }
      else f

  pub data Event : Type 0 where
    titled : Text → Event
    selected : Selection → Event
    formatted : Format → Event
    counted : Number → Event
    domain_toggled category_toggled : Text → Event
    submitted succeeded failed cancelled : Event

  -- The count's field is there for a random set only.
  abbrev pub count_by : Selection → Number → Form → Form
  count_by random n f = record f { question_count = n }
  count_by fixed n f = f

  unfoldable pub on_form : Event → Form → Form
  on_form (titled text) f = record f { title = text }
  on_form (selected s) f = record f { selection = s }
  on_form (formatted m) f = record f { format = m }
  on_form (counted n) f = count_by f.selection n f
  on_form (domain_toggled id) f = record f { domain_ids = toggle id f.domain_ids }
  on_form (category_toggled id) f = record f { category_ids = toggle id f.category_ids }
  on_form submitted f = submit f
  on_form succeeded f = if f.pending then record f { pending = false; closed = true } else f
  on_form failed f = record f { pending = false }
  on_form cancelled f = record f { closed = true }

  -- `onDone` takes the form off the screen.
  unfoldable pub handle : Event → Form → Form
  handle e f = if f.closed then f else on_form e f

  unfoldable pub handle_all : List Event → Form → Form
  handle_all [] f = f
  handle_all (e ∷ es) f = handle_all es (handle e f)

-- The cards that are asked, in the order in which they were chosen.
unfoldable pub choose_all : List Text → List Text → List Text
choose_all [] chosen = chosen
choose_all (id ∷ ids) chosen = choose_all ids (toggle id chosen)

-- What the section of today says: the count that is ready, whether more waits for tomorrow, and
-- whether there is a review to start.
pub record DueToday : Type 0 where
  pub ready : Option ℕ
  pub rest_tomorrow : Bool
  pub can_start : Bool

unfoldable pub due_today : ℕ → ℕ → DueToday
due_today total ready = record {
  ready = if total == 0 then none else some ready;
  rest_tomorrow = ltb ready total;
  can_start = ltb 0 ready;
}
