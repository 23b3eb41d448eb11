-- ===== src/Review/Run.antt =====
-- One run of a saved set: its questions in order, `RecallQuestion` and `ChoiceQuestion` of
-- web/src/features/review/RunPage.tsx. `run` is the cache's `RunDetail`, which is held still;
-- `recorded` is what the server has acknowledged, in order. Run/Return is the way back to a run.
pub mod Result
pub mod Steps
pub mod Laws
pub mod Opening
pub mod Return
use konku.Common.{
  ℕ, zero, suc, ◌+◌, Bool, true, false, ◌&&◌, ◌||◌, not, Text, List, [], ◌∷◌, ◌++◌, Option, none,
  some, length, filter, get_elem?, ◌==◌, if◌then◌else◌,
}
use konku.Review.Deck.{Rating, is_some}

pub record RunQuestion : Type 0 where
  pub card_id : Text
  pub front : Text
  pub rating : Option Rating
  pub options : List Text
  pub missing : Bool

-- `AnswerResult`.
pub record AnswerResult : Type 0 where
  pub rating : Rating
  pub correct_index : Option ℕ

pub data Answer : Type 0 where
  rated : Rating → Answer
  chosen : ℕ → Answer

-- The state of the mounted question: `reveal` and `answer.data` of a recall question, `picked` and
-- `result` of a choice, and the answer on its way.
pub record Asked : Type 0 where
  pub reveal : Bool
  pub back : Option Text
  pub picked : Option ℕ
  pub result : Option AnswerResult
  pub pending : Option Answer

abbrev pub untouched : Asked
untouched = record { reveal = false; back = none; picked = none; result = none; pending = none }

pub record Sitting : Type 0 where
  pub questions : List RunQuestion
  pub index : ℕ
  pub asked : Asked
  pub recorded : List (Text × Answer)

-- `findIndex((q) => q.rating === null)`, with 0 for -1.
unfoldable pub first_unanswered : List RunQuestion → Option ℕ
first_unanswered [] = none
first_unanswered (q ∷ qs) = elim q.rating [
  | none ↦ some 0
  | some r ↦ elim (first_unanswered qs) [ none ↦ none | some i ↦ some (suc i) ]
]

abbrev pub or_start : Option ℕ → ℕ
or_start none = 0
or_start (some i) = i

unfoldable pub start_index : List RunQuestion → ℕ
start_index questions = or_start (first_unanswered questions)

unfoldable pub remaining : List RunQuestion → ℕ
remaining questions = length (filter (λ q. not (is_some q.rating)) questions)

unfoldable pub opened : List RunQuestion → Sitting
opened questions = record {
  questions = questions;
  index = start_index questions;
  asked = untouched;
  recorded = [];
}

-- What the screen is: the end, a question whose card is gone, a choice, or a recall.
pub data Screen : Type 0 where
  finish : Screen
  gone choice recall : RunQuestion → Screen

abbrev pub kind_of : RunQuestion → Screen
kind_of q = if q.missing then gone q else if length q.options == 0 then recall q else choice q

abbrev pub screen_at : Option RunQuestion → Screen
screen_at none = finish
screen_at (some q) = kind_of q

unfoldable pub screen : Sitting → Screen
screen s = if remaining s.questions == 0 then finish else screen_at (get_elem? s.questions s.index)

pub data Event : Type 0 where
  revealed : Event
  answer_came : Text → Event
  pressed : Rating → Event
  picked : ℕ → Event
  landed : AnswerResult → Event
  refused next skipped : Event

-- `onAnswered`: the next question is mounted afresh.
unfoldable pub advance : Sitting → Sitting
advance s = record s { index = suc s.index; asked = untouched }

unfoldable pub record_answer : Text → Answer → Sitting → Sitting
record_answer card_id a s = record s { recorded = s.recorded ++ (card_id, a) ∷ [] }

recall_landed : Option Answer → Text → Sitting → Sitting
recall_landed none card_id s = s
recall_landed (some a) card_id s = advance (record_answer card_id a s)

-- `RecallQuestion`.
unfoldable pub on_recall : Event → RunQuestion → Sitting → Sitting
unfolding recall_landed
on_recall revealed q s = record s { asked = record (s.asked) { reveal = true } }
on_recall (answer_came b) q s =
    if s.asked.reveal then record s { asked = record (s.asked) { back = some b } } else s
on_recall (pressed r) q s =
    if s.asked.reveal && is_some s.asked.back && not (is_some s.asked.pending)
    then record s { asked = record (s.asked) { pending = some (rated r) } }
    else s
on_recall (landed result) q s = recall_landed s.asked.pending q.card_id s
on_recall refused q s = record s { asked = record (s.asked) { pending = none } }
on_recall _ q s = s

choice_landed : Option Answer → AnswerResult → Text → Sitting → Sitting
choice_landed none result card_id s = s
choice_landed (some a) result card_id s =
    record_answer card_id a
      (record s { asked = record (s.asked) { result = some result; pending = none } })

-- `ChoiceQuestion`: picking submits, and the result opens the way on.
unfoldable pub on_choice : Event → RunQuestion → Sitting → Sitting
unfolding choice_landed
on_choice (picked i) q s =
    if is_some s.asked.result || is_some s.asked.pending
    then s
    else record s { asked = record (s.asked) { picked = some i; pending = some (chosen i) } }
on_choice (landed result) q s = choice_landed s.asked.pending result q.card_id s
on_choice refused q s = record s { asked = record (s.asked) { pending = none } }
on_choice next q s = if is_some s.asked.result then advance s else s
on_choice _ q s = s

unfoldable pub on_gone : Event → RunQuestion → Sitting → Sitting
on_gone skipped q s = advance s
on_gone _ q s = s

unfoldable pub on_screen : Screen → Event → Sitting → Sitting
on_screen finish e s = s
on_screen (gone q) e s = on_gone e q s
on_screen (choice q) e s = on_choice e q s
on_screen (recall q) e s = on_recall e q s

unfoldable pub handle : Event → Sitting → Sitting
handle e s = on_screen (screen s) e s

unfoldable pub handle_all : List Event → Sitting → Sitting
handle_all [] s = s
handle_all (e ∷ es) s = handle_all es (handle e s)

-- Mounting the screen again, on the questions of the run that is at hand then. What the server
-- recorded stays recorded.
unfoldable pub come_back : List RunQuestion → Sitting → Sitting
come_back questions s = record s {
  questions = questions;
  index = start_index questions;
  asked = untouched;
}
