-- ===== src/Review/Run/Result.antt =====
-- The page of a run and its two ends, in web/src/features/review/RunPage.tsx: the request that ends
-- it, and the result of a run that is finished.
use konku.Common.{
  Bool, true, false, ◌&&◌, not, Text, Option, none, some, List, [], ◌∷◌, ◌++◌, filter,
  if◌then◌else◌,
}
use konku.Review.Deck.{Rating, ingat, lupa}
use konku.Review.Run.{RunQuestion, Sitting, Screen, finish, gone, choice, recall, screen, opened}

-- The parts of `RunDetail` that the page reads.
pub record RunDetail : Type 0 where
  pub id : Text
  pub finished : Bool
  pub questions : List RunQuestion

abbrev is_missed : Option Rating → Bool
is_missed none = false
is_missed (some ingat) = false
is_missed (some lupa) = true

-- The questions that the result lists.
unfoldable pub missed : RunDetail → List RunQuestion
missed run = filter (λ q. is_missed q.rating) run.questions

pub data Page : Type 0 where
  result : List RunQuestion → Page
  sitting : Sitting → Page

unfoldable pub page_of : RunDetail → Page
page_of run = if run.finished then result (missed run) else sitting (opened run.questions)

-- The mutation of the finish button: whether it is pending, and the runs it was sent for.
pub record Finishing : Type 0 where
  pub pending : Bool
  pub sent : List Text

abbrev pub at_end : Screen → Bool
at_end finish = true
at_end (gone q) = false
at_end (choice q) = false
at_end (recall q) = false

-- The button is on the last screen only, and off while its request is in flight.
unfoldable pub press_finish : RunDetail → Sitting → Finishing → Finishing
press_finish run s f =
    if at_end (screen s) && not f.pending
    then record { pending = true; sent = f.sent ++ run.id ∷ [] }
    else f

unfoldable pub finish_settled : Finishing → Finishing
finish_settled f = record f { pending = false }
