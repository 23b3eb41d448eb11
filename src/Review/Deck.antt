-- ===== src/Review/Deck.antt =====
-- The due queue of one day: `ReviewPage` and `CardReview` of web/src/features/review/ReviewPage.tsx.
-- `recorded` is what the server has acknowledged, in order.
pub mod Laws
pub mod Finish
use konku.Common.{
  ℕ, suc, ◌+◌, ◌-◌, Bool, true, false, ◌&&◌, not, Text, List, [], ◌∷◌, ◌++◌, Option, none, some,
  length, get_elem?, leb, ◌==◌, if◌then◌else◌,
}

pub data Rating : Type 0 where
  ingat lupa : Rating

pub record DueCard : Type 0 where
  pub id : Text
  pub front : Text

-- `CardReview`: whether the answer was asked for, what came of that, and the rating on its way.
pub record Recall : Type 0 where
  pub reveal : Bool
  pub back : Option Text
  pub pending : Option Rating

abbrev pub unrevealed : Recall
unrevealed = record { reveal = false; back = none; pending = none }

pub record Deck : Type 0 where
  pub cards : List DueCard
  pub total : ℕ
  pub index : ℕ
  pub recall : Recall
  pub recorded : List (Text × Rating)

abbrev pub opened : List DueCard → ℕ → Deck
opened cards total = record {
  cards = cards;
  total = total;
  index = 0;
  recall = unrevealed;
  recorded = [];
}

-- What the screen is: `Finished` with "nothing today" or without, or a card.
pub data Screen : Type 0 where
  nothing_today finished : Screen
  reviewing : DueCard → Screen

-- The card at the index, or the end of the deck.
abbrev pub at_index : Option DueCard → Screen
at_index none = finished
at_index (some card) = reviewing card

unfoldable pub screen : Deck → Screen
screen d = if length d.cards == 0 then nothing_today else at_index (get_elem? d.cards d.index)

unfoldable pub deferred : Deck → ℕ
deferred d = d.total - length d.cards

abbrev pub is_some {ℓ} : {A : Type ℓ} → Option A → Bool
is_some none = false
is_some (some a) = true

-- The `disabled` of the two answers, which are on screen when the answer was asked for.
unfoldable pub may_rate : Recall → Bool
may_rate r = r.reveal && is_some r.back && not (is_some r.pending)

pub data Event : Type 0 where
  revealed : Event
  answer_came : Text → Event
  rated : Rating → Event
  saved refused : Event

-- Rating lands: the next card is mounted afresh.
pub save_by : Option Rating → DueCard → Deck → Deck
save_by none card d = d
save_by (some r) card d = record d {
  index = suc d.index;
  recall = unrevealed;
  recorded = d.recorded ++ (card.id, r) ∷ [];
}

pub on_card : Event → DueCard → Deck → Deck
on_card revealed card d = record d { recall = record (d.recall) { reveal = true } }
on_card (answer_came b) card d =
    if d.recall.reveal then record d { recall = record (d.recall) { back = some b } } else d
on_card (rated r) card d =
    if may_rate d.recall then record d { recall = record (d.recall) { pending = some r } } else d
on_card saved card d = save_by d.recall.pending card d
on_card refused card d = record d { recall = record (d.recall) { pending = none } }

pub on_screen : Screen → Event → Deck → Deck
on_screen nothing_today e d = d
on_screen finished e d = d
on_screen (reviewing card) e d = on_card e card d

unfoldable pub handle : Event → Deck → Deck
unfolding on_screen on_card save_by may_rate screen
handle e d = on_screen (screen d) e d

unfoldable pub handle_all : List Event → Deck → Deck
handle_all [] d = d
handle_all (e ∷ es) d = handle_all es (handle e d)
