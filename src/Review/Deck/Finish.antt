-- ===== src/Review/Deck/Finish.antt =====
-- A deck that is worked through comes to its end.
use konku.Common.{
  ℕ, zero, suc, ◌+◌, ◌≡◌, ◌≢◌, refl, ◌∙◌, ap, true, Text, List, [], ◌∷◌, ◌++◌, append_assoc,
  append-nil, none, some, length, drop, get_elem?, if◌then◌else◌, ◌==◌, arith,
}
use konku.Review.Deck.{
  Rating, DueCard, Recall, unrevealed, Deck, opened, nothing_today, at_index, finished, reviewing,
  screen, may_rate, Event, revealed, answer_came, rated, saved, handle, handle_all, on_screen,
  on_card, save_by,
}

-- One review after another: the answer is asked for, it comes, a rating is pressed, and it lands.
unfoldable pub reviews : List (Text × Rating) → List Event
reviews [] = []
reviews ((back, r) ∷ rs) = revealed ∷ answer_came back ∷ rated r ∷ saved ∷ reviews rs

-- The cards with the ratings pressed.
unfoldable pub rate_all : List DueCard → List (Text × Rating) → List (Text × Rating)
rate_all [] rs = []
rate_all (c ∷ cs) [] = []
rate_all (c ∷ cs) ((back, r) ∷ rs) = (c.id, r) ∷ rate_all cs rs

screen_on :
    (d : Deck) (card : DueCard) → get_elem? d.cards d.index ≡ some card → screen d ≡ reviewing card
unfolding screen
screen_on d card at = go d.cards at
  where
    go :
        (cs : List DueCard)
        → get_elem? cs d.index ≡ some card
        → (if length cs == 0 then nothing_today else at_index (get_elem? cs d.index))
          ≡ reviewing card
    go [] e = ground arith
    go (c ∷ cs) e = ground arith

handled :
    (e : Event) (d : Deck) (card : DueCard)
    → get_elem? d.cards d.index ≡ some card
    → handle e d ≡ on_card e card d
unfolding handle on_screen
handled e d card at = rw (screen_on d card at) refl

-- A deck of `cards` before its card `i`.
abbrev before : List DueCard → ℕ → ℕ → List (Text × Rating) → Recall → Deck
before cards total i recorded recall = record {
  cards = cards;
  total = total;
  index = i;
  recall = recall;
  recorded = recorded;
}

one_review :
    (cards : List DueCard) (total i : ℕ) (recorded : List (Text × Rating)) (card : DueCard)
    (back : Text) (r : Rating)
    → get_elem? cards i ≡ some card
    → handle saved (
        handle
          (rated r)
          (handle (answer_came back) (handle revealed (before cards total i recorded unrevealed))))
      ≡ before cards total (suc i) (recorded ++ (card.id, r) ∷ []) unrevealed
unfolding on_card may_rate save_by
one_review cards total i recorded card back r at =
    let asked : Recall = record { reveal = true; back = none; pending = none } in
    let seen : Recall = record { reveal = true; back = some back; pending = none } in
    let sent : Recall = record { reveal = true; back = some back; pending = some r } in
    ap (λ x. handle saved (handle (rated r) (handle (answer_came back) x)))
      (handled revealed (before cards total i recorded unrevealed) card at)
    ∙ ap (λ x. handle saved (handle (rated r) x))
        (handled (answer_came back) (before cards total i recorded asked) card at)
    ∙ ap (λ x. handle saved x) (handled (rated r) (before cards total i recorded seen) card at)
    ∙ handled saved (before cards total i recorded sent) card at

drop_next :
    (i : ℕ) (xs : List DueCard) (c : DueCard) (cs : List DueCard)
    → drop i xs ≡ c ∷ cs
    → (get_elem? xs i ≡ some c) × (drop (suc i) xs ≡ cs)
drop_next zero [] c cs h = ground arith
drop_next zero (x ∷ xs) c cs h = ground arith
drop_next (suc i) [] c cs h = ground arith
drop_next (suc i) (x ∷ xs) c cs h = drop_next i xs c cs h

reviews_all :
    (cards : List DueCard) (total i : ℕ) (recorded : List (Text × Rating)) (rest : List DueCard)
    (rs : List (Text × Rating))
    → drop i cards ≡ rest
    → length rs ≡ length rest
    → handle_all (reviews rs) (before cards total i recorded unrevealed)
      ≡ before cards total (i + length rest) (recorded ++ rate_all rest rs) unrevealed
unfolding handle_all reviews rate_all
reviews_all cards total i recorded [] [] h n =
    let e : i + 0 ≡ i = omega arith in rw (e, append-nil recorded) refl
reviews_all cards total i recorded [] (r ∷ rs) h n = absurd (omega (arith, n))
reviews_all cards total i recorded (c ∷ cs) [] h n = absurd (omega (arith, n))
reviews_all cards total i recorded (c ∷ cs) ((back, r) ∷ rs) h n =
    let (at, more) = drop_next i cards c cs h in
    let e : suc i + length cs ≡ i + suc (length cs) = omega arith in
    ap (λ x. handle_all (reviews rs) x) (one_review cards total i recorded c back r at)
    ∙ reviews_all cards total (suc i) (recorded ++ (c.id, r) ∷ []) cs rs more (omega (arith, n))
    ∙ rw (e, append_assoc recorded ((c.id, r) ∷ []) (rate_all cs rs)) refl

past_end : (cs : List DueCard) → get_elem? cs (length cs) ≡ none
past_end [] = refl
past_end (c ∷ cs) = past_end cs

screen_past : (d : Deck) → d.cards ≢ [] → d.index ≡ length d.cards → screen d ≡ finished
unfolding screen
screen_past d some_due e = rw e (ground (arith, past_end d.cards))

-- Revealing and rating one card after another, with a server that answers, brings a deck that is
-- not empty to its end, with the rating that was pressed recorded for every card, in order.
pub reviews_finish :
    (cards : List DueCard) (total : ℕ) (rs : List (Text × Rating))
    → cards ≢ []
    → length rs ≡ length cards
    → (screen (handle_all (reviews rs) (opened cards total)) ≡ finished)
      × ((handle_all (reviews rs) (opened cards total)).recorded ≡ rate_all cards rs)
reviews_finish cards total rs some_due n =
    let e = reviews_all cards total 0 [] cards rs refl n in
    (ap screen e ∙ screen_past _ some_due (omega arith), ap (λ d. d.recorded) e)
