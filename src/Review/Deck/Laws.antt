-- ===== src/Review/Deck/Laws.antt =====
-- Each due card is rated once, in order, and only after its answer was seen.
use konku.Common.{
  ℕ, zero, suc, ◌≤◌, ◌≡◌, ◌≢◌, refl, sym, ◌∙◌, ap, inl, inr, true, ◌&&◌, Text, List, [], ◌∷◌, ◌++◌,
  map, none, some, length, take, get_elem?, if◌then◌else◌, Bool-cases, Option-cases, ◌==◌, arith,
}
use konku.Review.Deck.{
  Rating, DueCard, Deck, opened, screen, may_rate, Event, revealed, answer_came, rated, saved,
  refused, is_some, on_card, on_screen, save_by, handle, handle_all,
}

-- A rating is on its way only for an answer that came, and an answer comes only when asked for.
-- What was recorded are the cards before the index.
pub record IsHonest (d : Deck) : Type 0 where
  pub seen : d.recall.pending ≢ none → d.recall.back ≢ none
  pub asked : d.recall.back ≢ none → d.recall.reveal ≡ true
  pub passed : map (λ r. r.0) d.recorded ≡ take d.index (map (λ c. c.id) d.cards)
  pub inside : d.index ≤ length d.cards

opened-IsHonest : (cards : List DueCard) (total : ℕ) → IsHonest (opened cards total)
opened-IsHonest cards total = ground arith

pub take_next :
    (i : ℕ) (cs : List DueCard) (c : DueCard)
    → get_elem? cs i ≡ some c
    → take (suc i) (map (λ x. x.id) cs) ≡ take i (map (λ x. x.id) cs) ++ c.id ∷ []
take_next i [] c h = ground arith
take_next zero (x ∷ cs) c h = ground arith
take_next (suc i) (x ∷ cs) c h = ap (λ t. x.id ∷ t) (take_next i cs c h)

get_elem?-lt :
    (i : ℕ) (cs : List DueCard) (c : DueCard) → get_elem? cs i ≡ some c → suc i ≤ length cs
get_elem?-lt i [] c h = ground arith
get_elem?-lt zero (x ∷ cs) c h = omega arith
get_elem?-lt (suc i) (x ∷ cs) c h = omega (arith, get_elem?-lt i cs c h)

map-append :
    (xs : List (Text × Rating)) (x : Text × Rating)
    → map (λ r. r.0) (xs ++ x ∷ []) ≡ map (λ r. r.0) xs ++ x.0 ∷ []
map-append [] x = refl
map-append (y ∷ xs) x = ap (λ t. y.0 ∷ t) (map-append xs x)

save-IsHonest :
    (card : DueCard) (d : Deck)
    → get_elem? d.cards d.index ≡ some card
    → IsHonest d
    → IsHonest (on_card saved card d)
unfolding on_card save_by
save-IsHonest card d at h = elim (Option-cases d.recall.pending) [
  | inl none_sent ↦ simp none_sent h
  | inr (r, on_its_way) ↦ simp on_its_way (record {
    seen = ground arith;
    asked = ground arith;
    passed =
        map-append d.recorded (card.id, r)
        ∙ (ap (λ t. t ++ card.id ∷ []) h.passed ∙ sym (take_next d.index d.cards card at));
    inside = get_elem?-lt d.index d.cards card at;
  })
]

on_card-IsHonest :
    (e : Event) (card : DueCard) (d : Deck)
    → get_elem? d.cards d.index ≡ some card
    → IsHonest d
    → IsHonest (on_card e card d)
unfolding on_card may_rate
on_card-IsHonest revealed card d at h = ground arith
on_card-IsHonest (answer_came b) card d at h = ground arith
on_card-IsHonest (rated r) card d at h = ground arith
on_card-IsHonest saved card d at h = save-IsHonest card d at h
on_card-IsHonest refused card d at h = ground arith

handle-IsHonest : (e : Event) (d : Deck) → IsHonest d → IsHonest (handle e d)
unfolding handle on_screen screen
handle-IsHonest e d h = elim (Bool-cases (length d.cards == 0)) [
  | inl empty ↦ rw empty h
  | inr some_due ↦ rw some_due (elim (Option-cases (get_elem? d.cards d.index)) [
    | inl over ↦ rw over h
    | inr (card, at) ↦ rw at (on_card-IsHonest e card d at h)
  ])
]

handle_all-IsHonest : (es : List Event) (d : Deck) → IsHonest d → IsHonest (handle_all es d)
unfolding handle_all
handle_all-IsHonest [] d h = h
handle_all-IsHonest (e ∷ es) d h = handle_all-IsHonest es (handle e d) (handle-IsHonest e d h)

handle-cards : (e : Event) (d : Deck) → (handle e d).cards ≡ d.cards
unfolding handle on_screen on_card save_by
handle-cards e d = ground arith

handle_all-cards : (es : List Event) (d : Deck) → (handle_all es d).cards ≡ d.cards
unfolding handle_all
handle_all-cards [] d = refl
handle_all-cards (e ∷ es) d = handle_all-cards es (handle e d) ∙ handle-cards e d

-- Whatever is pressed and whatever the server answers, the ratings it has recorded are one for
-- each card before the index, in the order of the deck; and one is on its way only when the
-- card's answer was asked for and came.
pub handle_all-recorded :
    (es : List Event) (cards : List DueCard) (total : ℕ)
    → let d = handle_all es (opened cards total) in
      (map (λ r. r.0) d.recorded ≡ take d.index (map (λ c. c.id) cards))
      × (d.index ≤ length cards)
      × ((if is_some d.recall.pending then is_some d.recall.back && d.recall.reveal else true)
          ≡ true)
handle_all-recorded es cards total =
    let h = handle_all-IsHonest es (opened cards total) (opened-IsHonest cards total) in
    let same = handle_all-cards es (opened cards total) in
    (
      h.passed
          ∙ ap (λ cs. take (handle_all es (opened cards total)).index (map (λ c. c.id) cs)) same,
      omega (arith, h.inside, ap length same),
      ground (arith, h.seen, h.asked),
    )
