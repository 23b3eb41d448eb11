-- ===== src/Review/Run/Steps.antt =====
-- What each step of a run does to the account of the answers recorded.
use konku.Common.{
  ℕ, zero, suc, ◌≡◌, refl, sym, ◌∙◌, ap, inl, inr, Bool, true, false, ◌&&◌, ◌||◌, not, Text, List,
  [], ◌∷◌, ◌++◌, map, filter, Option, none, some, length, take, get_elem?, if◌then◌else◌,
  Bool-cases, Option-cases, ◌==◌, append_assoc, append-nil, arith,
}
use konku.Review.Deck.{is_some}
use konku.Review.Run.{
  RunQuestion, Answer, Asked, untouched, Sitting, Event, revealed, answer_came, pressed, picked,
  landed, refused, next, skipped, advance, record_answer, on_recall, on_choice, on_gone,
}

-- The cards of the questions that can be asked, in order.
unfoldable pub cards_of : List RunQuestion → List Text
cards_of qs = map (λ q. q.card_id) (filter (λ q. not q.missing) qs)

-- The card that is answered but not yet left.
abbrev pub open_answer : Option RunQuestion → Asked → List Text
open_answer none a = []
open_answer (some q) a = if is_some a.result then q.card_id ∷ [] else []

abbrev pub is_choice : RunQuestion → Bool
is_choice q = not q.missing && not (length q.options == 0)

abbrev pub choice_at : Option RunQuestion → Bool
choice_at none = false
choice_at (some q) = is_choice q

-- What was recorded are the cards from the one where the run was opened to the index.
pub record IsFaithful (start : ℕ) (s : Sitting) : Type 0 where
  pub passed :
      cards_of (take start s.questions) ++ map (λ r. r.0) s.recorded
      ≡ cards_of (take s.index s.questions) ++ open_answer (get_elem? s.questions s.index) s.asked
  pub one_way : is_some s.asked.pending ≡ true → is_some s.asked.result ≡ false
  pub a_choice : is_some s.asked.result ≡ true → choice_at (get_elem? s.questions s.index) ≡ true

cards_of_next :
    (i : ℕ) (qs : List RunQuestion) (q : RunQuestion)
    → get_elem? qs i ≡ some q
    → cards_of (take (suc i) qs)
      ≡ cards_of (take i qs) ++ (if q.missing then [] else q.card_id ∷ [])
unfolding cards_of
cards_of_next i [] q h = ground arith
cards_of_next zero (x ∷ qs) q h = ground arith
cards_of_next (suc i) (x ∷ qs) q h = elim (Bool-cases x.missing) [
  | inl m ↦ rw m (cards_of_next i qs q h)
  | inr m ↦ rw m (ap (λ t. x.card_id ∷ t) (cards_of_next i qs q h))
]

map-append :
    (xs : List (Text × Answer)) (x : Text × Answer)
    → map (λ r. r.0) (xs ++ x ∷ []) ≡ map (λ r. r.0) xs ++ x.0 ∷ []
map-append [] x = refl
map-append (y ∷ xs) x = ap (λ t. y.0 ∷ t) (map-append xs x)

pub none_open :
    (o : Option RunQuestion) (a : Asked) → is_some a.result ≡ false → open_answer o a ≡ []
none_open none a h = refl
none_open (some q) a h = rw h refl

-- One answer more, and the next question.
moved :
    (start : ℕ) (q : RunQuestion) (s : Sitting) (more : List Text)
    → get_elem? s.questions s.index ≡ some q
    → cards_of (take start s.questions) ++ more
      ≡ cards_of (take s.index s.questions) ++ (if q.missing then [] else q.card_id ∷ [])
    → cards_of (take start s.questions) ++ more
      ≡ cards_of (take (suc s.index) s.questions)
        ++ open_answer (get_elem? s.questions (suc s.index)) untouched
moved start q s more at h =
    h
    ∙ sym (cards_of_next s.index s.questions q at)
    ∙ sym (append-nil _)
    ∙ ap (λ t. cards_of (take (suc s.index) s.questions) ++ t)
        (sym (none_open (get_elem? s.questions (suc s.index)) untouched refl))

recorded_more :
    (start : ℕ) (q : RunQuestion) (s : Sitting) (a : Answer)
    → get_elem? s.questions s.index ≡ some q
    → is_some s.asked.result ≡ false
    → IsFaithful start s
    → cards_of (take start s.questions) ++ map (λ r. r.0) (s.recorded ++ (q.card_id, a) ∷ [])
      ≡ cards_of (take s.index s.questions) ++ q.card_id ∷ []
recorded_more start q s a at free h =
    ap (λ t. cards_of (take start s.questions) ++ t) (map-append s.recorded (q.card_id, a))
    ∙ sym (
        append_assoc (cards_of (take start s.questions)) (map (λ r. r.0) s.recorded)
          (q.card_id ∷ []))
    ∙ ap (λ t. t ++ q.card_id ∷ [])
        (h.passed
          ∙ ap (λ t. cards_of (take s.index s.questions) ++ t)
              (none_open (get_elem? s.questions s.index) s.asked free)
          ∙ append-nil _)

open_same :
    (o : Option RunQuestion) (a b : Asked) → a.result ≡ b.result → open_answer o a ≡ open_answer o b
open_same none a b h = refl
open_same (some q) a b h = rw h refl

-- Changing anything but the result of the question on screen.
touched :
    (start : ℕ) (s : Sitting) (a : Asked)
    → a.result ≡ s.asked.result
    → (is_some a.pending ≡ true → is_some a.result ≡ false)
    → IsFaithful start s
    → IsFaithful start (record s { asked = a })
touched start s a e way h = record {
  passed =
      h.passed
      ∙ ap (λ t. cards_of (take s.index s.questions) ++ t)
          (open_same (get_elem? s.questions s.index) s.asked a (sym e));
  one_way = way;
  a_choice = λ k. h.a_choice (ap is_some (sym e) ∙ k);
}

advanced :
    (start : ℕ) (s : Sitting) (more : List (Text × Answer))
    → cards_of (take start s.questions) ++ map (λ r. r.0) more
      ≡ cards_of (take (suc s.index) s.questions)
        ++ open_answer (get_elem? s.questions (suc s.index)) untouched
    → IsFaithful start (record s { index = suc s.index; asked = untouched; recorded = more })
advanced start s more h = record {
  passed = h;
  one_way = λ k. ground arith;
  a_choice = λ k. ground arith;
}

no_result :
    (start : ℕ) (q : RunQuestion) (s : Sitting)
    → get_elem? s.questions s.index ≡ some q
    → is_choice q ≡ false
    → IsFaithful start s
    → is_some s.asked.result ≡ false
no_result start q s at kind h =
    let c : choice_at (get_elem? s.questions s.index) ≡ false = rw at kind in
    ground (arith, h.a_choice, c)

pub recall-IsFaithful :
    (start : ℕ) (e : Event) (q : RunQuestion) (s : Sitting)
    → get_elem? s.questions s.index ≡ some q
    → is_choice q ≡ false
    → q.missing ≡ false
    → IsFaithful start s
    → IsFaithful start (on_recall e q s)
unfolding on_recall advance record_answer
recall-IsFaithful start (landed result) q s at kind here h = elim (Option-cases s.asked.pending) [
  | inl idle ↦ simp idle h
  | inr (a, sent) ↦ simp sent (
      advanced start s (s.recorded ++ (q.card_id, a) ∷ []) (
        moved start q s _ at
          (rw here (recorded_more start q s a at (no_result start q s at kind h) h))))
]
recall-IsFaithful start revealed q s at kind here h = touched start s _ refl h.one_way h
recall-IsFaithful start (answer_came b) q s at kind here h = elim (Bool-cases s.asked.reveal) [
  | inl shown ↦ simp shown (touched start s _ refl h.one_way h)
  | inr hidden ↦ simp hidden h
]
recall-IsFaithful start (pressed r) q s at kind here h =
    let free = no_result start q s at kind h in
    elim (Bool-cases (s.asked.reveal && is_some s.asked.back && not (is_some s.asked.pending))) [
      | inl may ↦ simp may (touched start s _ refl (λ k. free) h)
      | inr may_not ↦ simp may_not h
    ]
recall-IsFaithful start refused q s at kind here h = touched start s _ refl (λ k. ground arith) h
recall-IsFaithful start (picked i) q s at kind here h = h
recall-IsFaithful start next q s at kind here h = h
recall-IsFaithful start skipped q s at kind here h = h

pub choice-IsFaithful :
    (start : ℕ) (e : Event) (q : RunQuestion) (s : Sitting)
    → get_elem? s.questions s.index ≡ some q
    → is_choice q ≡ true
    → IsFaithful start s
    → IsFaithful start (on_choice e q s)
unfolding on_choice advance record_answer
choice-IsFaithful start (landed result) q s at kind h = elim (Option-cases s.asked.pending) [
  | inl idle ↦ simp idle h
  | inr (a, sent) ↦ simp sent (record {
    passed =
        recorded_more start q s a at (h.one_way (ap is_some sent)) h
        ∙ ap (λ t. cards_of (take s.index s.questions) ++ t) (rw at refl);
    one_way = λ k. ground arith;
    a_choice = λ k. rw at kind;
  })
]
choice-IsFaithful start next q s at kind h = elim (Option-cases s.asked.result) [
  | inl open_still ↦ simp open_still h
  | inr (r, answered) ↦ simp answered (
      advanced start s s.recorded (
        moved start q s _ at (
          h.passed
          ∙ ap (λ t. cards_of (take s.index s.questions) ++ t)
              (rw at (rw answered (ground arith))))))
]
choice-IsFaithful start (picked i) q s at kind h =
    elim (Bool-cases (is_some s.asked.result || is_some s.asked.pending)) [
      | inl busy ↦ simp busy h
      | inr free ↦ simp free (touched start s _ refl (λ k. ground arith) h)
    ]
choice-IsFaithful start refused q s at kind h = touched start s _ refl (λ k. ground arith) h
choice-IsFaithful start revealed q s at kind h = h
choice-IsFaithful start (answer_came b) q s at kind h = h
choice-IsFaithful start (pressed r) q s at kind h = h
choice-IsFaithful start skipped q s at kind h = h

pub gone-IsFaithful :
    (start : ℕ) (e : Event) (q : RunQuestion) (s : Sitting)
    → get_elem? s.questions s.index ≡ some q
    → q.missing ≡ true
    → IsFaithful start s
    → IsFaithful start (on_gone e q s)
unfolding on_gone advance
gone-IsFaithful start skipped q s at none_left h =
    let free = no_result start q s at (ground arith) h in
    advanced start s s.recorded (
      moved start q s _ at (
        h.passed
        ∙ ap (λ t. cards_of (take s.index s.questions) ++ t)
            (none_open (get_elem? s.questions s.index) s.asked free ∙ rw none_left refl)))
gone-IsFaithful start revealed q s at none_left h = h
gone-IsFaithful start (answer_came b) q s at none_left h = h
gone-IsFaithful start (pressed r) q s at none_left h = h
gone-IsFaithful start (picked i) q s at none_left h = h
gone-IsFaithful start (landed r) q s at none_left h = h
gone-IsFaithful start refused q s at none_left h = h
gone-IsFaithful start next q s at none_left h = h
