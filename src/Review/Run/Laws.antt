-- ===== src/Review/Run/Laws.antt =====
-- Which questions of a run get an answer recorded, and what coming back to it does.
use konku.Common.{
  ℕ, ◌≡◌, refl, sym, ◌∙◌, ap, inl, inr, List, [], ◌∷◌, ◌++◌, map, some, length, take, get_elem?,
  Bool-cases, Option-cases, ◌==◌, arith,
}
use mathlib.Core.Path.{subst}
use konku.Review.Run.{
  RunQuestion, untouched, Sitting, start_index, opened, kind_of, screen, Event, on_screen,
  on_recall, on_choice, on_gone, advance, record_answer, handle, handle_all, remaining,
}
use konku.Review.Run.Steps.{
  none_open, cards_of, open_answer, IsFaithful, recall-IsFaithful, choice-IsFaithful,
  gone-IsFaithful,
}

kind-IsFaithful :
    (start : ℕ) (e : Event) (q : RunQuestion) (s : Sitting)
    → get_elem? s.questions s.index ≡ some q
    → IsFaithful start s
    → IsFaithful start (on_screen (kind_of q) e s)
unfolding on_screen
kind-IsFaithful start e q s at h = elim (Bool-cases q.missing) [
  | inl lost ↦ simp lost (gone-IsFaithful start e q s at lost h)
  | inr here ↦ simp here (elim (Bool-cases (length q.options == 0)) [
    | inl no_options ↦ simp no_options (recall-IsFaithful start e q s at (ground arith) here h)
    | inr options ↦ simp options (choice-IsFaithful start e q s at (ground arith) h)
  ])
]

handle-IsFaithful :
    (start : ℕ) (e : Event) (s : Sitting) → IsFaithful start s → IsFaithful start (handle e s)
unfolding handle on_screen screen
handle-IsFaithful start e s h = elim (Bool-cases (remaining s.questions == 0)) [
  | inl complete ↦ rw complete h
  | inr some_left ↦ rw some_left (elim (Option-cases (get_elem? s.questions s.index)) [
    | inl over ↦ rw over h
    | inr (q, at) ↦ rw at (kind-IsFaithful start e q s at h)
  ])
]

handle_all-IsFaithful :
    (start : ℕ) (es : List Event) (s : Sitting)
    → IsFaithful start s
    → IsFaithful start (handle_all es s)
unfolding handle_all
handle_all-IsFaithful start [] s h = h
handle_all-IsFaithful start (e ∷ es) s h =
    handle_all-IsFaithful start es (handle e s) (handle-IsFaithful start e s h)

opened-IsFaithful : (qs : List RunQuestion) → IsFaithful (start_index qs) (opened qs)
unfolding opened
opened-IsFaithful qs = record {
  passed =
      ap (λ t. cards_of (take (start_index qs) qs) ++ t)
        (sym (none_open (get_elem? qs (start_index qs)) untouched refl));
  one_way = λ k. refl;
  a_choice = λ k. ground arith;
}

handle-questions : (e : Event) (s : Sitting) → (handle e s).questions ≡ s.questions
unfolding handle on_screen on_recall on_choice on_gone advance record_answer
handle-questions e s = ground arith

handle_all-questions : (es : List Event) (s : Sitting) → (handle_all es s).questions ≡ s.questions
unfolding handle_all
handle_all-questions [] s = refl
handle_all-questions (e ∷ es) s = handle_all-questions es (handle e s) ∙ handle-questions e s

faithful_at :
    (start : ℕ) (s : Sitting) (qs : List RunQuestion)
    → s.questions ≡ qs
    → IsFaithful start s
    → cards_of (take start qs) ++ map (λ r. r.0) s.recorded
      ≡ cards_of (take s.index qs) ++ open_answer (get_elem? qs s.index) s.asked
faithful_at start s qs e h =
    subst
      (λ xs.
        cards_of (take start xs) ++ map (λ r. r.0) s.recorded
        ≡ cards_of (take s.index xs) ++ open_answer (get_elem? xs s.index) s.asked)
      e h.passed

-- Whatever is pressed and whatever the server answers, the answers that a run has recorded are
-- one for each question that it has passed since the first unanswered one, in order, without the
-- questions whose card is gone, and one for a choice whose result is on screen.
pub handle_all-recorded_run :
    (es : List Event) (qs : List RunQuestion)
    → let s = handle_all es (opened qs) in
      cards_of (take (start_index qs) qs) ++ map (λ r. r.0) s.recorded
      ≡ cards_of (take s.index qs) ++ open_answer (get_elem? qs s.index) s.asked
handle_all-recorded_run es qs =
    faithful_at (start_index qs) (handle_all es (opened qs)) qs
      (handle_all-questions es (opened qs) ∙ unfold opened in refl)
      (handle_all-IsFaithful (start_index qs) es (opened qs) (opened-IsFaithful qs))
