-- ===== src/Review/Run/Opening.antt =====
-- Where a run opens: at its first question without an answer.
use konku.Common.{
  ℕ, suc, ◌≡◌, ◌⊎◌, refl, sym, ap, inl, inr, Bool, true, false, Option, none, some, List, [], ◌∷◌,
  take, every, get_elem?, arith, Option-cases,
}
use mathlib.Core.Path.{subst}
use konku.Review.Deck.{is_some}
use konku.Review.Run.{RunQuestion, first_unanswered, or_start, start_index}

abbrev pub is_answered : RunQuestion → Bool
is_answered q = is_some q.rating

-- All questions before it are answered, and it is not; or all are, and it is the first.
abbrev pub IsOpening : List RunQuestion → ℕ → Type 0
IsOpening qs i =
    (every is_answered (take i qs) ≡ true)
    × (((q : RunQuestion) × (get_elem? qs i ≡ some q) × (is_answered q ≡ false))
        ⊎ ((i ≡ 0) × (every is_answered qs ≡ true)))

abbrev Found : List RunQuestion → Option ℕ → Type 0
Found qs none = every is_answered qs ≡ true
Found qs (some i) =
    (every is_answered (take i qs) ≡ true)
    × ((q : RunQuestion) × (get_elem? qs i ≡ some q) × (is_answered q ≡ false))

abbrev next : Option ℕ → Option ℕ
next none = none
next (some i) = some (suc i)

Found-next :
    (q : RunQuestion) (qs : List RunQuestion) (found : Option ℕ)
    → is_answered q ≡ true
    → Found qs found
    → Found (q ∷ qs) (next found)
Found-next q qs none e h = ground arith
Found-next q qs (some i) e (h, rest) = (ground arith, rest)

first_unanswered-Found : (qs : List RunQuestion) → Found qs (first_unanswered qs)
unfolding first_unanswered
first_unanswered-Found [] = refl
first_unanswered-Found (q ∷ qs) = elim (Option-cases q.rating) [
  | inl e ↦ subst (Found (q ∷ qs)) {x = some 0} (sym (rw e refl)) (refl, (q, refl, ap is_some e))
  | inr (r, e) ↦
      subst (Found (q ∷ qs)) {x = next (first_unanswered qs)} (sym (rw e (ground arith)))
        (Found-next q qs (first_unanswered qs) (ap is_some e) (first_unanswered-Found qs))
]

Found-IsOpening :
    (qs : List RunQuestion) (found : Option ℕ) → Found qs found → IsOpening qs (or_start found)
Found-IsOpening qs none h = (refl, inr (refl, h))
Found-IsOpening qs (some i) (h, q) = (h, inl q)

pub start_index-IsOpening : (qs : List RunQuestion) → IsOpening qs (start_index qs)
unfolding start_index
start_index-IsOpening qs = Found-IsOpening qs (first_unanswered qs) (first_unanswered-Found qs)
