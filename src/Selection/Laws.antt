-- ===== src/Selection/Laws.antt =====
-- What is ticked after each operation, row by row, and what the screen is told of it.
use konku.Common.{
  ◌≡◌, refl, sym, ◌∙◌, ap, inl, inr, Bool, true, false, ◌&&◌, not, Text, List, [], ◌∷◌, length,
  filter, every, length-filter, str_eq, str_eq_refl, Bool-cases, All, ◌++◌, append_assoc, suc,
  if◌then◌else◌, arith, ◌==◌,
}
use mathlib.Core.Path.{fun_ext, subst}
use konku.Common.Sets.{
  has, add, delete, has-add, has-delete, has-filter, has-set_of, has-append, IsDistinct,
  IsDistinct-filter, set_of_distinct,
}
use konku.Selection.{selected, toggle, all_on, mark, toggle_all, ordered, count, all_selected}

-- A press flips the pressed row and leaves every other row as it was.
pub has-toggle :
    (id y : Text) (raw : List Text)
    → has y (toggle id raw) ≡ (if str_eq id y then not (has id raw) else has y raw)
unfolding toggle
has-toggle id y raw = elim (Bool-cases (has id raw)) [
  | inl e ↦ rw e (has-delete id y raw ∙ ground arith)
  | inr e ↦ rw e (has-add id y raw ∙ ground arith)
]

has-mark :
    (on : Bool) (ids next : List Text) (y : Text)
    → has y (mark on ids next) ≡ (if has y ids then not on else has y next)
unfolding mark
has-mark on [] next y = unfold has in refl
has-mark true (id ∷ ids) next y =
    has-mark true ids (delete id next) y ∙ rw (has-delete id y next) (unfold has in ground arith)
has-mark false (id ∷ ids) next y =
    has-mark false ids (add id next) y ∙ rw (has-add id y next) (unfold has in ground arith)

-- "All" ticks every visible row, or unticks every visible row when all of them were ticked, and
-- leaves a row that is not on screen as it was.
pub has-toggle_all :
    (ids raw : List Text) (y : Text)
    → has y (toggle_all ids raw) ≡ (if has y ids then not (all_on ids raw) else has y raw)
unfolding toggle_all
has-toggle_all ids raw y = has-mark (all_on ids raw) ids raw y

has-selected :
    (ids raw : List Text) (y : Text) → has y (selected ids raw) ≡ (has y ids && has y raw)
unfolding selected
has-selected ids [] y = unfold has in ground arith
has-selected ids (r ∷ raw) y =
    let some_ticked : (suc (length raw) == 0) ≡ false = ground arith in
    rw some_ticked (
      has-set_of y (filter (λ id. has id (r ∷ raw)) ids)
      ∙ has-filter (λ id. has id (r ∷ raw)) y ids)

-- Every row of a list is in it.
members : (before xs : List Text) → All (λ id. has id (before ++ xs) ≡ true) xs
members before [] = tt
members before (x ∷ xs) = (
  has-append x before (x ∷ xs) ∙ unfold has in ground (arith, str_eq_refl x),
  subst (λ zs. All (λ id. has id zs ≡ true) xs) (append_assoc before (x ∷ []) xs)
      (members (before ++ x ∷ []) xs),
)

filter_inside :
    (p : Text → Bool) (zs xs : List Text)
    → All (λ id. has id zs ≡ true) xs
    → filter (λ id. has id zs && p id) xs ≡ filter p xs
filter_inside p zs [] h = refl
filter_inside p zs (x ∷ xs) (h, hs) = rw (h, filter_inside p zs xs hs)

-- The rows that a mutation is sent are the visible rows that are ticked, in list order.
pub ordered_lem : (ids raw : List Text) → ordered ids raw ≡ filter (λ id. has id raw) ids
unfolding ordered
ordered_lem ids raw =
    ap (λ p. filter p ids) (fun_ext (has-selected ids raw))
    ∙ filter_inside (λ id. has id raw) ids ids (members [] ids)

filter_none : (xs : List Text) → filter (λ id. has id []) xs ≡ []
unfolding has
filter_none [] = refl
filter_none (x ∷ xs) = filter_none xs

selected_distinct :
    (ids raw : List Text) → IsDistinct ids → selected ids raw ≡ filter (λ id. has id raw) ids
unfolding selected
selected_distinct ids [] h = sym (filter_none ids)
selected_distinct ids (r ∷ raw) h =
    let some_ticked : (suc (length raw) == 0) ≡ false = ground arith in
    rw some_ticked (set_of_distinct _ (IsDistinct-filter (λ id. has id (r ∷ raw)) ids h))

length-filter-every :
    (p : Text → Bool) (xs : List Text) → (length (filter p xs) == length xs) ≡ every p xs
length-filter-every p [] = refl
length-filter-every p (x ∷ xs) = ground (arith, length-filter-every p xs, length-filter p xs)

-- On a list with no row twice, the bar counts the rows that a mutation would be sent, and says
-- "all" exactly when there are rows and each of them is ticked, which is when "all" unticks them.
pub counts_agree :
    (ids raw : List Text)
    → IsDistinct ids
    → (count ids raw ≡ length (ordered ids raw)) × (all_selected ids raw ≡ all_on ids raw)
unfolding count all_selected all_on
counts_agree ids raw h = (
  rw (ordered_lem ids raw) (ap length (selected_distinct ids raw h)),
  rw (selected_distinct ids raw h, length-filter-every (λ id. has id raw) ids) refl,
)
