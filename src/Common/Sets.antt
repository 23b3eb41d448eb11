-- ===== src/Common/Sets.antt =====
-- JavaScript sets of strings, as the lists of their members in the order of insertion.
use mathlib.Core.Path.{◌≡◌, refl, sym, ◌∙◌, ap}
use mathlib.Core.Bool.{Bool, false, ◌&&◌, ◌||◌, not}
use mathlib.Core.Logic.{inl, inr}
use mathlib.Core.List.{List, [], ◌∷◌, ◌++◌, append_assoc, append-nil}
use native.Mathlib.Omega.{arith}
use konku.Common.Tests.{Bool-cases, if◌then◌else◌}
use konku.Common.Lists.{filter}
use konku.Common.Texts.{Text, str_eq, str_eq_iff}

-- `set.has(x)`, and `list.includes(x)`.
unfoldable pub has : Text → List Text → Bool
has x [] = false
has x (y ∷ ys) = str_eq y x || has x ys

unfoldable pub add : Text → List Text → List Text
add x s = if has x s then s else s ++ x ∷ []

unfoldable pub delete : Text → List Text → List Text
delete x s = filter (λ y. not (str_eq y x)) s

-- `new Set(list)`.
unfoldable pub set_from : List Text → List Text → List Text
set_from s [] = s
set_from s (x ∷ xs) = set_from (add x s) xs

abbrev pub set_of : List Text → List Text
set_of xs = set_from [] xs

pub str_eq_sym : (x y : Text) → str_eq x y ≡ str_eq y x
str_eq_sym x y = elim (Bool-cases (str_eq x y)) [
  | inl e ↦ e ∙ sym ((str_eq_iff y x).1 (sym ((str_eq_iff x y).0 e)))
  | inr e ↦ elim (Bool-cases (str_eq y x)) [
    | inl f ↦ (str_eq_iff x y).1 (sym ((str_eq_iff y x).0 f)) ∙ sym f
    | inr f ↦ e ∙ sym f
  ]
]

pub has-append : (y : Text) (s t : List Text) → has y (s ++ t) ≡ (has y s || has y t)
unfolding has
has-append y [] t = refl
has-append y (x ∷ s) t = ground (arith, has-append y s t)

pub has-add : (x y : Text) (s : List Text) → has y (add x s) ≡ (str_eq x y || has y s)
unfolding add
has-add x y s = elim (Bool-cases (has x s)) [
  | inl e ↦ rw e (elim (Bool-cases (str_eq x y)) [
    | inl f ↦ rw f (ap (λ z. has z s) (sym ((str_eq_iff x y).0 f)) ∙ e)
    | inr f ↦ rw f
  ])
  | inr e ↦ rw e (has-append y s (x ∷ []) ∙ unfold has in ground arith)
]

pub has-filter :
    (p : Text → Bool) (y : Text) (s : List Text) → has y (filter p s) ≡ (has y s && p y)
unfolding has
has-filter p y [] = refl
has-filter p y (x ∷ s) = elim (Bool-cases (str_eq x y)) [
  | inl e ↦ let same : p x ≡ p y = ap p ((str_eq_iff x y).0 e) in ground (arith, has-filter p y s)
  | inr e ↦ ground (arith, has-filter p y s)
]

pub has-delete : (x y : Text) (s : List Text) → has y (delete x s) ≡ (has y s && not (str_eq x y))
unfolding delete
has-delete x y s =
    has-filter (λ z. not (str_eq z x)) y s ∙ ap (λ b. has y s && not b) (str_eq_sym y x)

pub has-set_from : (y : Text) (s xs : List Text) → has y (set_from s xs) ≡ (has y s || has y xs)
unfolding set_from
has-set_from y s [] = unfold has in ground arith
has-set_from y s (x ∷ xs) =
    has-set_from y (add x s) xs ∙ (rw (has-add x y s) (unfold has in ground arith))

has_nil : (y : Text) (b : Bool) → (has y [] || b) ≡ b
unfolding has
has_nil y b = refl

pub has-set_of : (y : Text) (xs : List Text) → has y (set_of xs) ≡ has y xs
has-set_of y xs = has-set_from y [] xs ∙ has_nil y (has y xs)

-- No member twice.
abbrev pub IsDistinct : List Text → Type 0
IsDistinct [] = Unit
IsDistinct (x ∷ xs) = (has x xs ≡ false) × IsDistinct xs

pub IsDistinct-filter : (p : Text → Bool) (s : List Text) → IsDistinct s → IsDistinct (filter p s)
IsDistinct-filter p [] h = tt
IsDistinct-filter p (x ∷ s) (h, hs) = elim (Bool-cases (p x)) [
  | inl e ↦ rw e (rw (has-filter p x s) (ground arith), IsDistinct-filter p s hs)
  | inr e ↦ rw e (IsDistinct-filter p s hs)
]

abbrev pub DisjointFrom : List Text → List Text → Type 0
DisjointFrom s [] = Unit
DisjointFrom s (x ∷ xs) = (has x s ≡ false) × DisjointFrom s xs

pub DisjointFrom-add :
    (x : Text) (s xs : List Text)
    → has x xs ≡ false
    → DisjointFrom s xs
    → DisjointFrom (s ++ x ∷ []) xs
DisjointFrom-add x s [] h d = tt
DisjointFrom-add x s (y ∷ ys) h (d, ds) = (
  has-append y s (x ∷ []) ∙ unfold has in ground (arith, str_eq_sym x y),
  DisjointFrom-add x s ys (unfold has in ground arith) ds,
)

set_from_distinct : (s xs : List Text) → IsDistinct xs → DisjointFrom s xs → set_from s xs ≡ s ++ xs
unfolding set_from add
set_from_distinct s [] h d = sym (append-nil s)
set_from_distinct s (x ∷ xs) (h, hs) (d, ds) = rw d (
    set_from_distinct (s ++ x ∷ []) xs hs (DisjointFrom-add x s xs h ds)
    ∙ append_assoc s (x ∷ []) xs)

pub DisjointFrom-nil : (xs : List Text) → DisjointFrom [] xs
unfolding has
DisjointFrom-nil [] = tt
DisjointFrom-nil (x ∷ xs) = (refl, DisjointFrom-nil xs)

-- A list without repetitions is its own set.
pub set_of_distinct : (xs : List Text) → IsDistinct xs → set_of xs ≡ xs
set_of_distinct xs h = set_from_distinct [] xs h (DisjointFrom-nil xs)
