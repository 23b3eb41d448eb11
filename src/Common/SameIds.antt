-- ===== src/Common/SameIds.antt =====
-- `sameIds` of the two editors: equal length, and every id of the first in the second.
use Prim.Native.Nat.{◌≤◌, ◌<◌}
use mathlib.Core.Path.{◌≡◌, refl, sym, ◌∙◌, ap}
use mathlib.Core.Bool.{Bool, true, false, not}
use mathlib.Core.Logic.{inl, inr}
use mathlib.Core.List.{List, [], ◌∷◌}
use native.Mathlib.Omega.{arith}
use konku.Common.Tests.{◌==◌, Bool-cases, if◌then◌else◌}
use konku.Common.Lists.{length, every, length-filter}
use konku.Common.Texts.{Text, str_eq, str_eq_iff, str_eq_refl}
use konku.Common.Sets.{has, delete, has-delete, IsDistinct, str_eq_sym}

unfoldable pub same_ids : List Text → List Text → Bool
same_ids a b = if length a == length b then every (λ id. has id b) a else false

length-delete : (y : Text) (b : List Text) → has y b ≡ true → length (delete y b) < length b
unfolding delete has
length-delete y [] h = cc
length-delete y (x ∷ b) h =
    ground (arith, length-delete y b, length-filter (λ z. not (str_eq z y)) b)

every-delete :
    (x : Text) (a b : List Text)
    → has x a ≡ false
    → every (λ id. has id b) a ≡ true
    → every (λ id. has id (delete x b)) a ≡ true
unfolding has
every-delete x [] b h e = refl
every-delete x (y ∷ a) b h e = ground (arith, every-delete x a b, has-delete x y b, str_eq_sym x y)

every-length :
    (a b : List Text) → IsDistinct a → every (λ id. has id b) a ≡ true → length a ≤ length b
every-length [] b d e = omega arith
every-length (x ∷ a) b (h, d) e = omega (
  arith,
  every-length a (delete x b) d (every-delete x a b h (ground arith)),
  length-delete x b (ground arith),
)

every-has :
    (y : Text) (a b : List Text) → every (λ id. has id b) a ≡ true → has y a ≡ true → has y b ≡ true
unfolding has
every-has y [] b e h = cc
every-has y (x ∷ a) b e h = elim (Bool-cases (str_eq x y)) [
  | inl same ↦ ap (λ z. has z b) (sym ((str_eq_iff x y).0 same)) ∙ ground arith
  | inr other ↦ every-has y a b (ground arith) (ground arith)
]

-- On ids of which the first list has none twice, the test says that the two lists have the same
-- members.
pub same_ids_members :
    (y : Text) (a b : List Text) → IsDistinct a → same_ids a b ≡ true → has y b ≡ has y a
unfolding same_ids
same_ids_members y a b d h = elim (Bool-cases (has y a)) [
  | inl here ↦ every-has y a b (ground arith) here ∙ sym here
  | inr absent ↦ elim (Bool-cases (has y b)) [
    | inl extra ↦ absurd (
        ground (
          arith,
          every-length a (delete y b) d (every-delete y a b absent (ground arith)),
          length-delete y b extra,
        ))
    | inr neither ↦ neither ∙ sym absent
  ]
]

every-more :
    (x : Text) (a b : List Text)
    → every (λ id. has id b) a ≡ true
    → every (λ id. has id (x ∷ b)) a ≡ true
unfolding has
every-more x [] b h = refl
every-more x (y ∷ a) b h = ground (arith, every-more x a b)

every_self : (a : List Text) → every (λ id. has id a) a ≡ true
unfolding has
every_self [] = refl
every_self (x ∷ a) = ground (arith, str_eq_refl x, every-more x a a (every_self a))

pub same_ids_refl : (a : List Text) → same_ids a a ≡ true
unfolding same_ids
same_ids_refl a = ground (arith, every_self a)
