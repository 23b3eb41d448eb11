-- ===== src/Common/Sorted.antt =====
-- `array.sort()` on strings: by UTF-16 code units, ascending.
use mathlib.Core.Path.{◌≡◌, refl, ◌∙◌, ap}
use mathlib.Core.Bool.{Bool, true, false, ◌&&◌, ◌||◌}
use mathlib.Core.List.{List, [], ◌∷◌, Permᴰ}
use native.Mathlib.Omega.{arith}
use konku.Common.Tests.{ltb, ◌==◌, if◌then◌else◌}
use konku.Common.Texts.{Text}

unfoldable pub text_leb : Text → Text → Bool
text_leb [] t = true
text_leb (a ∷ s) [] = false
text_leb (a ∷ s) (b ∷ t) = ltb a b || a == b && text_leb s t

unfoldable pub insert : Text → List Text → List Text
insert x [] = x ∷ []
insert x (y ∷ ys) = let rest = insert x ys in if text_leb x y then x ∷ y ∷ ys else y ∷ rest

unfoldable pub sort : List Text → List Text
sort [] = []
sort (x ∷ xs) = insert x (sort xs)

text_leb_total : (s t : Text) → text_leb s t ≡ false → text_leb t s ≡ true
unfolding text_leb
text_leb_total [] t h = ground arith
text_leb_total (a ∷ s) [] h = refl
text_leb_total (a ∷ s) (b ∷ t) h = ground (arith, text_leb_total s t)

text_leb_antisym : (s t : Text) → text_leb s t ≡ true → text_leb t s ≡ true → s ≡ t
unfolding text_leb
text_leb_antisym [] [] h k = refl
text_leb_antisym [] (b ∷ t) h k = ground arith
text_leb_antisym (a ∷ s) [] h k = ground arith
text_leb_antisym (a ∷ s) (b ∷ t) h k = ground (arith, text_leb_antisym s t)

text_leb_trans : (s t u : Text) → text_leb s t ≡ true → text_leb t u ≡ true → text_leb s u ≡ true
unfolding text_leb
text_leb_trans [] t u h k = refl
text_leb_trans (a ∷ s) [] u h k = ground arith
text_leb_trans (a ∷ s) (b ∷ t) [] h k = ground arith
text_leb_trans (a ∷ s) (b ∷ t) (c ∷ u) h k = ground (arith, text_leb_trans s t u)

insert_comm : (x y : Text) (s : List Text) → insert x (insert y s) ≡ insert y (insert x s)
unfolding insert
insert_comm x y [] = ground (arith, text_leb_total x y, text_leb_antisym x y)
insert_comm x y (z ∷ s) = ground (
  arith,
  insert_comm x y s,
  text_leb_total x y,
  text_leb_antisym x y,
  text_leb_trans x y z,
  text_leb_trans y x z,
  text_leb_total x z,
  text_leb_total y z,
  text_leb_trans x z y,
  text_leb_trans y z x,
)

-- The order of the input does not matter.
pub sort_reordered : {xs ys : List Text} → Permᴰ xs ys → sort xs ≡ sort ys
unfolding sort
sort_reordered Permᴰ.nil = refl
sort_reordered (Permᴰ.cons {a = a} e p) = rw e (ap (insert _) (sort_reordered p))
sort_reordered (Permᴰ.swap {a = a} {b = b} {l = l} e f) = insert_comm a b (sort l) ∙ rw (e, f) refl
sort_reordered (Permᴰ.trans p q) = sort_reordered p ∙ sort_reordered q
