-- ===== src/Common/Trim.antt =====
-- `s.trim()`.
use Prim.Native.Nat.{ℕ}
use mathlib.Core.Path.{◌≡◌, refl}
use mathlib.Core.Bool.{Bool, false, ◌&&◌, ◌||◌}
use mathlib.Core.Logic.{inl, inr}
use mathlib.Core.List.{[], ◌∷◌}
use native.Mathlib.Omega.{arith}
use konku.Common.Tests.{◌==◌, leb, if◌then◌else◌, Bool-cases}
use konku.Common.Texts.{Text}

-- White space and line terminators of the language.
unfoldable pub is_space : ℕ → Bool
is_space c =
    leb 9 c && leb c 13
    || c == 32
    || c == 0xa0
    || (c == 0x1680 || leb 0x2000 c && leb c 0x200a)
    || (c == 0x2028 || c == 0x2029 || c == 0x202f || c == 0x205f)
    || (c == 0x3000 || c == 0xfeff)

unfoldable pub trim_start : Text → Text
trim_start [] = []
trim_start (c ∷ s) = if is_space c then trim_start s else c ∷ s

-- A character before a text whose end is trimmed: dropped if it is a space and nothing follows.
abbrev pub keep_before : ℕ → Text → Text
keep_before c [] = if is_space c then [] else c ∷ []
keep_before c (d ∷ s) = c ∷ d ∷ s

unfoldable pub trim_end : Text → Text
trim_end [] = []
trim_end (c ∷ s) = keep_before c (trim_end s)

unfoldable pub trim : Text → Text
trim s = trim_end (trim_start s)

trim_end-trim_end : (s : Text) → trim_end (trim_end s) ≡ trim_end s
unfolding trim_end
trim_end-trim_end [] = refl
trim_end-trim_end (c ∷ s) = again c (trim_end s) (trim_end-trim_end s)
  where
    again : (c : ℕ) (t : Text) → trim_end t ≡ t → trim_end (keep_before c t) ≡ keep_before c t
    again c [] h = ground arith
    again c (d ∷ t) h = rw h

-- The start of a text that is not a space stays one.
trim_start-keep_before :
    (c : ℕ) (t : Text) → is_space c ≡ false → trim_start (keep_before c t) ≡ keep_before c t
unfolding trim_start
trim_start-keep_before c [] h = ground arith
trim_start-keep_before c (d ∷ t) h = rw h

trim_start-trim : (s : Text) → trim_start (trim_end (trim_start s)) ≡ trim_end (trim_start s)
unfolding trim_start trim_end
trim_start-trim [] = refl
trim_start-trim (c ∷ s) = elim (Bool-cases (is_space c)) [
  | inl e ↦ rw e (trim_start-trim s)
  | inr e ↦ rw e (trim_start-keep_before c (trim_end s) e)
]

-- A trimmed text is trimmed.
pub trim-trim : (s : Text) → trim (trim s) ≡ trim s
unfolding trim
trim-trim s = rw (trim_start-trim s) (trim_end-trim_end (trim_start s))
