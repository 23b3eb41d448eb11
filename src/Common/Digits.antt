-- ===== src/Common/Digits.antt =====
-- `String(n)` and `n.toString(36)`: a number written in a base of at most 36, and read back.
use Prim.Native.Nat.{ℕ, zero, suc, ◌+◌, ◌-◌, ◌*◌, ◌/◌, ◌%◌, ◌≤◌, ◌<◌}
use mathlib.Core.Path.{◌≡◌, ◌∙◌, ap}
use mathlib.Core.Logic.{inl, inr, ◌≢◌}
use mathlib.Core.List.{[], ◌∷◌}
use native.Mathlib.Omega.{arith}
use native.Mathlib.Nat.{div-lt_self, div-add-mod', mod-lt}
use konku.Common.Tests.{ltb, if◌then◌else◌, Bool-cases}
use konku.Common.Texts.{Text}

-- `0` to `9`, then `a` to `z`.
abbrev pub digit : ℕ → ℕ
digit d = if ltb d 10 then b'0' + d else b'a' + (d - 10)

abbrev pub digit_value : ℕ → ℕ
digit_value c = if ltb c b'a' then c - b'0' else c - b'a' + 10

-- The digits of `n` before `rest`; `fuel` bounds their number.
unfoldable pub digits_from : ℕ → ℕ → ℕ → Text → Text
digits_from base zero n rest = rest
digits_from base (suc fuel) n rest =
    let more = digits_from base fuel (n / base) (digit (n % base) ∷ rest) in
    if ltb n base then digit n ∷ rest else more

-- The digits of `n`: there are never more than `n + 1`.
unfoldable pub to_digits : ℕ → ℕ → Text
unfolding digits_from
to_digits base n = digits_from base (suc n) n []

unfoldable pub from_digits : ℕ → ℕ → Text → ℕ
from_digits base acc [] = acc
from_digits base acc (c ∷ s) = from_digits base (acc * base + digit_value c) s

digit_lem : (d : ℕ) → d < 36 → digit_value (digit d) ≡ d
digit_lem d h = ground arith

read_digit :
    (base acc d : ℕ) (rest : Text)
    → d < 36
    → from_digits base acc (digit d ∷ rest) ≡ from_digits base (acc * base + d) rest
unfolding from_digits
read_digit base acc d rest h = rw (digit_lem d h)

module _ (base : ℕ) (least : 2 ≤ base) (most : base ≤ 36) where
  from_digits-digits_from :
      (fuel n : ℕ) (rest : Text)
      → n < fuel
      → from_digits base 0 (digits_from base fuel n rest) ≡ from_digits base n rest
  unfolding digits_from
  from_digits-digits_from zero n rest h = absurd (omega arith)
  from_digits-digits_from (suc fuel) n rest h = elim (Bool-cases (ltb n base)) [
    | inl small ↦ rw small (
        read_digit base 0 n rest (ground arith)
        ∙ (let e : 0 * base + n ≡ n = omega arith in ap (λ m. from_digits base m rest) e))
    | inr large ↦
        let shrinks : n / base < fuel =
          omega (arith, div-lt_self {n = n} {k = base} (ground arith) (omega arith)) in
        let split : n / base * base + n % base ≡ n = div-add-mod' n base in
        let small : n % base < 36 = omega (arith, mod-lt n {m = base} (omega arith)) in
        rw large (
          from_digits-digits_from fuel (n / base) (digit (n % base) ∷ rest) shrinks
          ∙ read_digit base (n / base) (n % base) rest small
          ∙ ap (λ m. from_digits base m rest) split)
  ]

  pub from_digits-to_digits : (n : ℕ) → from_digits base 0 (to_digits base n) ≡ n
  unfolding to_digits from_digits
  from_digits-to_digits n = from_digits-digits_from (suc n) n [] (omega arith)

digits_from-ne : (base fuel n c : ℕ) (rest : Text) → digits_from base fuel n (c ∷ rest) ≢ []
unfolding digits_from
digits_from-ne base zero n c rest = ground arith
digits_from-ne base (suc fuel) n c rest =
    ground (arith, digits_from-ne base fuel (n / base) (digit (n % base)) (c ∷ rest))

-- A number is never written as the empty text.
pub to_digits-ne : (base n : ℕ) → to_digits base n ≢ []
unfolding to_digits digits_from
to_digits-ne base n = ground (arith, digits_from-ne base n (n / base) (digit (n % base)) [])
