-- ===== src/Caret/Position.antt =====
-- Offsets of a text as a line and a column: the arithmetic that web/src/lib/caret.ts relies on.
use konku.Common.{
  ℕ, zero, suc, ◌+◌, ◌-◌, ◌≤◌, ◌<◌, ◌≡◌, refl, ◌⊎◌, inl, inr, Text, List, [], ◌∷◌, length, take,
  ◌==◌, if◌then◌else◌, arith, Bool-cases, true, false,
}
use konku.Caret.{newline, push, split_lines, last_break, line_length, line_start, line_of}

-- The number of newlines.
pub breaks : Text → ℕ
breaks [] = 0
breaks (c ∷ s) = if c == newline then suc (breaks s) else breaks s

zero_cases : (n : ℕ) → (n ≡ 0) ⊎ (0 < n)
zero_cases zero = inl refl
zero_cases (suc n) = inr (omega arith)

length-push : (c : ℕ) (ls : List Text) → 0 < length ls → length (push c ls) ≡ length ls
length-push c [] h = elim h [ ]
length-push c (l ∷ ls) h = refl

pub length-split_lines : (s : Text) → length (split_lines s) ≡ suc (breaks s)
unfolding split_lines breaks
length-split_lines [] = refl
length-split_lines (c ∷ s) = ground (arith, length-split_lines s, length-push c (split_lines s))

pub line_of_lem : (s : Text) (o : ℕ) → line_of s o ≡ breaks (take o s)
unfolding line_of
line_of_lem s o = omega (arith, length-split_lines (take o s))

last_break_zero : (s : Text) → breaks s ≡ 0 → last_break s ≡ 0
unfolding breaks last_break
last_break_zero [] h = refl
last_break_zero (c ∷ s) h = ground (arith, last_break_zero s)

last_break_pos : (s : Text) → 0 < breaks s → 0 < last_break s
unfolding breaks last_break
last_break_pos [] h = elim h [ ]
last_break_pos (c ∷ s) h = grind (arith, last_break_pos s)

last_break-le : (s : Text) → last_break s ≤ length s
unfolding last_break
last_break-le [] = omega arith
last_break-le (c ∷ s) = grind (arith, last_break-le s)

line_start-push :
    (c i : ℕ) (ls : List Text)
    → 0 < length ls
    → line_start (push c ls) (suc i) ≡ suc (line_start ls (suc i))
line_start-push c i [] h = elim h [ ]
line_start-push c i (l ∷ ls) h = omega arith

line_length-push :
    (c i : ℕ) (ls : List Text) → line_length (push c ls) (suc i) ≡ line_length ls (suc i)
line_length-push c i [] = refl
line_length-push c i (l ∷ ls) = refl

line_length-push_zero :
    (c : ℕ) (ls : List Text) → line_length (push c ls) 0 ≡ suc (line_length ls 0)
line_length-push_zero c [] = refl
line_length-push_zero c (l ∷ ls) = refl

-- An offset is where its line starts and its column, and both exist.
pub record IsAt (s : Text) (o line column : ℕ) : Type 0 where
  pub starts : line_start (split_lines s) line + column ≡ o
  pub inside : column ≤ line_length (split_lines s) line
  pub known : line ≤ breaks s

last_break-take : (s : Text) (o : ℕ) → last_break (take o s) ≤ o
unfolding last_break
last_break-take s zero = omega arith
last_break-take [] (suc o) = omega arith
last_break-take (c ∷ s) (suc o) = grind (arith, last_break-take s o)

IsAt-same_line :
    (c : ℕ) (s : Text) (o line column : ℕ)
    → (c == newline) ≡ false
    → 0 < line
    → IsAt s o line column
    → IsAt (c ∷ s) (suc o) line column
unfolding split_lines breaks
IsAt-same_line c s o zero column h p a = elim p [ ]
IsAt-same_line c s o (suc line) column h p a = record {
  starts =
      rw h (omega (arith, line_start-push c line (split_lines s), length-split_lines s, a.starts));
  inside = rw h (rw (line_length-push c line (split_lines s)) a.inside);
  known = rw h a.known;
}

IsAt-first_line :
    (c : ℕ) (s : Text) (o : ℕ)
    → (c == newline) ≡ false
    → IsAt s o 0 o
    → IsAt (c ∷ s) (suc o) 0 (suc o)
unfolding split_lines breaks
IsAt-first_line c s o h a = record {
  starts = omega arith;
  inside = rw h (rw (line_length-push_zero c (split_lines s)) (omega (arith, a.inside)));
  known = omega arith;
}

IsAt-after_break :
    (c : ℕ) (s : Text) (o line column : ℕ)
    → (c == newline) ≡ true
    → IsAt s o line column
    → IsAt (c ∷ s) (suc o) (suc line) column
unfolding split_lines breaks
IsAt-after_break c s o line column h a = record {
  starts = rw h (omega (arith, a.starts));
  inside = rw h a.inside;
  known = rw h (omega (arith, a.known));
}

IsAt-cast : (s : Text) (o : ℕ) {l l' k k' : ℕ} → l ≡ l' → k ≡ k' → IsAt s o l k → IsAt s o l' k'
IsAt-cast s o e f a = rw (← e, ← f) a

IsAt-cons :
    (c : ℕ) (s : Text) (o : ℕ)
    → IsAt s o (breaks (take o s)) (o - last_break (take o s))
    → IsAt (c ∷ s) (suc o) (breaks (c ∷ take o s)) (suc o - last_break (c ∷ take o s))
unfolding breaks last_break
IsAt-cons c s o a = elim (Bool-cases (c == newline)) [
  | inl e ↦ IsAt-cast (c ∷ s) (suc o) (ground arith) (ground arith) (IsAt-after_break c s o _ _ e a)
  | inr e ↦ elim (zero_cases (breaks (take o s))) [
    | inl z ↦
        IsAt-cast (c ∷ s) (suc o) (ground (arith, z)) (ground (arith, last_break_zero (take o s) z))
          (IsAt-first_line c s o e
            (IsAt-cast s o z (omega (arith, last_break_zero (take o s) z)) a))
    | inr p ↦
        IsAt-cast (c ∷ s) (suc o) (ground arith) (ground (arith, last_break_pos (take o s) p))
          (IsAt-same_line c s o _ _ e p a)
  ]
]

-- Every offset of a text lies at its line and its column.
pub IsAt-of_offset :
    (s : Text) (o : ℕ) → o ≤ length s → IsAt s o (breaks (take o s)) (o - last_break (take o s))
unfolding breaks last_break
IsAt-of_offset s zero h = record { starts = omega arith; inside = omega arith; known = omega arith }
IsAt-of_offset [] (suc o) h = absurd (omega arith)
IsAt-of_offset (c ∷ s) (suc o) h = IsAt-cons c s o (IsAt-of_offset s o (omega arith))

uncons_break :
    (c : ℕ) (s : Text) (o line column : ℕ)
    → (c == newline) ≡ true
    → IsAt (c ∷ s) (suc o) line column
    → (l : ℕ) × (line ≡ suc l) × IsAt s o l column
unfolding breaks split_lines
uncons_break c s o zero column e a = absurd (ground arith)
uncons_break c s o (suc l) column e a =
    (l, refl, record { starts = ground arith; inside = ground arith; known = ground arith })

uncons_first :
    (c : ℕ) (s : Text) (o column : ℕ)
    → (c == newline) ≡ false
    → IsAt (c ∷ s) (suc o) 0 column
    → (k : ℕ) × (column ≡ suc k) × (k ≡ o) × IsAt s o 0 k
unfolding breaks split_lines
uncons_first c s o column e a = (
  o,
  omega (arith, a.starts),
  refl,
  record {
    starts = omega arith;
    inside = ground (arith, line_length-push_zero c (split_lines s));
    known = omega arith;
  },
)

uncons_later :
    (c : ℕ) (s : Text) (o line column : ℕ)
    → (c == newline) ≡ false
    → IsAt (c ∷ s) (suc o) (suc line) column
    → IsAt s o (suc line) column
unfolding breaks split_lines
uncons_later c s o line column e a = record {
  starts = ground (arith, line_start-push c line (split_lines s), length-split_lines s);
  inside = ground (arith, line_length-push c line (split_lines s));
  known = ground arith;
}

at_zero :
    (c : ℕ) (s : Text) (line column : ℕ) → IsAt (c ∷ s) 0 line column → (0 ≡ line) × (0 ≡ column)
unfolding breaks split_lines
at_zero c s zero column a = (refl, omega (arith, a.starts))
at_zero c s (suc l) column a = elim (Bool-cases (c == newline)) [
  | inl e ↦ absurd (ground arith)
  | inr e ↦ absurd (ground (arith, line_start-push c l (split_lines s), length-split_lines s))
]

abbrev Unique : Text → ℕ → Type 0
Unique s o =
    (line column : ℕ)
    → IsAt s o line column
    → (breaks (take o s) ≡ line) × (last_break (take o s) + column ≡ o) × (o ≤ length s)

Unique-same :
    (c : ℕ) (s : Text) (o line column : ℕ)
    → (c == newline) ≡ false
    → IsAt (c ∷ s) (suc o) line column
    → Unique s o
    → (breaks (c ∷ take o s) ≡ line)
      × (last_break (c ∷ take o s) + column ≡ suc o)
      × (suc o ≤ suc (length s))
unfolding breaks last_break
Unique-same c s o zero column e a ih =
    let (k, same, at, b) = uncons_first c s o column e a in
    ground (arith, ih 0 k b, last_break_zero (take o s))
Unique-same c s o (suc l) column e a ih =
    ground (arith, ih (suc l) column (uncons_later c s o l column e a), last_break_pos (take o s))

-- The line and the column are those of the offset alone.
pub IsAt-unique :
    (s : Text) (o line column : ℕ)
    → IsAt s o line column
    → (breaks (take o s) ≡ line) × (last_break (take o s) + column ≡ o) × (o ≤ length s)
unfolding breaks last_break split_lines
IsAt-unique [] zero line column a = (omega (arith, a.known), ground arith, omega arith)
IsAt-unique [] (suc o) zero column a = absurd (ground arith)
IsAt-unique [] (suc o) (suc l) column a = absurd (omega (arith, a.known))
IsAt-unique (c ∷ s) zero line column a =
    let (l, k) = at_zero c s line column a in (l, omega (arith, k), omega arith)
IsAt-unique (c ∷ s) (suc o) line column a = elim (Bool-cases (c == newline)) [
  | inl e ↦
      let (l, same, b) = uncons_break c s o line column e a in
      ground (arith, IsAt-unique s o l column b)
  | inr e ↦ Unique-same c s o line column e a (IsAt-unique s o)
]
