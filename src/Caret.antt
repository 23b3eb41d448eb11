-- ===== src/Caret.antt =====
-- The caret across a save: web/src/lib/caret.ts. Offsets and columns count code units.
pub mod Position
pub mod Laws
use konku.Common.{
  ℕ, zero, suc, ◌+◌, ◌-◌, min, Text, List, [], ◌∷◌, length, take, leb, ◌==◌, if◌then◌else◌,
}

abbrev pub newline : ℕ
newline = 10

-- Puts a character before the first line.
abbrev pub push : ℕ → List Text → List Text
push c [] = (c ∷ []) ∷ []
push c (l ∷ ls) = (c ∷ l) ∷ ls

-- `s.split('\n')`.
unfoldable pub split_lines : Text → List Text
split_lines [] = [] ∷ []
split_lines (c ∷ s) = if c == newline then [] ∷ split_lines s else push c (split_lines s)

abbrev after_break : ℕ → ℕ → ℕ
after_break c zero = if c == newline then 1 else 0
after_break c (suc r) = suc (suc r)

-- `s.lastIndexOf('\n') + 1`: where the last line starts.
unfoldable pub last_break : Text → ℕ
last_break [] = 0
last_break (c ∷ s) = after_break c (last_break s)

-- `lines[i].length`, for a line that exists.
abbrev pub line_length : List Text → ℕ → ℕ
line_length [] i = 0
line_length (l ∷ ls) zero = length l
line_length (l ∷ ls) (suc i) = line_length ls i

-- The loop that adds up the lines above, each with its newline.
abbrev pub line_start : List Text → ℕ → ℕ
line_start ls zero = 0
line_start [] (suc i) = 0
line_start (l ∷ ls) (suc i) = length l + 1 + line_start ls i

-- The line and the column of an offset.
unfoldable pub line_of : Text → ℕ → ℕ
line_of s offset = length (split_lines (take offset s)) - 1

unfoldable pub column_of : Text → ℕ → ℕ
column_of s offset = offset - last_break (take offset s)

unfoldable pub remap_caret : Text → Text → ℕ → ℕ
remap_caret before after offset =
    let line = line_of before offset in
    let column = column_of before offset in
    let lines = split_lines after in
    if leb (length lines) line
    then length after
    else line_start lines line + min column (line_length lines line)
