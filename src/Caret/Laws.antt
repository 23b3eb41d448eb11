-- ===== src/Caret/Laws.antt =====
-- The caret keeps its line and its column when a save only appends to lines.
use konku.Common.{
  ℕ, zero, suc, ◌-◌, ◌≤◌, ◌≡◌, refl, ap, ◌∙◌, Text, List, [], ◌∷◌, ◌++◌, length, length-append,
  take, arith,
}
use konku.Caret.{split_lines, last_break, line_length, line_of, column_of, remap_caret}
use konku.Caret.Position.{length-split_lines, line_of_lem, IsAt, IsAt-of_offset, IsAt-unique}

-- `after` has the lines of `before`, each with something appended to it or nothing.
pub data Extends : List Text → List Text → Type 0 where
  nil : Extends [] []
  cons :
      {l : Text} {ls ms : List Text} (more : Text)
      → Extends ls ms
      → Extends (l ∷ ls) ((l ++ more) ∷ ms)

length-Extends : {ls ms : List Text} → Extends ls ms → length ls ≡ length ms
length-Extends nil = refl
length-Extends (cons more e) = ap suc (length-Extends e)

line_length-Extends :
    {ls ms : List Text} (i : ℕ) → Extends ls ms → line_length ls i ≤ line_length ms i
line_length-Extends i nil = omega arith
line_length-Extends zero (cons {l = l} more e) = omega (arith, length-append l more)
line_length-Extends (suc i) (cons more e) = line_length-Extends i e

-- Where the caret goes, when the rewritten text only appends to the ends of lines.
remap_IsAt :
    (before after : Text) (offset : ℕ)
    → offset ≤ length before
    → Extends (split_lines before) (split_lines after)
    → IsAt after (remap_caret before after offset) (line_of before offset) (column_of before offset)
unfolding remap_caret column_of
remap_IsAt before after offset h e =
    let a = IsAt-of_offset before offset h in
    let line = line_of_lem before offset in
    let longer = line_length-Extends (line_of before offset) e in
    let same = length-Extends e in
    let n = length-split_lines before in
    let m = length-split_lines after in
    let reach : offset - last_break (take offset before)
        ≤ line_length (split_lines before) (line_of before offset) =
      rw line a.inside in
    record { starts = ground arith; inside = omega arith; known = omega (arith, a.known) }

-- When the rewritten text only appends to the ends of lines, a caret that stood inside the text
-- stands inside the rewritten one, on the line and in the column where it stood.
pub remap_caret-keeps :
    (before after : Text) (offset : ℕ)
    → offset ≤ length before
    → Extends (split_lines before) (split_lines after)
    → (remap_caret before after offset ≤ length after)
      × (line_of after (remap_caret before after offset) ≡ line_of before offset)
      × (column_of after (remap_caret before after offset) ≡ column_of before offset)
remap_caret-keeps before after offset h e =
    let caret = remap_caret before after offset in
    let (line, column, inside) = IsAt-unique after caret _ _ (remap_IsAt before after offset h e) in
    (inside, line_of_lem after caret ∙ line, unfold column_of in omega arith)

-- Where nothing was rewritten the caret does not move.
remap_caret_same : (s : Text) (offset : ℕ) → offset ≤ length s → remap_caret s s offset ≡ offset
unfolding remap_caret column_of
remap_caret_same s offset h =
    let a = IsAt-of_offset s offset h in
    rw (line_of_lem s offset) (ground (arith, length-split_lines s, a.starts, a.inside, a.known))
