-- ===== src/Legal/Inline.antt =====
-- One line of the legal copy: web/src/features/legal/inline.tsx. A JSX element is a constructor with
-- its key.
pub mod Reading
pub mod Laws
pub mod RoundTrip
use konku.Common.{
  ℕ, zero, suc, ◌+◌, ◌-◌, Bool, true, false, ◌&&◌, ◌||◌, not, Text, codes, starts_with, Option,
  none, some, List, [], ◌∷◌, ◌++◌, length, take, drop, ltb, ◌==◌, if◌then◌else◌,
}
use konku.Common.Trim.{is_space}

-- What a match has captured: `[^*\n]+`, or `[^\]\n]+` and `[^)\s]+`.
pub data Groups : Type 0 where
  bolded : Text → Groups
  linked : (label href : Text) → Groups

-- The longest start of a text whose characters pass, and what is behind it.
unfoldable pub take_while : (ℕ → Bool) → Text → Text
take_while p [] = []
take_while p (c ∷ s) = let more = take_while p s in if p c then c ∷ more else []

unfoldable pub drop_while : (ℕ → Bool) → Text → Text
drop_while p [] = []
drop_while p (c ∷ s) = let more = drop_while p s in if p c then more else c ∷ s

abbrev pub in_bold : ℕ → Bool
in_bold c = not (c == b'*' || c == b'\n')

abbrev pub in_label : ℕ → Bool
in_label c = not (c == b']' || c == b'\n')

abbrev pub in_href : ℕ → Bool
in_href c = not (c == b')' || is_space c)

-- Behind the `*`.
unfoldable pub close_bold : Text → Text → Option (Groups × Text)
close_bold [] rest = none
close_bold body [] = none
close_bold body (c ∷ rest) = if c == b'*' then some (bolded body, rest) else none

-- Behind the `(`.
unfoldable pub close_link : Text → Text → Text → Option (Groups × Text)
close_link label [] rest = none
close_link label href [] = none
close_link label href (c ∷ rest) = if c == b')' then some (linked label href, rest) else none

-- Behind the label.
unfoldable pub open_href : Text → Text → Option (Groups × Text)
open_href [] rest = none
open_href label (c ∷ d ∷ rest) =
    if c == b']' && d == b'('
    then close_link label (take_while in_href rest) (drop_while in_href rest)
    else none
open_href label rest = none

-- `PATTERN` at the start of a text: what it captures and the text behind it. No class of characters
-- holds what has to follow it, so the longest start is the only one that can match.
unfoldable pub match_at : Text → Option (Groups × Text)
match_at [] = none
match_at (c ∷ s) =
    if c == b'*'
    then close_bold (take_while in_bold s) (drop_while in_bold s)
    else if c == b'['
    then open_href (take_while in_label s) (drop_while in_label s)
    else none

-- `match[0]`.
abbrev pub whole : Groups → Text
whole (bolded body) = b'*' ∷ (body ++ b'*' ∷ [])
whole (linked label href) = b'[' ∷ (label ++ b']' ∷ b'(' ∷ (href ++ b')' ∷ []))

-- A match, with its `index`.
pub record Match : Type 0 where
  pub index : ℕ
  pub groups : Groups

-- `text.matchAll(PATTERN)` from a position on: each search starts behind the match before it.
unfoldable pub match_all : ℕ → ℕ → Text → List Match
match_all zero at s = []
match_all (suc fuel) at [] = []
match_all (suc fuel) at (c ∷ s) = elim (match_at (c ∷ s)) [
  | none ↦ match_all fuel (at + 1) s
  | some (groups, rest) ↦
      record { index = at; groups = groups } ∷ match_all fuel (at + length (whole groups)) rest
]

-- A node of the result; the flag of an anchor is `target="_blank"`.
pub data Node : Type 0 where
  words : Text → Node
  strong : (key : ℕ) → Text → Node
  link : (key : ℕ) → (label to : Text) → Node
  anchor : (key : ℕ) → (label href : Text) → (external : Bool) → Node

unfoldable pub render_link : ℕ → Text → Text → Node
render_link key label href =
    if starts_with (codes "/") href
    then link key label href
    else anchor key label href (starts_with (codes "http") href)

abbrev pub render : ℕ → Groups → Node
render key (bolded body) = strong key body
render key (linked label href) = render_link key label href

-- `text.slice(start, end)`, for a start that is not behind the end.
abbrev pub slice : Text → ℕ → ℕ → Text
slice text start end = take (end - start) (drop start text)

-- The loop of `parseInline` over the matches, and the `if` behind it.
unfoldable pub nodes : Text → ℕ → List Match → List Node
nodes text last [] = if ltb last (length text) then words (drop last text) ∷ [] else []
nodes text last (m ∷ ms) =
    let rest = render m.index m.groups ∷ nodes text (m.index + length (whole m.groups)) ms in
    if ltb last m.index then words (slice text last m.index) ∷ rest else rest

-- A search has at most one step for each character, and one at the end.
unfoldable pub parse_inline : Text → List Node
parse_inline text = nodes text 0 (match_all (length text + 1) 0 text)
