-- ===== src/Legal/Inline/Reading.antt =====
-- A line of the legal copy read in one pass, and the text that its nodes stand for.
use konku.Common.{
  ℕ, zero, suc, ◌+◌, ◌-◌, Bool, ◌≡◌, refl, sym, ap, ◌∙◌, inl, inr, Bool-cases, Text, some, none,
  List, [], ◌∷◌, ◌++◌, append_assoc, append-nil, length, length-append, drop, take, Option-cases,
  arith, Option,
}
use konku.Legal.Inline.{
  Groups, take_while, drop_while, in_bold, in_label, in_href, close_bold, close_link, open_href,
  match_at, whole, match_all, Match, Node, words, render, slice, nodes, parse_inline,
}

take_while-drop_while : (p : ℕ → Bool) (s : Text) → take_while p s ++ drop_while p s ≡ s
unfolding take_while drop_while
take_while-drop_while p [] = refl
take_while-drop_while p (c ∷ s) = elim (Bool-cases (p c)) [
  | inl e ↦ rw e (ap (λ t. c ∷ t) (take_while-drop_while p s))
  | inr e ↦ rw e refl
]

-- The text that a match stood in front of.
abbrev joined : Option (Groups × Text) → Text
joined none = []
joined (some (groups, rest)) = whole groups ++ rest

close_bold_whole :
    (body s : Text) (m : Groups × Text)
    → close_bold body s ≡ some m
    → joined (close_bold body s) ≡ b'*' ∷ (body ++ s)
unfolding close_bold
close_bold_whole [] s m h = cc
close_bold_whole (b ∷ body) [] m h = cc
close_bold_whole (b ∷ body) (c ∷ s) m h = ground (arith, append_assoc body (b'*' ∷ []) s)

close_link_whole :
    (label href s : Text) (m : Groups × Text)
    → close_link label href s ≡ some m
    → joined (close_link label href s) ≡ b'[' ∷ (label ++ b']' ∷ b'(' ∷ (href ++ s))
unfolding close_link
close_link_whole label [] s m h = cc
close_link_whole label (d ∷ href) [] m h = cc
close_link_whole label (d ∷ href) (c ∷ s) m h = ground (
  arith,
  append_assoc label (b']' ∷ b'(' ∷ (d ∷ (href ++ b')' ∷ []))) s,
  append_assoc href (b')' ∷ []) s,
)

open_href_whole :
    (label s : Text) (m : Groups × Text)
    → open_href label s ≡ some m
    → joined (open_href label s) ≡ b'[' ∷ (label ++ s)
unfolding open_href
open_href_whole [] s m h = cc
open_href_whole (l ∷ label) [] m h = cc
open_href_whole (l ∷ label) (c ∷ []) m h = cc
open_href_whole (l ∷ label) (c ∷ d ∷ s) m h = ground (
  arith,
  close_link_whole (l ∷ label) (take_while in_href s) (drop_while in_href s) m,
  take_while-drop_while in_href s,
)

match_at-whole : (s : Text) (m : Groups × Text) → match_at s ≡ some m → joined (match_at s) ≡ s
unfolding match_at
match_at-whole [] m h = cc
match_at-whole (c ∷ s) m h = ground (
  arith,
  close_bold_whole (take_while in_bold s) (drop_while in_bold s) m,
  open_href_whole (take_while in_label s) (drop_while in_label s) m,
  take_while-drop_while in_bold s,
  take_while-drop_while in_label s,
)

-- What a match captures and leaves is the text it was found in.
pub whole-match_at :
    (s : Text) (groups : Groups) (rest : Text)
    → match_at s ≡ some (groups, rest)
    → whole groups ++ rest ≡ s
whole-match_at s groups rest h = ap joined (sym h) ∙ match_at-whole s (groups, rest) h

abbrev pub flush : Text → List Node
flush [] = []
flush (c ∷ s) = words (c ∷ s) ∷ []

-- The line read in one pass, with the plain text since the last match.
unfoldable pub read : ℕ → Text → ℕ → Text → List Node
read zero plain at s = flush (plain ++ s)
read (suc fuel) plain at [] = flush plain
read (suc fuel) plain at (c ∷ s) = elim (match_at (c ∷ s)) [
  | none ↦ read fuel (plain ++ c ∷ []) (at + 1) s
  | some (groups, rest) ↦
      flush plain ++ render at groups ∷ read fuel [] (at + length (whole groups)) rest
]

drop-append : (pre s : Text) → drop (length pre) (pre ++ s) ≡ s
drop-append [] s = refl
drop-append (c ∷ pre) s = drop-append pre s

take-append : (s t : Text) → take (length s) (s ++ t) ≡ s
take-append [] t = take_zero t
  where
    take_zero : (t : Text) → take 0 t ≡ []
    take_zero t = refl
take-append (c ∷ s) t = ap (λ x. c ∷ x) (take-append s t)

nodes_end : (pre s : Text) → nodes (pre ++ s) (length pre) [] ≡ flush s
unfolding nodes
nodes_end pre [] = ground (arith, length-append pre [])
nodes_end pre (c ∷ s) = ground (arith, length-append pre (c ∷ s), drop-append pre (c ∷ s))

slice-append :
    (pre plain s : Text)
    → slice (pre ++ (plain ++ s)) (length pre) (length pre + length plain) ≡ plain
slice-append pre plain s =
    ap (λ t. take (length pre + length plain - length pre) t) (drop-append pre (plain ++ s))
    ∙ ap (λ n. take n (plain ++ s))
        (let e : length pre + length plain - length pre ≡ length plain = omega arith in e)
    ∙ take-append plain s

nodes_match :
    (pre plain s : Text) (groups : Groups) (ms : List Match)
    → let at = length pre + length plain in
      nodes (pre ++ (plain ++ s)) (length pre) (record { index = at; groups = groups } ∷ ms)
      ≡ flush plain
        ++ (render at groups ∷ nodes (pre ++ (plain ++ s)) (at + length (whole groups)) ms)
unfolding nodes
nodes_match pre [] s groups ms = ground arith
nodes_match pre (c ∷ plain) s groups ms = ground (arith, slice-append pre (c ∷ plain) s)

moved_on :
    (pre plain whole rest s : Text)
    → whole ++ rest ≡ s
    → (pre ++ (plain ++ whole)) ++ ([] ++ rest) ≡ pre ++ (plain ++ s)
moved_on pre plain whole rest s e =
    append_assoc pre (plain ++ whole) rest
    ∙ ap (λ t. pre ++ t) (append_assoc plain whole rest ∙ ap (λ t. plain ++ t) e)

match_all-none :
    (fuel at c : ℕ) (s : Text)
    → match_at (c ∷ s) ≡ none
    → match_all (suc fuel) at (c ∷ s) ≡ match_all fuel (at + 1) s
unfolding match_all
match_all-none fuel at c s e = rw (e, match_all) refl

match_all-some :
    (fuel at c : ℕ) (s : Text) (groups : Groups) (rest : Text)
    → match_at (c ∷ s) ≡ some (groups, rest)
    → match_all (suc fuel) at (c ∷ s)
      ≡ record { index = at; groups = groups } ∷ match_all fuel (at + length (whole groups)) rest
unfolding match_all
match_all-some fuel at c s groups rest e = rw (e, match_all) refl

pub read_none :
    (fuel : ℕ) (plain : Text) (at c : ℕ) (s : Text)
    → match_at (c ∷ s) ≡ none
    → read (suc fuel) plain at (c ∷ s) ≡ read fuel (plain ++ c ∷ []) (at + 1) s
unfolding read
read_none fuel plain at c s e = rw (e, read) refl

pub read_some :
    (fuel : ℕ) (plain : Text) (at c : ℕ) (s : Text) (groups : Groups) (rest : Text)
    → match_at (c ∷ s) ≡ some (groups, rest)
    → read (suc fuel) plain at (c ∷ s)
      ≡ flush plain ++ (render at groups ∷ read fuel [] (at + length (whole groups)) rest)
unfolding read
read_some fuel plain at c s groups rest e = rw (e, read) refl

nodes_from :
    (pre plain s text : Text) (last at : ℕ) (groups : Groups) (ms : List Match)
    → text ≡ pre ++ (plain ++ s)
    → last ≡ length pre
    → at ≡ length pre + length plain
    → nodes text last (record { index = at; groups = groups } ∷ ms)
      ≡ flush plain ++ (render at groups ∷ nodes text (at + length (whole groups)) ms)
nodes_from pre plain s text last at groups ms t l a =
    rw (t, l, a) (nodes_match pre plain s groups ms)

-- The nodes of a text of which `plain` has been read since the last match are those of the one pass.
nodes-read :
    (fuel : ℕ) (pre plain s text : Text) (last at : ℕ)
    → text ≡ pre ++ (plain ++ s)
    → last ≡ length pre
    → at ≡ length pre + length plain
    → nodes text last (match_all fuel at s) ≡ read fuel plain at s
nodes-read zero pre plain s text last at t l a =
    unfold match_all read in rw (t, l) (nodes_end pre (plain ++ s))
nodes-read (suc fuel) pre plain [] text last at t l a =
    unfold match_all read in rw (t, l) (nodes_end pre (plain ++ []) ∙ ap flush (append-nil plain))
nodes-read (suc fuel) pre plain (c ∷ s) text last at t l a =
    elim (Option-cases (match_at (c ∷ s))) [
      | inl e ↦
          rw (match_all-none fuel at c s e, read_none fuel plain at c s e)
            (nodes-read fuel pre (plain ++ c ∷ []) s text last (at + 1)
              (t ∙ ap (λ x. pre ++ x) (sym (append_assoc plain (c ∷ []) s))) l
              (omega (arith, length-append plain (c ∷ []))))
      | inr ((groups, rest), e) ↦
          rw (match_all-some fuel at c s groups rest e, read_some fuel plain at c s groups rest e)
            (nodes_from pre plain (c ∷ s) text last at groups
                (match_all fuel (at + length (whole groups)) rest) t l a
              ∙ ap (λ ns. flush plain ++ (render at groups ∷ ns))
                  (nodes-read fuel (pre ++ (plain ++ whole groups)) [] rest text
                    (at + length (whole groups)) (at + length (whole groups))
                    (t
                      ∙ sym (
                          moved_on pre plain (whole groups) rest (c ∷ s)
                            (whole-match_at (c ∷ s) groups rest e)))
                    (omega (
                      arith,
                      length-append pre (plain ++ whole groups),
                      length-append plain (whole groups),
                    ))
                    (omega (
                      arith,
                      length-append pre (plain ++ whole groups),
                      length-append plain (whole groups),
                    ))))
    ]

-- The nodes of a line are those of the one pass over it.
pub parse_inline-read : (text : Text) → parse_inline text ≡ read (length text + 1) [] 0 text
unfolding parse_inline
parse_inline-read text = nodes-read (length text + 1) [] [] text text 0 0 refl refl refl
