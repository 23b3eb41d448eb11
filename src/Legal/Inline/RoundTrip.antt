-- ===== src/Legal/Inline/RoundTrip.antt =====
-- Runs of plain text, bold and links, written with the two markers and read back.
use konku.Common.{
  ℕ, zero, suc, ◌+◌, ◌-◌, ◌<◌, Bool, ◌≡◌, refl, sym, ap, ◌∙◌, true, false, not, Text, truthy, some,
  none, List, [], ◌∷◌, ◌++◌, append_assoc, append-nil, length, length-append, every, arith, ◌==◌,
  ◌||◌, codes, starts_with, if◌then◌else◌,
}
use konku.Common.Trim.{is_space}
use konku.Legal.Inline.{
  Groups, bolded, linked, take_while, drop_while, in_bold, in_label, in_href, close_bold,
  close_link, open_href, match_at, whole, Node, words, strong, link, anchor, render_link, render,
  parse_inline,
}
use konku.Legal.Inline.Reading.{flush, read, read_none, read_some, parse_inline-read}

-- What a writer of the copy means.
pub data Run : Type 0 where
  says : Text → Run
  marks : Groups → Run

abbrev pub write_run : Run → Text
write_run (says s) = s
write_run (marks groups) = whole groups

unfoldable pub write : List Run → Text
write [] = []
write (r ∷ rs) = write_run r ++ write rs

abbrev pub is_plain : ℕ → Bool
is_plain c = not (c == b'*' || c == b'[')

-- Something to mark, in the characters that its marker allows.
abbrev pub Fits : Groups → Type 0
Fits (bolded body) = (truthy body ≡ true) × (every in_bold body ≡ true)
Fits (linked label href) =
    (truthy label ≡ true)
    × (every in_label label ≡ true)
    × (truthy href ≡ true)
    × (every in_href href ≡ true)

-- No empty run, no marker in plain text, and no two plain runs in a row; the flag says whether the
-- run before was plain.
abbrev pub IsTidy : Bool → List Run → Type 0
IsTidy after [] = Unit
IsTidy after (says s ∷ rs) =
    (after ≡ false) × (truthy s ≡ true) × (every is_plain s ≡ true) × IsTidy true rs
IsTidy after (marks groups ∷ rs) = Fits groups × IsTidy false rs

-- The element of a mark: bold, a path of the app as the router's link, and any other address as an
-- anchor, in a tab of its own when it is of the web.
abbrev pub meant : ℕ → Groups → Node
meant at (bolded body) = strong at body
meant at (linked label href) =
    if starts_with (codes "/") href
    then link at label href
    else anchor at label href (starts_with (codes "http") href)

render-meant : (at : ℕ) (groups : Groups) → render at groups ≡ meant at groups
unfolding render_link
render-meant at (bolded body) = refl
render-meant at (linked label href) = refl

-- The nodes of the runs, each keyed by where its marker starts.
unfoldable pub laid : ℕ → List Run → List Node
laid at [] = []
laid at (says s ∷ rs) = words s ∷ laid (at + length s) rs
laid at (marks groups ∷ rs) = meant at groups ∷ laid (at + length (whole groups)) rs

take_while-append :
    (p : ℕ → Bool) (s : Text) (stop : ℕ) (rest : Text)
    → every p s ≡ true
    → p stop ≡ false
    → take_while p (s ++ stop ∷ rest) ≡ s
unfolding take_while
take_while-append p [] stop rest h n = rw n refl
take_while-append p (c ∷ s) stop rest h n = ground (arith, take_while-append p s stop rest)

drop_while-append :
    (p : ℕ → Bool) (s : Text) (stop : ℕ) (rest : Text)
    → every p s ≡ true
    → p stop ≡ false
    → drop_while p (s ++ stop ∷ rest) ≡ stop ∷ rest
unfolding drop_while
drop_while-append p [] stop rest h n = rw n refl
drop_while-append p (c ∷ s) stop rest h n = ground (arith, drop_while-append p s stop rest)

match_at_star :
    (s : Text) → match_at (b'*' ∷ s) ≡ close_bold (take_while in_bold s) (drop_while in_bold s)
unfolding match_at
match_at_star s = refl

match_at_bracket :
    (s : Text) → match_at (b'[' ∷ s) ≡ open_href (take_while in_label s) (drop_while in_label s)
unfolding match_at
match_at_bracket s = refl

closed_bold :
    (body rest : Text)
    → truthy body ≡ true
    → close_bold body (b'*' ∷ rest) ≡ some (bolded body, rest)
unfolding close_bold
closed_bold [] rest t = cc
closed_bold (b ∷ body) rest t = refl

match_at_bold :
    (body rest : Text)
    → Fits (bolded body)
    → match_at (whole (bolded body) ++ rest) ≡ some (bolded body, rest)
match_at_bold body rest (t, e) =
    ap (λ s. match_at (b'*' ∷ s)) (append_assoc body (b'*' ∷ []) rest)
    ∙ match_at_star (body ++ b'*' ∷ rest)
    ∙ rw
        (
          take_while-append in_bold body b'*' rest e refl,
          drop_while-append in_bold body b'*' rest e refl,
        )
        (closed_bold body rest t)

closed_link :
    (label href rest : Text)
    → truthy label ≡ true
    → truthy href ≡ true
    → every in_href href ≡ true
    → open_href label (b']' ∷ b'(' ∷ (href ++ b')' ∷ rest)) ≡ some (linked label href, rest)
unfolding open_href close_link is_space
closed_link [] href rest l t e = cc
closed_link (d ∷ label) [] rest l t e = cc
closed_link (d ∷ label) (h ∷ href) rest l t e =
    rw
      (
        take_while-append in_href (h ∷ href) b')' rest e refl,
        drop_while-append in_href (h ∷ href) b')' rest e refl,
      )
      refl

match_at_link :
    (label href rest : Text)
    → Fits (linked label href)
    → match_at (whole (linked label href) ++ rest) ≡ some (linked label href, rest)
match_at_link label href rest (l, k, t, e) =
    ap (λ s. match_at (b'[' ∷ s))
      (append_assoc label (b']' ∷ b'(' ∷ (href ++ b')' ∷ [])) rest
        ∙ ap (λ s. label ++ b']' ∷ b'(' ∷ s) (append_assoc href (b')' ∷ []) rest))
    ∙ match_at_bracket (label ++ b']' ∷ b'(' ∷ (href ++ b')' ∷ rest))
    ∙ rw
        (
          take_while-append in_label label b']' (b'(' ∷ (href ++ b')' ∷ rest)) k refl,
          drop_while-append in_label label b']' (b'(' ∷ (href ++ b')' ∷ rest)) k refl,
        )
        (closed_link label href rest l t e)

match_at-whole :
    (groups : Groups) (rest : Text)
    → Fits groups
    → match_at (whole groups ++ rest) ≡ some (groups, rest)
match_at-whole (bolded body) rest f = match_at_bold body rest f
match_at-whole (linked label href) rest f = match_at_link label href rest f

match_at_plain : (c : ℕ) (s : Text) → is_plain c ≡ true → match_at (c ∷ s) ≡ none
unfolding match_at
match_at_plain c s h = ground arith

read_same :
    (f g at at' : ℕ) (plain plain' rest : Text)
    → f ≡ g
    → at ≡ at'
    → plain ≡ plain'
    → read f plain at rest ≡ read g plain' at' rest
read_same f g at at' plain plain' rest e a p = rw (e, a, p) refl

read_plain :
    (s : Text) (fuel at : ℕ) (plain rest : Text)
    → every is_plain s ≡ true
    → read (length s + fuel) plain at (s ++ rest) ≡ read fuel (plain ++ s) (at + length s) rest
read_plain [] fuel at plain rest h =
    read_same (0 + fuel) fuel at (at + 0) plain (plain ++ []) rest (omega arith) (omega arith)
      (sym (append-nil plain))
read_plain (c ∷ s) fuel at plain rest h =
    read_same (suc (length s) + fuel) (suc (length s + fuel)) at at plain plain (c ∷ (s ++ rest))
      (omega arith) refl refl
    ∙ read_none (length s + fuel) plain at c (s ++ rest)
        (match_at_plain c (s ++ rest) (ground arith))
    ∙ read_plain s fuel (at + 1) (plain ++ c ∷ []) rest (ground arith)
    ∙ read_same fuel fuel (at + 1 + length s) (at + suc (length s)) ((plain ++ c ∷ []) ++ s)
        (plain ++ c ∷ s) rest refl (omega arith) (append_assoc plain (c ∷ []) s)

read_marks :
    (groups : Groups) (fuel at : ℕ) (plain rest : Text)
    → Fits groups
    → read (suc fuel) plain at (whole groups ++ rest)
      ≡ flush plain ++ (render at groups ∷ read fuel [] (at + length (whole groups)) rest)
read_marks (bolded body) fuel at plain rest f =
    read_some fuel plain at b'*' _ (bolded body) rest (match_at-whole (bolded body) rest f)
read_marks (linked label href) fuel at plain rest f =
    read_some fuel plain at b'[' _ (linked label href) rest
      (match_at-whole (linked label href) rest f)

flush_words : (s : Text) (ns : List Node) → truthy s ≡ true → flush s ++ ns ≡ words s ∷ ns
flush_words [] ns t = cc
flush_words (c ∷ s) ns t = refl

whole_pos : (groups : Groups) → 0 < length (whole groups)
whole_pos (bolded body) = omega arith
whole_pos (linked label href) = omega arith

-- What is read of tidy runs, when no plain text is waiting in front of a plain run.
read-write :
    (rs : List Run) (after : Bool) (fuel at : ℕ) (plain : Text)
    → IsTidy after rs
    → (after ≡ false → plain ≡ [])
    → length (write rs) < fuel
    → read fuel plain at (write rs) ≡ flush plain ++ laid at rs
unfolding write laid
read-write [] after zero at plain h e lt = absurd (omega arith)
read-write [] after (suc fuel) at plain h e lt = unfold read in sym (append-nil (flush plain))
read-write (says s ∷ rs) after fuel at plain (a, t, k, h) e lt =
    let w : length (s ++ write rs) ≡ length s + length (write rs) = length-append s (write rs) in
    let e' : plain ≡ [] = e a in
    rw e' (
      read_same fuel (length s + (fuel - length s)) at at [] [] (s ++ write rs) (omega arith) refl
        refl
      ∙ read_plain s (fuel - length s) at [] (write rs) k
      ∙ read-write rs true (fuel - length s) (at + length s) s h (λ x. cc) (omega arith)
      ∙ flush_words s (laid (at + length s) rs) t)
read-write (marks groups ∷ rs) after zero at plain h e lt = absurd (omega arith)
read-write (marks groups ∷ rs) after (suc fuel) at plain (f, h) e lt =
    read_marks groups fuel at plain (write rs) f
    ∙ ap (λ n. flush plain ++ (n ∷ read fuel [] (at + length (whole groups)) (write rs)))
        (render-meant at groups)
    ∙ ap (λ ns. flush plain ++ (meant at groups ∷ ns))
        (read-write rs false fuel (at + length (whole groups)) [] h (λ x. refl)
          (omega (arith, whole_pos groups, length-append (whole groups) (write rs))))

-- Tidy runs are rendered as they were meant: plain text as itself, and each mark as its element with
-- exactly its words and its address, keyed by where the mark starts in the line: bold as strong text,
-- a path of the app as a link of the router, and any other address as an anchor, which opens a tab of
-- its own when it starts with `http`.
pub parse_inline-write : (rs : List Run) → IsTidy false rs → parse_inline (write rs) ≡ laid 0 rs
parse_inline-write rs h =
    parse_inline-read (write rs)
    ∙ read-write rs false (length (write rs) + 1) 0 [] h (λ x. refl) (omega arith)
