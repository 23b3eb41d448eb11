-- ===== src/Legal/Inline/Laws.antt =====
-- The legal copy loses nothing when it is rendered, and says what was written.
use konku.Common.{
  ℕ, zero, suc, ◌+◌, ◌≡◌, refl, sym, ap, ◌∙◌, inl, inr, Text, List, [], ◌∷◌, ◌++◌, append_assoc,
  append-nil, length, Option-cases, arith,
}
use konku.Legal.Inline.{
  Groups, bolded, linked, match_at, whole, Node, words, strong, link, anchor, render_link, render,
  parse_inline,
}
use konku.Legal.Inline.Reading.{
  flush, read, read_none, read_some, whole-match_at, parse_inline-read,
}

-- The characters of the line that a node stands for.
abbrev pub source : Node → Text
source (words s) = s
source (strong key body) = whole (bolded body)
source (link key label to) = whole (linked label to)
source (anchor key label href external) = whole (linked label href)

abbrev pub sources : List Node → Text
sources [] = []
sources (n ∷ ns) = source n ++ sources ns

source-render : (at : ℕ) (groups : Groups) → source (render at groups) ≡ whole groups
unfolding render_link
source-render at (bolded body) = refl
source-render at (linked label href) = ground arith

sources-flush : (s : Text) (ns : List Node) → sources (flush s ++ ns) ≡ s ++ sources ns
sources-flush [] ns = refl
sources-flush (c ∷ s) ns = refl

sources-read : (fuel at : ℕ) (plain s : Text) → sources (read fuel plain at s) ≡ plain ++ s
sources-read zero at plain s =
    unfold read in
    (ap sources (sym (append-nil (flush (plain ++ s))))
      ∙ sources-flush (plain ++ s) []
      ∙ append-nil (plain ++ s))
sources-read (suc fuel) at plain [] =
    unfold read in (ap sources (sym (append-nil (flush plain))) ∙ sources-flush plain [])
sources-read (suc fuel) at plain (c ∷ s) = elim (Option-cases (match_at (c ∷ s))) [
  | inl e ↦
      rw (read_none fuel plain at c s e)
        (sources-read fuel (at + 1) (plain ++ c ∷ []) s ∙ append_assoc plain (c ∷ []) s)
  | inr ((groups, rest), e) ↦ rw (read_some fuel plain at c s groups rest e) (
      sources-flush plain _
      ∙ ap (λ t. plain ++ t)
          (ap (λ t. t ++ sources (read fuel [] (at + length (whole groups)) rest))
              (source-render at groups)
            ∙ ap (λ t. whole groups ++ t) (sources-read fuel (at + length (whole groups)) [] rest)
            ∙ whole-match_at (c ∷ s) groups rest e))
]

-- A line is the text of its nodes, end to end: rendering drops no character and invents none.
pub sources-parse_inline : (text : Text) → sources (parse_inline text) ≡ text
sources-parse_inline text =
    ap sources (parse_inline-read text) ∙ sources-read (length text + 1) 0 [] text
