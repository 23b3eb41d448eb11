-- ===== src/Examples/Documents.antt =====
-- A line of the policy, its copy in two languages, a run of the copy check, and a phrase.
use konku.Common.{◌≡◌, ◌≤◌, ◌↔◌, refl, true, false, codes, List, [], ◌∷◌, ◌+◌, str_eq, arith}
use konku.Common.Trim.{is_space}
use konku.Locale.{id, en}
use konku.Legal.Inline.{bolded, linked, parse_inline}
use konku.Legal.Inline.Laws.{sources, sources-parse_inline}
use konku.Legal.Inline.RoundTrip.{Run, says, marks, write, laid, parse_inline-write}
use konku.Legal.Load
use konku.Legal.Load.{fresh, failures, use_legal_copy, Event, rendered, answered, fetches_lem}
use konku.CopyCheck.{Counts, count_of, check, passes, improved}
use konku.CopyCheck.Prose.{is_prose}
use konku.CopyCheck.Prose.Phrases.{is_prose_lem}
use konku.CopyCheck.Ratchet.{Within, Lists, check_lem}

sources-parse_inline_example :
    sources (parse_inline (codes "an *important* [rule](/terms), a lone * and a [bracket"))
    ≡ codes "an *important* [rule](/terms), a lone * and a [bracket"
sources-parse_inline_example =
    sources-parse_inline (codes "an *important* [rule](/terms), a lone * and a [bracket")

abbrev line : List Run
line =
    says (codes "read the ")
    ∷ marks (linked (codes "terms") (codes "/terms"))
    ∷ says (codes " and ")
    ∷ marks (bolded (codes "ask"))
    ∷ marks (linked (codes "us") (codes "mailto:a@b.c"))
    ∷ []

parse_inline-write_example : parse_inline (write line) ≡ laid 0 line
unfolding is_space
parse_inline-write_example = parse_inline-write line (
  refl,
  refl,
  refl,
  ((refl, refl, refl, refl), (refl, refl, refl, ((refl, refl), ((refl, refl, refl, refl), tt)))),
)

abbrev visit : List Event
visit =
    rendered id
    ∷ rendered id
    ∷ answered id false
    ∷ rendered en
    ∷ rendered id
    ∷ answered id true
    ∷ []

fetches_lem_example :
    ((Load.handle_all visit fresh id).fetches ≤ failures id visit + 1)
    × ((Load.handle_all visit fresh id).loaded ≡ true
        → Load.handle_all (rendered id ∷ answered id false ∷ []) (Load.handle_all visit fresh) id
          ≡ Load.handle_all visit fresh id)
    × ((Load.handle_all visit fresh id).loaded ≡ false
        → (Load.handle_all
            (rendered id ∷ answered id false ∷ rendered id ∷ [])
            (Load.handle_all visit fresh)
            id).fetches
          ≡ (Load.handle_all (rendered id ∷ []) (Load.handle_all visit fresh) id).fetches + 1)
fetches_lem_example = fetches_lem id visit (rendered id ∷ answered id false ∷ [])

abbrev found : Counts
found = (codes "a.tsx", 2) ∷ (codes "b.tsx", 1) ∷ []

abbrev allowed : Counts
allowed = (codes "b.tsx", 1) ∷ (codes "a.tsx", 3) ∷ []

check_lem_example :
    (check found allowed ≡ passes (improved found allowed))
    ↔ (Within found allowed × Lists found allowed)
unfolding count_of str_eq
check_lem_example =
    check_lem found allowed (omega arith, refl, (omega arith, refl, tt))
      (omega arith, refl, (omega arith, refl, tt))

is_prose_lem_example : is_prose (codes "\n  baru  saja ") ≡ true
unfolding is_space
is_prose_lem_example =
    is_prose_lem (codes "\n  bar") b'u' b' ' (b' ' ∷ []) b's' (codes "aja ") refl refl refl refl
