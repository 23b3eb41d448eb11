-- ===== src/CopyCheck.antt =====
-- The check that copy lives in the catalogs: web/scripts/check-i18n.mjs. Here is the ratchet of its
-- baseline, from the literals found in each file; Prose and Position are the tests of one literal.
-- The parsing of a file is TypeScript's.
pub mod Ratchet
pub mod Prose
pub mod Position
use konku.Common.{
  ℕ, ◌+◌, Bool, true, false, not, Text, str_eq, Option, none, some, List, [], ◌∷◌, ltb,
  if◌then◌else◌,
}
use konku.Common.Sorted.{sort}

-- Literals by file: `results`, of which only the number for a file counts, and `baseline.files`.
abbrev pub Counts : Type 0
Counts = List (Text × ℕ)

unfoldable pub count_of : Text → Counts → Option ℕ
count_of file [] = none
count_of file ((f, n) ∷ counts) = if str_eq f file then some n else count_of file counts

abbrev pub or_zero : Option ℕ → ℕ
or_zero none = 0
or_zero (some n) = n

abbrev pub is_some : Option ℕ → Bool
is_some none = false
is_some (some n) = true

-- The first loop over the results: `failures` and `improved`.
unfoldable pub failures : Counts → Counts → List Text
failures [] baseline = []
failures ((file, hits) ∷ results) baseline =
    let rest = failures results baseline in
    if ltb (or_zero (count_of file baseline)) hits then file ∷ rest else rest

unfoldable pub improved : Counts → Counts → List Text
improved [] baseline = []
improved ((file, hits) ∷ results) baseline =
    let rest = improved results baseline in
    if ltb hits (or_zero (count_of file baseline)) then file ∷ rest else rest

-- `Object.keys(baseline).filter((file) => !results.has(file))`.
unfoldable pub left_over : Counts → Counts → List Text
left_over results [] = []
left_over results ((file, n) ∷ baseline) =
    let rest = left_over results baseline in
    if not (is_some (count_of file results)) then file ∷ rest else rest

abbrev pub finished : Counts → Counts → List Text
finished results baseline = sort (left_over results baseline)

pub data Verdict : Type 0 where
  new_literals : List Text → Verdict
  still_listed : List Text → Verdict
  passes : (improved : List Text) → Verdict

abbrev pub verdict_by : List Text → List Text → List Text → Verdict
verdict_by (f ∷ fs) finished improved = new_literals (f ∷ fs)
verdict_by [] (f ∷ fs) improved = still_listed (f ∷ fs)
verdict_by [] [] improved = passes improved

unfoldable pub check : Counts → Counts → Verdict
check results baseline =
    verdict_by (failures results baseline) (finished results baseline) (improved results baseline)
