-- ===== src/CopyCheck/Ratchet.antt =====
-- What a run of the check that passes says of the files.
use konku.Common.{
  ℕ, ◌≤◌, ◌≡◌, ◌↔◌, refl, sym, ap, ◌∙◌, inl, inr, true, Text, str_eq, str_eq_iff, str_eq_refl, none,
  List, [], ◌∷◌, arith, Bool-cases,
}
use konku.Common.Sorted.{sort, insert}
use konku.CopyCheck.{
  Counts, count_of, or_zero, is_some, failures, improved, left_over, finished, passes, verdict_by,
  check,
}

-- A file is listed once, and only if it has literals.
abbrev pub IsCounts : Counts → Type 0
IsCounts [] = Unit
IsCounts ((file, n) ∷ counts) = (1 ≤ n) × (count_of file counts ≡ none) × IsCounts counts

-- No file has more literals than the baseline lets it have.
abbrev pub Within : Counts → Counts → Type 0
Within results baseline =
    (file : Text) → or_zero (count_of file results) ≤ or_zero (count_of file baseline)

-- No file that the baseline lists is without literals.
abbrev pub Lists : Counts → Counts → Type 0
Lists results baseline =
    (file : Text) → is_some (count_of file baseline) ≡ true → is_some (count_of file results) ≡ true

failures_nil :
    (results baseline : Counts)
    → IsCounts results
    → failures results baseline ≡ []
    → Within results baseline
unfolding failures count_of
failures_nil [] baseline c h file = omega arith
failures_nil ((f, n) ∷ results) baseline (p, q, c) h file = elim (Bool-cases (str_eq f file)) [
  | inl e ↦
      let same : or_zero (count_of f baseline) ≡ or_zero (count_of file baseline) =
        ap (λ x. or_zero (count_of x baseline)) ((str_eq_iff f file).0 e) in
      ground arith
  | inr e ↦
      let none_left : failures results baseline ≡ [] = ground arith in
      let rest = failures_nil results baseline c none_left file in ground arith
]

Within-tail :
    (f : Text) (n : ℕ) (results baseline : Counts)
    → count_of f results ≡ none
    → Within ((f, n) ∷ results) baseline
    → (n ≤ or_zero (count_of f baseline)) × Within results baseline
Within-tail f n results baseline q w = (
  unfold count_of in ground (arith, w f, str_eq_refl f),
  λ file. elim (Bool-cases (str_eq f file)) [
    | inl e ↦
        let same : count_of file results ≡ none =
          ap (λ x. count_of x results) (sym ((str_eq_iff f file).0 e)) ∙ q in
        rw same (omega arith)
    | inr e ↦ unfold count_of in ground (arith, w file)
  ],
)

nil_failures :
    (results baseline : Counts)
    → IsCounts results
    → Within results baseline
    → failures results baseline ≡ []
unfolding failures
nil_failures [] baseline c w = refl
nil_failures ((f, n) ∷ results) baseline (p, q, c) w =
    let (head, tail) = Within-tail f n results baseline q w in
    let rest = nil_failures results baseline c tail in ground arith

left_over_nil :
    (results baseline : Counts) → left_over results baseline ≡ [] → Lists results baseline
unfolding left_over count_of
left_over_nil results [] h file l = cc
left_over_nil results ((f, n) ∷ baseline) h file l = elim (Bool-cases (str_eq f file)) [
  | inl e ↦
      let same : is_some (count_of f results) ≡ is_some (count_of file results) =
        ap (λ x. is_some (count_of x results)) ((str_eq_iff f file).0 e) in
      ground arith
  | inr e ↦
      let none_left : left_over results baseline ≡ [] = ground arith in
      left_over_nil results baseline none_left file (ground arith)
]

Lists-tail :
    (results : Counts) (f : Text) (n : ℕ) (baseline : Counts)
    → Lists results ((f, n) ∷ baseline)
    → Lists results baseline
Lists-tail results f n baseline l file h = l file (unfold count_of in ground arith)

nil_left_over :
    (results baseline : Counts)
    → IsCounts baseline
    → Lists results baseline
    → left_over results baseline ≡ []
unfolding left_over
nil_left_over results [] c l = refl
nil_left_over results ((f, n) ∷ baseline) (p, q, c) l =
    let head : is_some (count_of f results) ≡ true =
      l f (unfold count_of in ground (arith, str_eq_refl f)) in
    let rest = nil_left_over results baseline c (Lists-tail results f n baseline l) in ground arith

sort_nil : (xs : List Text) → sort xs ≡ [] → xs ≡ []
sort_nil [] h = refl
sort_nil (x ∷ xs) h = absurd (insert_some x (sort xs) (unfold sort in h))
  where
    insert_some : (x : Text) (ys : List Text) → insert x ys ≡ [] → ⊥
    insert_some x [] h = unfold insert in cc
    insert_some x (y ∷ ys) h = unfold insert in ground arith

passed_by : (f g i : List Text) → verdict_by f g i ≡ passes i → (f ≡ []) × (g ≡ [])
passed_by [] [] i h = (refl, refl)
passed_by [] (x ∷ g) i h = cc
passed_by (x ∷ f) g i h = cc

-- Where each file is listed once and with its literals, the check passes exactly when no file has more
-- literals than the baseline lets it have and every file of the baseline still has some.
pub check_lem :
    (results baseline : Counts)
    → IsCounts results
    → IsCounts baseline
    → (check results baseline ≡ passes (improved results baseline))
      ↔ (Within results baseline × Lists results baseline)
unfolding check sort
check_lem results baseline r b = (
  λ h.
      let p =
        passed_by (failures results baseline) (finished results baseline)
          (improved results baseline) h in
      (
        failures_nil results baseline r p.0,
        left_over_nil results baseline (sort_nil (left_over results baseline) p.1),
      ),
  λ h.
      ap (λ f. verdict_by f (finished results baseline) (improved results baseline))
        (nil_failures results baseline r h.0)
      ∙ ap (λ g. verdict_by [] g (improved results baseline))
          (ap sort (nil_left_over results baseline b h.1)),
)
