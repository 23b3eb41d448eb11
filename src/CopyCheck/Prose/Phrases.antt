-- ===== src/CopyCheck/Prose/Phrases.antt =====
-- A phrase of plain words is taken for copy.
use konku.Common.{
  ℕ, ◌≡◌, refl, ap, ◌∙◌, inl, inr, Bool, true, false, Text, [], ◌∷◌, ◌++◌, every, if◌then◌else◌,
  arith, Bool-cases,
}
use konku.Common.Trim.{is_space, trim, trim_start, trim_end, keep_before}
use konku.CopyCheck.Prose.{is_letter, collapse, is_prose_of, is_prose}
use konku.CopyCheck.Prose.Words.{is_plain, is_single, has_space, is_prose_of_single}

-- Spaces made single leave letters and single spaces.
every-collapse :
    (after : Bool) (s : Text) → every is_plain s ≡ true → every is_single (collapse after s) ≡ true
every-collapse after [] h = unfold collapse in refl
every-collapse after (c ∷ s) h =
    let rest = every-collapse (is_space c) s (ground arith) in collapse_step after c s h rest
  where
    collapse_step :
        (after : Bool) (c : ℕ) (s : Text)
        → every is_plain (c ∷ s) ≡ true
        → every is_single (collapse (is_space c) s) ≡ true
        → every is_single (collapse after (c ∷ s)) ≡ true
    collapse_step after c s h k = unfold collapse in ground arith

every-trim_start : (s : Text) → every is_single s ≡ true → every is_single (trim_start s) ≡ true
unfolding trim_start
every-trim_start [] h = refl
every-trim_start (c ∷ s) h = ground (arith, every-trim_start s)

every-keep_before :
    (c : ℕ) (s : Text)
    → is_single c ≡ true
    → every is_single s ≡ true
    → every is_single (keep_before c s) ≡ true
every-keep_before c [] h k = ground arith
every-keep_before c (d ∷ s) h k = ground arith

every-trim_end : (s : Text) → every is_single s ≡ true → every is_single (trim_end s) ≡ true
unfolding trim_end
every-trim_end [] h = refl
every-trim_end (c ∷ s) h =
    every-keep_before c (trim_end s) (ground arith) (every-trim_end s (ground arith))

collapse_gap :
    (g : Text) (y : ℕ) (b : Text)
    → every is_space g ≡ true
    → is_space y ≡ false
    → collapse true (g ++ y ∷ b) ≡ y ∷ collapse false b
unfolding collapse
collapse_gap [] y b h n = rw n refl
collapse_gap (c ∷ g) y b h n = ground (arith, collapse_gap g y b)

collapse_spaces :
    (x h : ℕ) (g : Text) (y : ℕ) (b : Text)
    → is_space x ≡ false
    → every is_space (h ∷ g) ≡ true
    → is_space y ≡ false
    → collapse (is_space x) (h ∷ (g ++ y ∷ b)) ≡ b' ' ∷ y ∷ collapse false b
collapse_spaces x h g y b n k m =
    let gap = collapse_gap g y b (ground arith) m in
    let space : is_space h ≡ true = ground arith in unfold collapse in rw (n, space, gap) refl

collapse_before :
    (after : Bool) (a : Text) (x : ℕ) (u : Text)
    → is_space x ≡ false
    → (p : Text) × (collapse after (a ++ x ∷ u) ≡ p ++ x ∷ collapse (is_space x) u)
collapse_before after [] x u n = ([], unfold collapse in ground arith)
collapse_before after (c ∷ a) x u n =
    let (p, e) = collapse_before (is_space c) a x u n in before c p e
  where
    before :
        (c : ℕ) (p : Text)
        → collapse (is_space c) (a ++ x ∷ u) ≡ p ++ x ∷ collapse (is_space x) u
        → (q : Text) × (collapse after (c ∷ (a ++ x ∷ u)) ≡ q ++ x ∷ collapse (is_space x) u)
    before c p e = (
      if is_space c then if after then p else b' ' ∷ p else c ∷ p,
      unfold collapse in ground arith,
    )

trim_start_before :
    (p : Text) (x : ℕ) (u : Text)
    → is_space x ≡ false
    → (q : Text) × (trim_start (p ++ x ∷ u) ≡ q ++ x ∷ u)
unfolding trim_start
trim_start_before [] x u n = ([], rw n refl)
trim_start_before (c ∷ p) x u n =
    let (q, e) = trim_start_before p x u n in (if is_space c then q else c ∷ p, ground arith)

keeps_space : (y : ℕ) (q : Text) → is_space y ≡ false → has_space (trim_end (b' ' ∷ y ∷ q)) ≡ true
keeps_space y q n = unfold trim_end in keeps_by y (trim_end q) n
  where
    keeps_by :
        (y : ℕ) (q : Text)
        → is_space y ≡ false
        → has_space (keep_before b' ' (keep_before y q)) ≡ true
    keeps_by y [] n = rw n refl
    keeps_by y (c ∷ q) n = refl

has_space_before : (c : ℕ) (s : Text) → has_space s ≡ true → has_space (keep_before c s) ≡ true
has_space_before c [] h = cc
has_space_before c (d ∷ s) h = ground arith

keeps_inner :
    (p : Text) (x y : ℕ) (q : Text)
    → is_space y ≡ false
    → has_space (trim_end (p ++ x ∷ b' ' ∷ y ∷ q)) ≡ true
unfolding trim_end
keeps_inner [] x y q n = has_space_before x _ (keeps_space y q n)
keeps_inner (c ∷ p) x y q n = has_space_before c _ (keeps_inner p x y q n)

trim_start-head : (t : Text) (c : ℕ) (s : Text) → trim_start t ≡ c ∷ s → is_space c ≡ false
unfolding trim_start
trim_start-head [] c s h = cc
trim_start-head (d ∷ t) c s h = elim (Bool-cases (is_space d)) [
  | inl e ↦ trim_start-head t c s (rw e at h)
  | inr e ↦ ground arith
]

-- A text that no longer starts with a space, before its end is trimmed.
ending :
    (c : ℕ) (s : Text)
    → is_space c ≡ false
    → every is_single (c ∷ s) ≡ true
    → has_space (trim_end s) ≡ true
    → is_prose_of (trim_end (c ∷ s)) ≡ true
unfolding trim_end
ending c s n e h =
    let letter : is_letter c ≡ true = letter_of c n (ground arith) in
    let rest : every is_single (trim_end s) ≡ true = every-trim_end s (ground arith) in
    ap is_prose_of (kept c (trim_end s) n)
    ∙ is_prose_of_single c (trim_end s) letter (ground arith) h
  where
    letter_of : (c : ℕ) → is_space c ≡ false → is_single c ≡ true → is_letter c ≡ true
    letter_of c n e = unfold is_space in ground arith

    kept : (c : ℕ) (t : Text) → is_space c ≡ false → keep_before c t ≡ c ∷ t
    kept c [] n = rw n refl
    kept c (d ∷ t) n = refl

ending_of :
    (s p : Text) (x y : ℕ) (q : Text)
    → is_space x ≡ false
    → is_space y ≡ false
    → trim_start s ≡ p ++ x ∷ b' ' ∷ y ∷ q
    → every is_single (trim_start s) ≡ true
    → is_prose_of (trim_end (trim_start s)) ≡ true
ending_of s [] x y q n m e h = rw e (ending x (b' ' ∷ y ∷ q) n (rw e at h) (keeps_space y q m))
ending_of s (c ∷ p) x y q n m e h = rw e (
    ending c (p ++ x ∷ b' ' ∷ y ∷ q) (trim_start-head s c (p ++ x ∷ b' ' ∷ y ∷ q) e) (rw e at h)
      (keeps_inner p x y q m))

letter_not_space : (c : ℕ) → is_letter c ≡ true → is_space c ≡ false
unfolding is_space
letter_not_space c h = ground arith

-- A text of plain letters and white space, with white space between two letters somewhere, is copy
-- to the check, however it is spaced and wherever it is broken.
pub is_prose_lem :
    (a : Text) (x h : ℕ) (g : Text) (y : ℕ) (b : Text)
    → is_letter x ≡ true
    → is_letter y ≡ true
    → every is_space (h ∷ g) ≡ true
    → every is_plain (a ++ x ∷ h ∷ (g ++ y ∷ b)) ≡ true
    → is_prose (a ++ x ∷ h ∷ (g ++ y ∷ b)) ≡ true
is_prose_lem a x h g y b lx ly k e =
    let n = letter_not_space x lx in
    let m = letter_not_space y ly in
    let raw = a ++ x ∷ h ∷ (g ++ y ∷ b) in
    let (p, c) = collapse_before false a x (h ∷ (g ++ y ∷ b)) n in
    let c' : collapse false raw ≡ p ++ x ∷ b' ' ∷ y ∷ collapse false b =
      c ∙ ap (λ t. p ++ x ∷ t) (collapse_spaces x h g y b n k m) in
    let (q, t) = trim_start_before p x (b' ' ∷ y ∷ collapse false b) n in
    let single : every is_single (trim_start (collapse false raw)) ≡ true =
      every-trim_start (collapse false raw) (every-collapse false raw e) in
    unfold is_prose trim in
    ending_of (collapse false raw) q x y (collapse false b) n m (ap trim_start c' ∙ t) single
