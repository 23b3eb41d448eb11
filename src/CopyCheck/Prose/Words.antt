-- ===== src/CopyCheck/Prose/Words.antt =====
-- Letters and single spaces are not taken for a name, a constant, a path or a list of classes.
use konku.Common.{
  ℕ, ◌≡◌, refl, Bool, true, false, ◌||◌, Text, codes, starts_with, List, [], ◌∷◌, length, every,
  exists, ltb, ◌==◌, arith,
}
use konku.Common.Trim.{is_space}
use konku.Picker.{contains}
use konku.CopyCheck.Prose.{
  is_upper, is_digit, is_letter, is_word, is_identifier, is_constant, Place, start, first, joint,
  later, path_from, classy_marks, among, push_word, split, looks_like_class_list, starts_marked,
  is_prose_of,
}

-- What a phrase is made of before its spaces are made single, and after.
abbrev pub is_plain : ℕ → Bool
is_plain c = is_letter c || is_space c

abbrev pub is_single : ℕ → Bool
is_single c = is_letter c || c == b' '

abbrev pub has_space : Text → Bool
has_space s = exists (λ c. c == b' ') s

not_identifier : (s : Text) → has_space s ≡ true → every is_word s ≡ false
not_identifier [] h = cc
not_identifier (c ∷ s) h = ground (arith, not_identifier s)

not_constant :
    (s : Text) → has_space s ≡ true → every (λ d. is_upper d || is_digit d || d == b'_') s ≡ false
not_constant [] h = cc
not_constant (c ∷ s) h = ground (arith, not_constant s)

not_path : (p : Place) (s : Text) → has_space s ≡ true → path_from p s ≡ false
unfolding path_from
not_path p [] h = cc
not_path start (c ∷ s) h = ground (arith, not_path first s)
not_path first (c ∷ s) h = ground (arith, not_path first s, not_path joint s)
not_path joint (c ∷ s) h = ground (arith, not_path later s)
not_path later (c ∷ s) h = ground (arith, not_path later s, not_path joint s)

not_contains : (s : Text) → every is_single s ≡ true → contains (codes "://") s ≡ false
unfolding contains starts_with
not_contains [] h = refl
not_contains (c ∷ s) h = ground (arith, not_contains s)

not_classy_push :
    (c : ℕ) (ws : List Text)
    → is_letter c ≡ true
    → exists (exists (among classy_marks)) ws ≡ false
    → exists (exists (among classy_marks)) (push_word c ws) ≡ false
unfolding among
not_classy_push c [] h k = ground arith
not_classy_push c (w ∷ ws) h k = ground arith

not_classy_split :
    (s : Text) → every is_single s ≡ true → exists (exists (among classy_marks)) (split s) ≡ false
not_classy_split [] h = unfold split in refl
not_classy_split (c ∷ s) h = let rest = not_classy_split s (ground arith) in split_step c s h rest
  where
    split_step :
        (c : ℕ) (s : Text)
        → every is_single (c ∷ s) ≡ true
        → exists (exists (among classy_marks)) (split s) ≡ false
        → exists (exists (among classy_marks)) (split (c ∷ s)) ≡ false
    split_step c s h k = unfold split in ground (arith, not_classy_push c (split s))

not_class_list : (s : Text) → every is_single s ≡ true → looks_like_class_list s ≡ false
not_class_list s h = unfold looks_like_class_list in ground (arith, not_classy_split s h)

-- A text of letters and single spaces that starts with a letter and has a space.
pub is_prose_of_single :
    (c : ℕ) (s : Text)
    → is_letter c ≡ true
    → every is_single (c ∷ s) ≡ true
    → has_space s ≡ true
    → is_prose_of (c ∷ s) ≡ true
is_prose_of_single c [] l e h = cc
is_prose_of_single c (d ∷ s) l e h =
    let path : path_from start (c ∷ d ∷ s) ≡ false = not_path start (c ∷ d ∷ s) (ground arith) in
    let mark : contains (codes "://") (c ∷ d ∷ s) ≡ false = not_contains (c ∷ d ∷ s) e in
    let class_list : looks_like_class_list (c ∷ d ∷ s) ≡ false = not_class_list (c ∷ d ∷ s) e in
    let word : every is_word (d ∷ s) ≡ false = not_identifier (d ∷ s) h in
    let upper : every (λ x. is_upper x || is_digit x || x == b'_') (d ∷ s) ≡ false =
      not_constant (d ∷ s) h in
    let name : is_identifier (c ∷ d ∷ s) ≡ false = unfold is_identifier in ground arith in
    let constant : is_constant (c ∷ d ∷ s) ≡ false = unfold is_constant in ground arith in
    let first : starts_marked (c ∷ d ∷ s) ≡ false = unfold among in ground arith in
    let long : ltb (length (c ∷ d ∷ s)) 2 ≡ false = ground arith in
    let some_letter : exists is_letter (c ∷ d ∷ s) ≡ true = ground arith in
    let spaced : has_space (c ∷ d ∷ s) ≡ true = ground arith in
    unfold is_prose_of in
    rw (long, some_letter, first, mark, name, constant, path, class_list, spaced) refl
