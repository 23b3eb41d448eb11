-- ===== src/CopyCheck/Prose.antt =====
-- Whether a literal reads as copy: `isProse` and `looksLikeClassList` of web/scripts/check-i18n.mjs.
pub mod Words
pub mod Phrases
use konku.Common.{
  ℕ, Bool, true, false, ◌&&◌, ◌||◌, not, Text, codes, starts_with, List, [], ◌∷◌, length, every,
  exists, ltb, leb, ◌==◌, if◌then◌else◌,
}
use konku.Common.Trim.{is_space, trim}
use konku.Picker.{contains}

abbrev pub is_upper : ℕ → Bool
is_upper c = leb b'A' c && leb c b'Z'

abbrev pub is_lower : ℕ → Bool
is_lower c = leb b'a' c && leb c b'z'

abbrev pub is_digit : ℕ → Bool
is_digit c = leb b'0' c && leb c b'9'

abbrev pub is_letter : ℕ → Bool
is_letter c = is_upper c || is_lower c

abbrev pub is_word : ℕ → Bool
is_word c = is_letter c || is_digit c

-- `s.replace(/\s+/g, ' ')`; the flag says whether the character before was a space.
unfoldable pub collapse : Bool → Text → Text
collapse after [] = []
collapse after (c ∷ s) =
    let rest = collapse (is_space c) s in
    if is_space c then if after then rest else b' ' ∷ rest else c ∷ rest

-- `IDENTIFIER` and `CONSTANT`.
unfoldable pub is_identifier : Text → Bool
is_identifier [] = false
is_identifier (c ∷ s) = is_lower c && every is_word s

unfoldable pub is_constant : Text → Bool
is_constant [] = false
is_constant (c ∷ s) = every (λ d. is_upper d || is_digit d || d == b'_') (c ∷ s)

abbrev pub is_separator : ℕ → Bool
is_separator c = c == b'-' || c == b'_' || c == b'.' || (c == b'/' || c == b':')

-- `TOKEN_PATH`, read one character at a time: in front of the first part, in it, behind a separator,
-- and in a later part.
pub data Place : Type 0 where
  start first joint later : Place

unfoldable pub path_from : Place → Text → Bool
path_from later [] = true
path_from _ [] = false
path_from start (c ∷ s) = let rest = path_from first s in is_word c && rest
path_from first (c ∷ s) =
    let on = path_from first s in
    let next = path_from joint s in if is_word c then on else is_separator c && next
path_from joint (c ∷ s) = let rest = path_from later s in is_word c && rest
path_from later (c ∷ s) =
    let on = path_from later s in
    let next = path_from joint s in if is_word c then on else is_separator c && next

-- The marks of `CLASS_TOKEN` and of `CLASSY`.
abbrev pub class_marks : Text
class_marks = codes "!:[]/.%_()#,*+-"

abbrev pub classy_marks : Text
classy_marks = codes "-:[/"

unfoldable pub among : Text → ℕ → Bool
among marks c = exists (λ m. c == m) marks

abbrev pub push_word : ℕ → List Text → List Text
push_word c [] = (c ∷ []) ∷ []
push_word c (w ∷ ws) = (c ∷ w) ∷ ws

-- `s.split(' ')`.
unfoldable pub split : Text → List Text
split [] = [] ∷ []
split (c ∷ s) = let rest = split s in if c == b' ' then [] ∷ rest else push_word c rest

abbrev pub is_class_token : Text → Bool
is_class_token [] = false
is_class_token (c ∷ s) = every (λ d. is_lower d || is_digit d || among class_marks d) (c ∷ s)

unfoldable pub looks_like_class_list : Text → Bool
looks_like_class_list s =
    let tokens = split s in
    not (ltb (length tokens) 2)
    && every is_class_token tokens
    && exists (exists (among classy_marks)) tokens

-- `/^[.#/@?$]/`.
abbrev pub starts_marked : Text → Bool
starts_marked [] = false
starts_marked (c ∷ s) = among (codes ".#/@?$") c

-- `/^[A-Z][a-z]/`.
abbrev pub is_capitalised : Text → Bool
is_capitalised (c ∷ d ∷ s) = is_upper c && is_lower d
is_capitalised _ = false

-- The tests on the text with its spaces made single.
unfoldable pub is_prose_of : Text → Bool
is_prose_of s =
    not (ltb (length s) 2)
    && exists is_letter s
    && not (starts_marked s || contains (codes "://") s)
    && not (is_identifier s)
    && not (is_constant s)
    && (not (path_from start s)
        && not (looks_like_class_list s)
        && (exists (λ c. c == b' ') s
            || is_capitalised s
            || exists (among (0x2026 ∷ 0x2014 ∷ [])) s))

unfoldable pub is_prose : Text → Bool
unfolding is_prose_of
is_prose raw = is_prose_of (trim (collapse false raw))
