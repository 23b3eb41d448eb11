-- ===== src/Names.antt =====
-- How an account is called: web/src/features/auth/displayName.ts. `upper` is `toUpperCase`; the first
-- character of a name is its first code unit, or the two of a surrogate pair.
pub mod Laws
use konku.Common.{
  ℕ, Bool, true, false, ◌&&◌, ◌||◌, Text, codes, Option, none, some, List, [], ◌∷◌, ◌++◌, filter,
  map, take, truthy, leb, ltb, ◌==◌, if◌then◌else◌,
}
use konku.Common.Trim.{trim}

pub record User : Type 0 where
  pub email : Text
  pub first_name : Text
  pub last_name : Text

-- `parts.join(' ')`.
unfoldable pub join_spaces : List Text → Text
join_spaces [] = []
join_spaces (t ∷ []) = t
join_spaces (t ∷ u ∷ ts) = t ++ 32 ∷ join_spaces (u ∷ ts)

-- `a || b`.
abbrev pub or_text : Text → Text → Text
or_text [] b = b
or_text (c ∷ a) b = c ∷ a

unfoldable pub display_name : User → Text
display_name user =
    or_text (trim (join_spaces (filter truthy (user.first_name ∷ user.last_name ∷ [])))) user.email

unfoldable pub greeting_name : User → Text
greeting_name user = or_text (trim user.first_name) user.email

-- `[...p][0] ?? ''`: the first code point, which a high surrogate makes with a low one after it.
unfoldable pub first_character : Text → Text
first_character [] = []
first_character (c ∷ []) = c ∷ []
first_character (c ∷ d ∷ t) =
    if (leb 55296 c && ltb c 56320) && (leb 56320 d && ltb d 57344) then c ∷ d ∷ [] else c ∷ []

unfoldable pub concat : List Text → Text
concat [] = []
concat (t ∷ ts) = t ++ concat ts

-- `email.split('@')[0]`.
unfoldable pub local_part : Text → Text
local_part [] = []
local_part (c ∷ t) = let rest = local_part t in if c == 64 then [] else c ∷ rest

abbrev is_separator : ℕ → Bool
is_separator c = c == 46 || (c == 95 || c == 45)

abbrev onto_first : ℕ → List Text → List Text
onto_first c [] = (c ∷ []) ∷ []
onto_first c (t ∷ ts) = (c ∷ t) ∷ ts

-- `local.split(/[._-]+/).filter(Boolean)`: a run of separators splits as one does, since the empty
-- parts between them are left out.
unfoldable pub split_parts : Text → List Text
split_parts [] = [] ∷ []
split_parts (c ∷ t) =
    let rest = split_parts t in if is_separator c then [] ∷ rest else onto_first c rest

unfoldable pub parts_of : Text → List Text
parts_of local = filter truthy (split_parts local)

module _ (upper : Text → Text) where
  unfoldable pub email_initials : Text → Text
  email_initials email =
      or_text (upper (concat (map (take 1) (take 2 (parts_of (local_part email))))))
        (upper (take 2 email))

  abbrev pub initials_by : List Text → Text → Text
  initials_by [] email = email_initials email
  initials_by (p ∷ ps) email = upper (concat (map first_character (take 2 (p ∷ ps))))

  unfoldable pub initials_for : User → Text
  initials_for user =
      initials_by (filter truthy (map trim (user.first_name ∷ user.last_name ∷ []))) user.email
