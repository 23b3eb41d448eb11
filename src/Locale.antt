-- ===== src/Locale.antt =====
-- The language of the app: web/src/i18n/boot.ts, which answers before the first paint.
pub mod Provider
pub mod Sound
pub mod Laws
pub mod Outcomes
use konku.Common.{
  ℕ, ◌+◌, Bool, true, false, ◌&&◌, Text, codes, str_eq, Option, none, some, List, [], ◌∷◌, leb,
  ◌==◌, if◌then◌else◌,
}
use konku.Storage.{Store, unavailable, holding, get_item, set_item}

pub data Locale : Type 0 where
  id en : Locale

abbrev pub tag : Locale → Text
tag id = codes "id"
tag en = codes "en"

-- `isLocale`, with the locale that the string is.
unfoldable pub as_locale : Text → Option Locale
as_locale value =
    if str_eq value (codes "id")
    then some id
    else if str_eq value (codes "en")
    then some en
    else none

abbrev pub locale_key : Text
locale_key = codes "konku.locale"

-- `toLowerCase` on the letters of A to Z. No other code unit turns into a letter of the two tags
-- alone, so the comparison with them is the same.
unfoldable pub lower_code : ℕ → ℕ
lower_code c = if leb 65 c && leb c 90 then c + 32 else c

-- `tag.split('-')[0].toLowerCase()`.
unfoldable pub primary : Text → Text
primary [] = []
primary (c ∷ t) = let rest = primary t in if c == 45 then [] else lower_code c ∷ rest

-- `navigator`: one whose reading throws, or one with `languages` and `language`, which some
-- environments lack.
pub data Navigator : Type 0 where
  hostile : Navigator
  navigator : Option (List Text) → Option Text → Navigator

-- `String(tag)`.
abbrev pub string_of : Option Text → Text
string_of none = codes "undefined"
string_of (some t) = t

unfoldable pub tags : Option (List Text) → Option Text → List Text
tags (some (t ∷ ts)) language = t ∷ ts
tags (some []) language = string_of language ∷ []
tags none language = string_of language ∷ []

-- The loop over the tags.
unfoldable pub first_known : List Text → Option Locale
first_known [] = none
first_known (t ∷ ts) =
    let rest = first_known ts in elim (as_locale (primary t)) [ some l ↦ some l | none ↦ rest ]

unfoldable pub browser_locale : Navigator → Option Locale
browser_locale hostile = none
browser_locale (navigator languages language) = first_known (tags languages language)

abbrev pub locale_of : Option Text → Option Locale
locale_of none = none
locale_of (some value) = as_locale value

unfoldable pub cached_locale : Store → Option Locale
cached_locale unavailable = none
cached_locale (holding entries) = locale_of (get_item locale_key entries)

-- `found ?? other`.
abbrev pub or_else : Option Locale → Locale → Locale
or_else none l = l
or_else (some found) l = found

unfoldable pub boot_locale : Store → Navigator → Locale
boot_locale store browser = or_else (cached_locale store) (or_else (browser_locale browser) id)

unfoldable pub remember_locale : Locale → Store → Store
remember_locale locale unavailable = unavailable
remember_locale locale (holding entries) = holding (set_item locale_key (tag locale) entries)
