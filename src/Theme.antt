-- ===== src/Theme.antt =====
-- The theme: the blocking script web/public/theme.js, and the provider of
-- web/src/features/settings/useTheme.tsx, in a browser that has `matchMedia`. `os` is whether the
-- system asks for dark.
pub mod Laws
use konku.Common.{
  Bool, true, false, ◌&&◌, ◌||◌, Text, codes, str_eq, Option, none, some, List, [], ◌∷◌,
  if◌then◌else◌,
}
use konku.Storage.{Store, unavailable, holding, get_item, set_item}

pub data Theme : Type 0 where
  light dark system : Theme

abbrev pub word : Theme → Text
word light = codes "light"
word dark = codes "dark"
word system = codes "system"

abbrev pub storage_key : Text
storage_key = codes "konku.theme"

abbrev light_color : Text
light_color = codes "#f9fafb"

abbrev dark_color : Text
dark_color = codes "#111115"

abbrev pub is_dark : Theme → Bool → Bool
is_dark light os = false
is_dark dark os = true
is_dark system os = os

-- What is on `<html>`, and in the meta element of the browser's own colour when there is one.
pub record Page : Type 0 where
  pub dark_class : Bool
  pub scheme : Text
  pub meta : Option Text

abbrev pub color : Bool → Text
color b = if b then dark_color else light_color

abbrev pub recolor : Bool → Option Text → Option Text
recolor b none = none
recolor b (some content) = some (color b)

unfoldable pub paint : Bool → Page → Page
paint b p = record {
  dark_class = b;
  scheme = if b then codes "dark" else codes "light";
  meta = recolor b p.meta;
}

-- The script of the page, with constants and a painting of its own.
abbrev pub script_key : Text
script_key = codes "konku.theme"

abbrev pub script_light : Text
script_light = codes "#f9fafb"

abbrev pub script_dark : Text
script_dark = codes "#111115"

unfoldable pub booted_theme : Option Text → Theme
booted_theme none = system
booted_theme (some raw) =
    if str_eq raw (codes "light") then light else if str_eq raw (codes "dark") then dark else system

abbrev pub booted_dark : Theme → Bool → Bool
booted_dark dark os = true
booted_dark system os = os
booted_dark light os = false

abbrev pub booted_meta : Bool → Option Text → Option Text
booted_meta b none = none
booted_meta b (some content) = some (if b then script_dark else script_light)

abbrev pub script_paint : Bool → Page → Page
script_paint b p = record {
  dark_class = b;
  scheme = if b then codes "dark" else codes "light";
  meta = booted_meta b p.meta;
}

-- A store that throws ends the script before it paints.
unfoldable pub boot : Store → Bool → Page → Page
boot unavailable os p = p
boot (holding entries) os p =
    script_paint (booted_dark (booted_theme (get_item script_key entries)) os) p

abbrev pub theme_of : Option Text → Theme
theme_of none = system
theme_of (some raw) =
    if str_eq raw (codes "light")
    then light
    else if str_eq raw (codes "dark")
    then dark
    else if str_eq raw (codes "system")
    then system
    else system

unfoldable pub load : Store → Theme
load unavailable = system
load (holding entries) = theme_of (get_item storage_key entries)

unfoldable pub apply : Theme → Bool → Page → Page
apply theme os p = paint (is_dark theme os) p

abbrev pub is_system : Theme → Bool
is_system light = false
is_system dark = false
is_system system = true

abbrev pub same_theme : Theme → Theme → Bool
same_theme light light = true
same_theme dark dark = true
same_theme system system = true
same_theme _ _ = false

-- The provider in its page; `listening` is whether it follows the system.
pub record Provider : Type 0 where
  pub theme : Theme
  pub resolved : Bool
  pub listening : Bool
  pub store : Store
  pub os : Bool
  pub page : Page

-- The effect on the theme.
unfoldable pub follow : Provider → Provider
follow p =
    let painted = apply p.theme p.os p.page in
    record p { page = painted; resolved = painted.dark_class; listening = is_system p.theme }

unfoldable pub mount : Store → Bool → Page → Provider
mount store os page = follow (record {
  theme = load store;
  resolved = page.dark_class;
  listening = false;
  store = store;
  os = os;
  page = page;
})

unfoldable pub stored : Theme → Store → Store
stored t unavailable = unavailable
stored t (holding entries) = holding (set_item storage_key (word t) entries)

unfoldable pub set_theme : Theme → Provider → Provider
set_theme t p =
    let chosen = record p { theme = t; store = stored t p.store } in
    if same_theme t p.theme then chosen else follow chosen

-- The listener on the system's preference.
unfoldable pub on_change : Bool → Provider → Provider
on_change os p =
    if p.listening
    then record p { os = os; page = apply system os p.page; resolved = os }
    else record p { os = os }

pub data Event : Type 0 where
  chosen : Theme → Event
  changed : Bool → Event

unfoldable pub handle : Event → Provider → Provider
handle (chosen t) p = set_theme t p
handle (changed os) p = on_change os p

unfoldable pub handle_all : List Event → Provider → Provider
handle_all [] p = p
handle_all (e ∷ es) p = handle_all es (handle e p)
