-- ===== src/Nav.antt =====
-- The destinations and the breadcrumb trail: web/src/components/layout/Nav.tsx with the settings
-- destinations of web/src/features/settings/nav.ts, and `Breadcrumbs` of
-- web/src/components/layout/TopBar.tsx. A label is which word of the catalog it is, `copy` the catalog.
pub mod Laws
pub mod Sidebar
use konku.Common.{
  ℕ, Bool, true, false, ◌&&◌, ◌||◌, not, Text, codes, str_eq, starts_with, truthy, Option, none,
  some, List, [], ◌∷◌, ◌++◌, map, ◌==◌, if◌then◌else◌,
}

pub data Label : Type 0 where
  home_title notes_title cards_title review_title timer_title settings_title : Label
  review_today sets_title : Label
  profile devices domains categories preferences appearance data_section about : Label
  account_group labels_group app_group : Label

pub record Destination : Type 0 where
  pub to : Text
  pub label : Label

pub record Group : Type 0 where
  pub label : Label
  pub items : List Destination

abbrev pub goes : Text → Label → Destination
goes to label = record { to = to; label = label }

abbrev pub settings_nav : List Group
settings_nav =
    record {
      label = account_group;
      items =
          goes (codes "/settings/akun") profile ∷ goes (codes "/settings/perangkat") devices ∷ [];
    }
    ∷ record {
      label = labels_group;
      items = goes (codes "/domains") domains ∷ goes (codes "/categories") categories ∷ [];
    }
    ∷ record {
      label = app_group;
      items =
          goes (codes "/settings/preferensi") preferences
          ∷ goes (codes "/settings/tampilan") appearance
          ∷ goes (codes "/settings/data") data_section
          ∷ goes (codes "/settings/tentang") about
          ∷ [];
    }
    ∷ []

abbrev pub items_of : List Group → List Destination
items_of [] = []
items_of (g ∷ groups) = g.items ++ items_of groups

abbrev pub settings_items : List Destination
settings_items = items_of settings_nav

abbrev pub is_at : Text → Destination → Bool
is_at pathname item = str_eq pathname item.to || starts_with (item.to ++ b'/' ∷ []) pathname

abbrev pub find_item : Text → List Destination → Option Destination
find_item pathname [] = none
find_item pathname (item ∷ items) =
    let rest = find_item pathname items in if is_at pathname item then some item else rest

unfoldable pub settings_item_for : Text → Option Destination
settings_item_for pathname = find_item pathname settings_items

-- `CrumbSpec`, and the patterns of the table: a prefix, and a prefix with a character of its line
-- behind it.
pub record CrumbSpec : Type 0 where
  pub label : Label
  pub to : Option Text

pub data Pattern : Type 0 where
  prefix prefix_and_more : Text → Pattern

abbrev ends_line : ℕ → Bool
ends_line c = c == 10 || c == 13 || (c == 0x2028 || c == 0x2029)

abbrev pub more_after : Text → Text → Bool
more_after [] [] = false
more_after [] (c ∷ s) = not (ends_line c)
more_after (p ∷ ps) [] = false
more_after (p ∷ ps) (c ∷ s) = p == c && more_after ps s

unfoldable pub test : Pattern → Text → Bool
test (prefix p) s = starts_with p s
test (prefix_and_more p) s = more_after p s

abbrev here : Label → CrumbSpec
here label = record { label = label; to = none }

abbrev above : Label → Text → CrumbSpec
above label to = record { label = label; to = some to }

abbrev pub TrailTable : Type 0
TrailTable = List (Pattern × List CrumbSpec)

abbrev pub trail : TrailTable
trail =
    (prefix (codes "/home"), here home_title ∷ [])
    ∷ (prefix_and_more (codes "/notes/"), above notes_title (codes "/notes") ∷ [])
    ∷ (prefix (codes "/notes"), here notes_title ∷ [])
    ∷ (prefix (codes "/cards"), here cards_title ∷ [])
    ∷ (prefix (codes "/review/due"), above review_title (codes "/review") ∷ here review_today ∷ [])
    ∷ (prefix (codes "/review/sets"), above review_title (codes "/review") ∷ here sets_title ∷ [])
    ∷ (prefix (codes "/review/runs"), above review_title (codes "/review") ∷ here sets_title ∷ [])
    ∷ (prefix (codes "/review"), here review_title ∷ [])
    ∷ (prefix (codes "/timer"), here timer_title ∷ [])
    ∷ (prefix (codes "/domains"), above settings_title (codes "/settings") ∷ here domains ∷ [])
    ∷ (
      prefix (codes "/categories"),
      above settings_title (codes "/settings") ∷ here categories ∷ [],
    )
    ∷ (prefix (codes "/settings"), here settings_title ∷ [])
    ∷ []

abbrev pub find_specs : Text → TrailTable → List CrumbSpec
find_specs pathname [] = []
find_specs pathname ((pattern, specs) ∷ table) =
    let rest = find_specs pathname table in if test pattern pathname then specs else rest

pub record Crumb : Type 0 where
  pub label : Text
  pub to : Option Text

-- A crumb as it is rendered.
pub data Piece : Type 0 where
  link : (to : Text) → (label : Text) → Piece
  current : (label : Text) → Piece

abbrev pub piece : Crumb → List Crumb → Piece
piece c rest = piece_by c.to rest
  where
    piece_by : Option Text → List Crumb → Piece
    piece_by none _ = current c.label
    piece_by (some to) [] = current c.label
    piece_by (some to) (_ ∷ _) = if truthy to then link to c.label else current c.label

unfoldable pub pieces : List Crumb → List Piece
pieces [] = []
pieces (c ∷ rest) = piece c rest ∷ pieces rest

module _ (copy : Label → Text) where
  abbrev pub crumb : CrumbSpec → Crumb
  crumb s = record { label = copy s.label; to = s.to }

  abbrev pub with_section : List Crumb → Option Destination → List Crumb
  with_section crumbs none = crumbs
  with_section crumbs (some section) =
      record { label = copy settings_title; to = some (codes "/settings") }
      ∷ record { label = copy section.label; to = none }
      ∷ []

  unfoldable pub crumbs_for : Text → List Crumb
  crumbs_for pathname =
      let crumbs = map crumb (find_specs pathname trail) in
      if not (starts_with (codes "/settings/") pathname)
      then crumbs
      else with_section crumbs (settings_item_for pathname)

  unfoldable pub breadcrumbs : Text → List Piece
  breadcrumbs pathname = pieces (crumbs_for pathname)
