-- ===== src/Nav/Sidebar.antt =====
-- The sidebar: `SidebarLink` of web/src/components/layout/Sidebar.tsx and `MobileBottomNav` of
-- web/src/components/layout/MobileNav.tsx over the destinations of web/src/components/layout/Nav.tsx,
-- and web/src/components/layout/useSidebar.ts. When the router's `NavLink` is active is a parameter.
pub mod Laws
use konku.Common.{
  ℕ, zero, suc, Bool, true, false, ◌&&◌, ◌||◌, not, Text, codes, str_eq, starts_with, Option, none,
  some, List, [], ◌∷◌, map, exists, ltb, if◌then◌else◌,
}
use konku.Storage.{Store, unavailable, holding, get_item, set_item}
use konku.Nav.{
  Label, home_title, notes_title, cards_title, review_title, timer_title, settings_title,
}

-- `alsoActiveOn` is the prefixes that its pattern matches.
pub record NavItem : Type 0 where
  pub to : Text
  pub label : Label
  pub end : Bool
  pub shows_due : Bool
  pub also_active_on : List Text

abbrev daily : Text → Label → NavItem
daily to label = record {
  to = to;
  label = label;
  end = false;
  shows_due = false;
  also_active_on = [];
}

abbrev pub primary_nav : List NavItem
primary_nav =
    record (daily (codes "/home") home_title) { end = true }
    ∷ daily (codes "/notes") notes_title
    ∷ daily (codes "/cards") cards_title
    ∷ record (daily (codes "/review") review_title) { shows_due = true }
    ∷ daily (codes "/timer") timer_title
    ∷ []

abbrev pub settings_link : NavItem
settings_link = record (daily (codes "/settings") settings_title) {
  also_active_on = codes "/domains" ∷ codes "/categories" ∷ [];
}

abbrev pub secondary_nav : List NavItem
secondary_nav = settings_link ∷ []

-- A link as it is rendered: its text and its count, beside it or on its icon.
pub record NavLink : Type 0 where
  pub to : Text
  pub text : Option Text
  pub title : Option Text
  pub lit : Bool
  pub count_beside : Option ℕ
  pub count_on_icon : Option ℕ

abbrev count_if : Bool → ℕ → Option ℕ
count_if shown due = if shown then some due else none

module _ (is_active : Text → Bool → Text → Bool) (copy : Label → Text) where
  abbrev pub show_due : NavItem → ℕ → Bool
  show_due item due = item.shows_due && ltb 0 due

  unfoldable pub sidebar_link : Bool → ℕ → Text → NavItem → NavLink
  sidebar_link collapsed due pathname item = record {
    to = item.to;
    text = if collapsed then none else some (copy item.label);
    title = if collapsed then some (copy item.label) else none;
    lit =
        is_active item.to item.end pathname
        || exists (λ p. starts_with p pathname) item.also_active_on;
    count_beside = count_if (not collapsed && show_due item due) due;
    count_on_icon = count_if (collapsed && show_due item due) due;
  }

  unfoldable pub mobile_link : ℕ → Text → NavItem → NavLink
  mobile_link due pathname item = record {
    to = item.to;
    text = some (copy item.label);
    title = none;
    lit = is_active item.to item.end pathname;
    count_beside = none;
    count_on_icon = count_if (show_due item due) due;
  }

  unfoldable pub sidebar : Bool → ℕ → Text → List NavLink × List NavLink
  sidebar collapsed due pathname = (
    map (sidebar_link collapsed due pathname) primary_nav,
    map (sidebar_link collapsed due pathname) secondary_nav,
  )

  unfoldable pub mobile_bottom_nav : ℕ → Text → List NavLink
  mobile_bottom_nav due pathname = map (mobile_link due pathname) primary_nav

-- `useSidebar`: whether the sidebar is collapsed, and the store.
abbrev pub sidebar_key : Text
sidebar_key = codes "konku.sidebar"

abbrev pub is_collapsed : Option Text → Bool
is_collapsed none = false
is_collapsed (some raw) = str_eq raw (codes "collapsed")

unfoldable pub load : Store → Bool
load unavailable = false
load (holding entries) = is_collapsed (get_item sidebar_key entries)

abbrev pub word : Bool → Text
word collapsed = if collapsed then codes "collapsed" else codes "expanded"

unfoldable pub remember : Bool → Store → Store
remember collapsed unavailable = unavailable
remember collapsed (holding entries) = holding (set_item sidebar_key (word collapsed) entries)

pub record State : Type 0 where
  pub collapsed : Bool
  pub store : Store

abbrev pub mount : Store → State
mount store = record { collapsed = load store; store = store }

unfoldable pub toggle : State → State
toggle s = let next = not s.collapsed in record { collapsed = next; store = remember next s.store }

unfoldable pub toggles : ℕ → State → State
toggles zero s = s
toggles (suc n) s = toggle (toggles n s)
