-- ===== src/Examples/Places.antt =====
-- A section of the settings that is not under their address.
use konku.Common.{◌≡◌, refl, true, Bool, Text, codes, starts_with, [], ◌∷◌, str_eq}
use konku.Nav.{settings_item_for, Label, breadcrumbs, link, current, domains, settings_title, goes}
use konku.Nav.Sidebar.{sidebar_link, settings_link}
use konku.Nav.Sidebar.Laws.{section_lem}

abbrev by_prefix : Text → Bool → Text → Bool
by_prefix to end path = starts_with to path

abbrev english_label : Label → Text
english_label settings_title = codes "Settings"
english_label domains = codes "Domains"
english_label _ = codes "…"

section_lem_example :
    (breadcrumbs english_label (codes "/domains/7")
      ≡ link (codes "/settings") (codes "Settings") ∷ current (codes "Domains") ∷ [])
    × ((sidebar_link by_prefix english_label true 3 (codes "/domains/7") settings_link).lit ≡ true)
unfolding settings_item_for str_eq starts_with
section_lem_example =
    section_lem by_prefix english_label true 3 (λ rest. refl) (codes "/domains/7")
      (goes (codes "/domains") domains) refl
