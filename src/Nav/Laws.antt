-- ===== src/Nav/Laws.antt =====
-- The trail of a path is one way up, and the settings rail and the trail name a section alike.
use konku.Common.{
  ◌≡◌, ◌⊎◌, refl, inl, inr, true, Text, codes, starts_with, Option, none, some, List, [], ◌∷◌, map,
  truthy, Bool-cases,
}
use konku.Nav.{
  Label, review_title, settings_title, home_title, notes_title, cards_title, timer_title,
  review_today, sets_title, domains, categories, CrumbSpec, TrailTable, trail, test, find_specs,
  crumb, with_section, crumbs_for, pieces, Piece, breadcrumbs, link, current, Destination,
  settings_item_for,
}

abbrev Rows : (List CrumbSpec → Type 0) → TrailTable → Type 0
Rows P [] = Unit
Rows P ((pattern, specs) ∷ table) = P specs × Rows P table

-- A property of the rows is one of the row that is found.
find_specs-Rows :
    (P : List CrumbSpec → Type 0)
    → P []
    → (path : Text) (table : TrailTable) → Rows P table
    → P (find_specs path table)
find_specs-Rows P n path [] h = n
find_specs-Rows P n path ((pattern, specs) ∷ table) (h, rest) =
    elim (Bool-cases (test pattern path)) [
      | inl e ↦ rw e h
      | inr e ↦ rw e (find_specs-Rows P n path table rest)
    ]

-- Nothing; or the place alone; or the place behind a link, whose own trail is the linked place alone.
abbrev pub IsTrail : (Text → List Piece) → List Piece → Type 0
IsTrail at shown =
    (shown ≡ [])
    ⊎ (((place : Text) × (shown ≡ current place ∷ []))
        ⊎ ((to : Text) × (up : Text) × (place : Text) × (shown ≡ link to up ∷ current place ∷ [])
            × (at to ≡ current up ∷ [])))

module _ (copy : Label → Text) where
  abbrev Shows : List CrumbSpec → Type 0
  Shows specs = IsTrail (breadcrumbs copy) (pieces (map (crumb copy) specs))

  row_alone : (label : Label) (to : Option Text) → Shows (record { label = label; to = to } ∷ [])
  unfolding pieces
  row_alone label none = inr (inl (copy label, refl))
  row_alone label (some to) = inr (inl (copy label, refl))

  row_under :
      (up label : Label) (to : Text)
      → truthy to ≡ true
      → breadcrumbs copy to ≡ current (copy up) ∷ []
      → Shows (record { label = up; to = some to } ∷ record { label = label; to = none } ∷ [])
  row_under up label to t e = inr (inr (to, copy up, copy label, unfold pieces in rw t refl, e))

  review_alone : breadcrumbs copy (codes "/review") ≡ current (copy review_title) ∷ []
  unfolding breadcrumbs crumbs_for pieces test starts_with
  review_alone = refl

  settings_alone : breadcrumbs copy (codes "/settings") ≡ current (copy settings_title) ∷ []
  unfolding breadcrumbs crumbs_for pieces test starts_with
  settings_alone = refl

  rows : Rows Shows trail
  rows = (
    row_alone home_title none,
    (
      row_alone notes_title _,
      (
        row_alone notes_title none,
        (
          row_alone cards_title none,
          (
            row_under review_title review_today _ refl review_alone,
            (
              row_under review_title sets_title _ refl review_alone,
              (
                row_under review_title sets_title _ refl review_alone,
                (
                  row_alone review_title none,
                  (
                    row_alone timer_title none,
                    (
                      row_under settings_title domains _ refl settings_alone,
                      (
                        row_under settings_title categories _ refl settings_alone,
                        (row_alone settings_title none, tt),
                      ),
                    ),
                  ),
                ),
              ),
            ),
          ),
        ),
      ),
    ),
  )

  section_trail :
      (path : Text) (section : Option Destination)
      → IsTrail
          (breadcrumbs copy)
          (pieces (with_section copy (map (crumb copy) (find_specs path trail)) section))
  section_trail path none = find_specs-Rows Shows (inl (unfold pieces in refl)) path trail rows
  section_trail path (some section) =
      row_under settings_title section.label (codes "/settings") refl settings_alone

  -- Whatever the path, the breadcrumbs are none, or the current place alone, or the current place
  -- behind one link; and the page that the link leads to has the linked name alone for its breadcrumbs.
  pub trail_lem : (path : Text) → IsTrail (breadcrumbs copy) (breadcrumbs copy path)
  trail_lem path = elim (Bool-cases (starts_with (codes "/settings/") path)) [
    | inl e ↦
        let under : breadcrumbs copy path
            ≡ pieces (
                with_section copy (map (crumb copy) (find_specs path trail))
                  (settings_item_for path)) =
          unfold breadcrumbs crumbs_for in rw e refl in
        rw under (section_trail path (settings_item_for path))
    | inr e ↦
        let row : breadcrumbs copy path ≡ pieces (map (crumb copy) (find_specs path trail)) =
          unfold breadcrumbs crumbs_for in rw e refl in
        rw row (section_trail path none)
  ]
