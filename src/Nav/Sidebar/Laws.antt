-- ===== src/Nav/Sidebar/Laws.antt =====
-- What the sidebar shows at a settings section, and its collapse after a reload.
use konku.Common.{
  ℕ, suc, ◌≡◌, ◌⊎◌, refl, inl, inr, Bool, true, false, not, Text, codes, str_eq, str_eq_iff, sym,
  ap, ◌∙◌, append-nil, append_assoc, starts_with, some, List, [], ◌∷◌, ◌++◌, arith, Bool-cases,
}
use konku.Storage.{Store, unavailable, holding}
use konku.Storage.Laws.{get_item-set_item}
use konku.Nav.{
  Label, settings_title, domains, categories, goes, profile, devices, preferences, appearance,
  data_section, about, Destination, settings_items, settings_item_for, find_item, is_at, crumbs_for,
  breadcrumbs, pieces, link, current, test,
}
use konku.Nav.Sidebar.{
  is_collapsed, sidebar_key, load, remember, toggle, toggles, mount, settings_link, sidebar_link,
}

abbrev Over : (Destination → Type 0) → Text → List Destination → Type 0
Over P path [] = Unit
Over P path (item ∷ items) = (is_at path item ≡ true → P item) × Over P path items

found :
    (P : Destination → Type 0)
    → (path : Text) (items : List Destination) (item : Destination) → Over P path items
    → find_item path items ≡ some item
    → P item
found P path [] item h e = cc
found P path (i ∷ items) item (h, rest) e = elim (Bool-cases (is_at path i)) [
  | inl t ↦ let same : some i ≡ some item = rw t at e in let q : i ≡ item = cc in rw (sym q) (h t)
  | inr f ↦ found P path items item rest (rw f at e)
]

-- A path that starts with another.
starts_with_split : (p s : Text) → starts_with p s ≡ true → (rest : Text) × (s ≡ p ++ rest)
unfolding starts_with
starts_with_split [] s h = (s, refl)
starts_with_split (c ∷ p) [] h = cc
starts_with_split (c ∷ p) (d ∷ s) h =
    let (rest, e) = starts_with_split p s (ground arith) in
    let q : c ≡ d = ground arith in (rest, cc)

is_at_split :
    (path : Text) (item : Destination)
    → is_at path item ≡ true
    → (rest : Text) × (path ≡ item.to ++ rest)
is_at_split path item h = elim (Bool-cases (str_eq path item.to)) [
  | inl e ↦ ([], (str_eq_iff path item.to).0 e ∙ sym (append-nil item.to))
  | inr e ↦
      let (rest, k) = starts_with_split (item.to ++ b'/' ∷ []) path (rw e at h) in
      (b'/' ∷ rest, k ∙ append_assoc item.to (b'/' ∷ []) rest)
]

module _ (is_active : Text → Bool → Text → Bool) (copy : Label → Text) (collapsed : Bool)
    (due : ℕ) where
  abbrev Named : Text → Label → Type 0
  Named path label =
      (breadcrumbs copy path
        ≡ link (codes "/settings") (copy settings_title) ∷ current (copy label) ∷ [])
      × ((sidebar_link is_active copy collapsed due path settings_link).lit ≡ true)

  under :
      ((rest : Text) → is_active (codes "/settings") false (codes "/settings/" ++ rest) ≡ true)
      → (path : Text) (item : Destination) (rest : Text) → path ≡ codes "/settings/" ++ rest
      → settings_item_for path ≡ some item
      → Named path item.label
  under active path item rest e k = (
    unfold breadcrumbs crumbs_for pieces starts_with in
        rw e (
          let found_there : settings_item_for (codes "/settings/" ++ rest) ≡ some item =
            rw e at k in
          rw found_there refl),
    unfold sidebar_link in rw (e, active rest) refl,
  )

  own : (path : Text) (rest : Text) → path ≡ codes "/domains" ++ rest → Named path domains
  own path rest e = (
    unfold breadcrumbs crumbs_for pieces starts_with test in rw e refl,
    unfold sidebar_link starts_with in rw e (ground arith),
  )

  own_categories :
      (path : Text) (rest : Text) → path ≡ codes "/categories" ++ rest → Named path categories
  own_categories path rest e = (
    unfold breadcrumbs crumbs_for pieces starts_with test in rw e refl,
    unfold sidebar_link starts_with in rw e (ground arith),
  )

  -- At every path of a section of the settings, also at those that are not under `/settings`, the
  -- breadcrumbs are a link to the settings and the section by its name in the rail, and the sidebar
  -- lights its link to the settings; if the router's link is active at whatever is under its address.
  pub section_lem :
      ((rest : Text) → is_active (codes "/settings") false (codes "/settings/" ++ rest) ≡ true)
      → (path : Text) (item : Destination) → settings_item_for path ≡ some item
      → (breadcrumbs copy path
          ≡ link (codes "/settings") (copy settings_title) ∷ current (copy item.label) ∷ [])
        × ((sidebar_link is_active copy collapsed due path settings_link).lit ≡ true)
  section_lem active path item e =
      found (λ i. settings_item_for path ≡ some i → Named path i.label) path settings_items item
        sections (unfold settings_item_for in e) e
    where
      setting :
          (i : Destination) (name : Text)
          → i.to ≡ codes "/settings/" ++ name
          → is_at path i ≡ true
          → settings_item_for path ≡ some i
          → Named path i.label
      setting i name same t k =
          let (rest, split) = is_at_split path i t in
          under active path i (name ++ rest)
            (split ∙ ap (λ x. x ++ rest) same ∙ append_assoc (codes "/settings/") name rest) k

      sections :
          Over (λ i. settings_item_for path ≡ some i → Named path i.label) path settings_items
      sections = (
        setting (goes (codes "/settings/akun") profile) (codes "akun") refl,
        (
          setting (goes (codes "/settings/perangkat") devices) (codes "perangkat") refl,
          (
            λ t k.
                let (rest, split) = is_at_split path (goes (codes "/domains") domains) t in
                own path rest split,
            (
              λ t k.
                  let (rest, split) = is_at_split path (goes (codes "/categories") categories) t in
                  own_categories path rest split,
              (
                setting (goes (codes "/settings/preferensi") preferences) (codes "preferensi") refl,
                (
                  setting (goes (codes "/settings/tampilan") appearance) (codes "tampilan") refl,
                  (
                    setting (goes (codes "/settings/data") data_section) (codes "data") refl,
                    (setting (goes (codes "/settings/tentang") about) (codes "tentang") refl, tt),
                  ),
                ),
              ),
            ),
          ),
        ),
      )

load-remember : (b : Bool) (s : Store) → (remember b s ≡ unavailable) ⊎ (load (remember b s) ≡ b)
unfolding load remember str_eq
load-remember b unavailable = inl refl
load-remember true (holding entries) =
    inr (ap is_collapsed (get_item-set_item sidebar_key sidebar_key (codes "collapsed") entries))
load-remember false (holding entries) =
    inr (ap is_collapsed (get_item-set_item sidebar_key sidebar_key (codes "expanded") entries))

-- A reload finds the sidebar as the last toggle left it, wherever the store can be used.
pub toggles-load :
    (n : ℕ) (s : Store)
    → ((toggles (suc n) (mount s)).store ≡ unavailable)
      ⊎ (load (toggles (suc n) (mount s)).store ≡ (toggles (suc n) (mount s)).collapsed)
unfolding toggle toggles
toggles-load n s = load-remember (not (toggles n (mount s)).collapsed) (toggles n (mount s)).store
