-- ===== src/Theme/Laws.antt =====
-- What is painted, before the first paint and after.
use konku.Common.{
  ◌≡◌, ◌⊎◌, refl, sym, ap, ◌∙◌, inl, inr, Bool, true, false, Text, codes, str_eq, Option, none,
  some, List, [], ◌∷◌, if◌then◌else◌, arith, Bool-cases,
}
use mathlib.Core.Path.{subst}
use konku.Storage.{Entry, Store, unavailable, holding, get_item}
use konku.Storage.Laws.{get_item-set_item}
use konku.Theme.{
  Theme, light, dark, system, word, storage_key, is_dark, Page, paint, booted_theme, booted_dark,
  script_paint, boot, theme_of, load, apply, is_system, same_theme, Provider, follow, mount, stored,
  set_theme, on_change, Event, chosen, changed, handle, handle_all,
}

-- Whether what is stored comes to dark: "dark" does, "light" does not, anything else follows the system.
abbrev pub wants_dark : Option Text → Bool → Bool
wants_dark none os = os
wants_dark (some raw) os =
    if str_eq raw (codes "light") then false else if str_eq raw (codes "dark") then true else os

-- A page in dark or in light: the class, the scheme, and the browser's own colour if it has one.
abbrev pub in_theme : Bool → Page → Page
in_theme b page = record {
  dark_class = b;
  scheme = if b then codes "dark" else codes "light";
  meta = elim page.meta [
    | none ↦ none
    | some content ↦ some (if b then codes "#111115" else codes "#f9fafb")
  ];
}

booted_dark_lem :
    (raw : Option Text) (os : Bool) → booted_dark (booted_theme raw) os ≡ wants_dark raw os
unfolding booted_theme str_eq
booted_dark_lem none os = refl
booted_dark_lem (some raw) os = ground arith

is_dark_lem : (raw : Option Text) (os : Bool) → is_dark (theme_of raw) os ≡ wants_dark raw os
unfolding str_eq
is_dark_lem none os = refl
is_dark_lem (some raw) os = ground arith

script_paint_lem : (b : Bool) (p : Page) → script_paint b p ≡ in_theme b p
script_paint_lem b p = ground arith

paint_lem : (b : Bool) (p : Page) → paint b p ≡ in_theme b p
unfolding paint
paint_lem b p = ground arith

in_theme_twice : (b : Bool) (p : Page) → in_theme b (in_theme b p) ≡ in_theme b p
in_theme_twice b p = ground arith

boot_lem :
    (entries : List Entry) (os : Bool) (page : Page)
    → boot (holding entries) os page
      ≡ in_theme (wants_dark (get_item (codes "konku.theme") entries) os) page
unfolding boot
boot_lem entries os page =
    script_paint_lem _ page
    ∙ ap (λ b. in_theme b page) (booted_dark_lem (get_item (codes "konku.theme") entries) os)

mount_lem :
    (entries : List Entry) (os : Bool) (page : Page)
    → (mount (holding entries) os page).page
      ≡ in_theme (wants_dark (get_item (codes "konku.theme") entries) os) page
unfolding mount follow load apply
mount_lem entries os page =
    paint_lem _ page
    ∙ ap (λ b. in_theme b page) (is_dark_lem (get_item (codes "konku.theme") entries) os)

-- Where the store can be read, the script, before the first paint, brings the page into the theme
-- that is stored, the system's where that is neither light nor dark, with its class, its scheme and
-- the colour around it; and the provider leaves it so when it mounts, so nothing flips. Where the
-- store throws, the script paints nothing, and the provider then paints what the system asks for.
pub mount-boot :
    (entries : List Entry) (os : Bool) (page : Page)
    → let shown = in_theme (wants_dark (get_item (codes "konku.theme") entries) os) page in
      (boot (holding entries) os page ≡ shown)
      × ((mount (holding entries) os (boot (holding entries) os page)).page ≡ shown)
      × (boot unavailable os page ≡ page)
      × ((mount unavailable os (boot unavailable os page)).page ≡ in_theme os page)
mount-boot entries os page =
    let b = wants_dark (get_item (codes "konku.theme") entries) os in
    (
      boot_lem entries os page,
      mount_lem entries os (boot (holding entries) os page)
          ∙ ap (in_theme b) (boot_lem entries os page)
          ∙ in_theme_twice b page,
      unfold boot in refl,
      unfold mount follow boot load apply in paint_lem os page,
    )

-- What is on screen is the theme chosen, followed through to the system's preference, and the store
-- names it when it can.
pub record IsShown (p : Provider) : Type 0 where
  pub painted : p.page.dark_class ≡ is_dark p.theme p.os
  pub told : p.resolved ≡ p.page.dark_class
  pub follows : p.listening ≡ is_system p.theme
  pub remembered : (p.store ≡ unavailable) ⊎ (load p.store ≡ p.theme)

follow-IsShown :
    (p : Provider) → (p.store ≡ unavailable) ⊎ (load p.store ≡ p.theme) → IsShown (follow p)
unfolding follow apply paint
follow-IsShown p r = record { painted = refl; told = refl; follows = refl; remembered = r }

theme_of-word : (t : Theme) → theme_of (some (word t)) ≡ t
unfolding str_eq
theme_of-word light = refl
theme_of-word dark = refl
theme_of-word system = refl

load-stored : (t : Theme) (s : Store) → (stored t s ≡ unavailable) ⊎ (load (stored t s) ≡ t)
unfolding stored load str_eq
load-stored t unavailable = inl refl
load-stored t (holding entries) =
    inr (ap theme_of (get_item-set_item storage_key storage_key (word t) entries) ∙ theme_of-word t)

same_theme_sound : (t u : Theme) → same_theme t u ≡ true → t ≡ u
same_theme_sound light light e = refl
same_theme_sound dark dark e = refl
same_theme_sound system system e = refl
same_theme_sound light dark e = cc
same_theme_sound light system e = cc
same_theme_sound dark light e = cc
same_theme_sound dark system e = cc
same_theme_sound system light e = cc
same_theme_sound system dark e = cc

set_theme-IsShown : (t : Theme) (p : Provider) → IsShown p → IsShown (set_theme t p)
unfolding set_theme
set_theme-IsShown t p h = elim (Bool-cases (same_theme t p.theme)) [
  | inl e ↦
      let same = same_theme_sound t p.theme e in
      rw e (record {
        painted = h.painted ∙ ap (λ x. is_dark x p.os) (sym same);
        told = h.told;
        follows = h.follows ∙ ap is_system (sym same);
        remembered = load-stored t p.store;
      })
  | inr e ↦
      rw e
        (follow-IsShown (record p { theme = t; store = stored t p.store }) (load-stored t p.store))
]

dark_by : (t : Theme) (os now : Bool) → is_system t ≡ false → is_dark t os ≡ is_dark t now
dark_by light os now e = refl
dark_by dark os now e = refl
dark_by system os now e = cc

dark_system : (t : Theme) (os : Bool) → is_system t ≡ true → is_dark t os ≡ os
dark_system light os e = cc
dark_system dark os e = cc
dark_system system os e = refl

on_change-IsShown : (os : Bool) (p : Provider) → IsShown p → IsShown (on_change os p)
unfolding on_change apply paint
on_change-IsShown os p h = elim (Bool-cases p.listening) [
  | inl e ↦
      let at =
        ap
          (λ b.
            if b
            then record p { os = os; page = paint os p.page; resolved = os }
            else record p { os = os })
          e in
      subst IsShown (sym at) (record {
        painted = sym (dark_system p.theme os (sym h.follows ∙ e));
        told = refl;
        follows = h.follows;
        remembered = h.remembered;
      })
  | inr e ↦
      let at =
        ap
          (λ b.
            if b
            then record p { os = os; page = paint os p.page; resolved = os }
            else record p { os = os })
          e in
      subst IsShown (sym at) (record {
        painted = h.painted ∙ dark_by p.theme p.os os (sym h.follows ∙ e);
        told = h.told;
        follows = h.follows;
        remembered = h.remembered;
      })
]

handle-IsShown : (e : Event) (p : Provider) → IsShown p → IsShown (handle e p)
unfolding handle
handle-IsShown (chosen t) p h = set_theme-IsShown t p h
handle-IsShown (changed os) p h = on_change-IsShown os p h

handle_all-IsShown : (es : List Event) (p : Provider) → IsShown p → IsShown (handle_all es p)
unfolding handle_all
handle_all-IsShown [] p h = h
handle_all-IsShown (e ∷ es) p h = handle_all-IsShown es (handle e p) (handle-IsShown e p h)

-- After any choices and any changes of the system's preference, what is on screen is dark when the
-- theme is, the system's preference counting exactly under `system`; the setting says so; and a
-- reload comes back in the same theme when the store works.
pub runs-IsShown :
    (s : Store) (os : Bool) (page : Page) (es : List Event)
    → IsShown (handle_all es (mount s os page))
unfolding mount
runs-IsShown s os page es = handle_all-IsShown es _ (follow-IsShown _ (inr refl))
