-- ===== src/Locale/Provider.antt =====
-- The catalogs in memory and the provider that renders one of them (web/src/i18n/index.tsx), under
-- the resolution of web/src/i18n/AppLocale.tsx and after the boot of web/src/main.tsx. A promise
-- that settles runs what waits on it in the same step.
use konku.Common.{ℕ, suc, Bool, true, false, Text, Option, none, some, List, [], ◌∷◌, if◌then◌else◌}
use konku.Storage.{Store, clear_account_storage}
use konku.Locale.{Locale, id, en, Navigator, locale_of, or_else, boot_locale, remember_locale}

-- The entry of `loading` for English: none, a promise in the air, or a rejected one. Only the
-- success of a load takes its entry out.
pub data Loading : Type 0 where
  absent in_air rejected : Loading

-- The module's own variables: whether `loaded.en` is there, the entry of `loading`, and how many
-- times the chunk was asked for.
pub record Catalogs : Type 0 where
  pub english : Bool
  pub loading : Loading
  pub fetches : ℕ

abbrev pub unloaded : Catalogs
unloaded = record { english = false; loading = absent; fetches = 0 }

unfoldable pub catalog_loaded : Locale → Catalogs → Bool
catalog_loaded id c = true
catalog_loaded en c = c.english

abbrev pub load_missing : Loading → Catalogs → Catalogs
load_missing absent c = record c { loading = in_air; fetches = suc c.fetches }
load_missing in_air c = c
load_missing rejected c = c

unfoldable pub load_catalog : Locale → Catalogs → Catalogs
load_catalog l c = if catalog_loaded l c then c else load_missing c.loading c

abbrev pub landed_by : Loading → Bool → Catalogs → Catalogs
landed_by in_air true c = record c { english = true; loading = absent }
landed_by in_air false c = record c { loading = rejected }
landed_by absent ok c = c
landed_by rejected ok c = c

-- The chunk in the air arrives or is lost.
unfoldable pub landed : Bool → Catalogs → Catalogs
landed ok c = landed_by c.loading ok c

-- The locale whose copy `copyFor` gives.
unfoldable pub copy_for : Locale → Catalogs → Locale
copy_for l c = if catalog_loaded l c then l else id

-- The provider: its prop, its state, whether its effect waits on the load, and what it publishes
-- to the page and to code outside React.
pub record Provider : Type 0 where
  pub locale : Locale
  pub active : Locale
  pub awaiting : Bool
  pub lang : Locale
  pub rendering : Locale
  pub catalogs : Catalogs

abbrev pub flies : Loading → Bool
flies in_air = true
flies absent = false
flies rejected = false

-- The effect on the prop. Running it again first cancels what the last one waits on.
unfoldable pub switch : Provider → Provider
switch p =
    let asked = load_catalog p.locale p.catalogs in
    if catalog_loaded p.locale p.catalogs
    then record p { active = p.locale; awaiting = false }
    else record p { catalogs = asked; awaiting = flies asked.loading }

-- The effect on the state.
unfoldable pub publish : Provider → Provider
publish p = record p { lang = p.active; rendering = p.active }

-- `index.html` ships with `lang="id"`.
unfoldable pub mount : Locale → Catalogs → Provider
mount l c = publish (
    switch (record {
      locale = l;
      active = copy_for l c;
      awaiting = false;
      lang = id;
      rendering = id;
      catalogs = c;
    }))

unfoldable pub render_with : Locale → Provider → Provider
render_with l p = publish (switch (record p { locale = l }))

-- What runs on the provider when the load settles.
unfoldable pub settle : Bool → Provider → Provider
settle ok p =
    let arrived = record p { catalogs = landed ok p.catalogs; awaiting = false } in
    if flies p.catalogs.loading
    then (if p.awaiting
        then (if ok then publish (record arrived { active = p.locale }) else arrived)
        else arrived)
    else p

-- The app: `me` is the account's setting, none while no account is known, `some none` for an
-- account that has never chosen.
pub record App : Type 0 where
  pub store : Store
  pub browser : Navigator
  pub me : Option (Option Text)
  pub provider : Provider

abbrev pub account : Option (Option Text) → Option Text
account none = none
account (some setting) = setting

unfoldable pub resolved : Option (Option Text) → Store → Navigator → Locale
resolved me store browser = or_else (locale_of (account me)) (boot_locale store browser)

abbrev pub same_locale : Locale → Locale → Bool
same_locale id id = true
same_locale en en = true
same_locale id en = false
same_locale en id = false

-- A render of `AppLocale`; its effect and the provider's run when the locale is another.
unfoldable pub resolve : App → App
resolve a =
    let l = resolved a.me a.store a.browser in
    if same_locale l a.provider.locale
    then a
    else record a { store = remember_locale l a.store; provider = render_with l a.provider }

-- `main.tsx`: the chunk the first paint needs has arrived or is lost when React mounts.
unfoldable pub booted : Bool → Store → Navigator → App
booted ok store browser =
    let l = boot_locale store browser in
    record {
      store = remember_locale l store;
      browser = browser;
      me = none;
      provider = mount l (landed ok (load_catalog l unloaded));
    }

-- The answer of `/auth/me` or a setting that was changed, a sign-out, a chunk that settles.
pub data Event : Type 0 where
  answered : Option (Option Text) → Event
  signed_out : Event
  chunk : Bool → Event

unfoldable pub handle : Event → App → App
handle (answered me) a = resolve (record a { me = me })
handle signed_out a = resolve (record a { me = none; store = clear_account_storage a.store })
handle (chunk ok) a = record a { provider = settle ok a.provider }

unfoldable pub handle_all : List Event → App → App
handle_all [] a = a
handle_all (e ∷ es) a = handle_all es (handle e a)
