-- ===== src/Locale/Outcomes.antt =====
-- What a sign-out, a reload and a chunk that settles leave of the language.
use konku.Common.{
  ℕ, Text, ◌≡◌, refl, sym, ap, ◌∙◌, inl, inr, Bool, true, false, ◌||◌, none, some, List, [], ◌∷◌,
  if◌then◌else◌, arith, Bool-cases, Option,
}
use mathlib.Core.Path.{subst}
use konku.Storage.{Entry, Store, unavailable, holding, clear_account_storage}
use konku.Locale.{
  Locale, id, en, locale_of, or_else, Navigator, cached_locale, boot_locale, remember_locale,
}
use konku.Locale.Provider.{
  Loading, absent, in_air, rejected, Catalogs, catalog_loaded, load_catalog, landed, copy_for,
  Provider, switch, publish, render_with, settle, App, account, resolved, same_locale, resolve,
  booted, Event, answered, signed_out, chunk, handle, handle_all,
}
use konku.Locale.Sound.{true-false, indonesian, IsAsked, IsSound}
use konku.Locale.Laws.{IsKept, handle_all-IsKept, booted-IsKept, cleared}

abbrev usable : Store → Bool
usable unavailable = false
usable (holding entries) = true

usable-remember_locale : (l : Locale) (s : Store) → usable (remember_locale l s) ≡ usable s
unfolding remember_locale
usable-remember_locale l unavailable = refl
usable-remember_locale l (holding entries) = refl

usable-clear : (s : Store) → usable (clear_account_storage s) ≡ usable s
unfolding clear_account_storage
usable-clear unavailable = refl
usable-clear (holding entries) = refl

usable-resolve : (a : App) → usable (resolve a).store ≡ usable a.store
unfolding resolve
usable-resolve a =
    elim (Bool-cases (same_locale (resolved a.me a.store a.browser) a.provider.locale)) [
      | inl e ↦ rw e refl
      | inr e ↦ rw e (usable-remember_locale (resolved a.me a.store a.browser) a.store)
    ]

usable-handle_all : (es : List Event) (a : App) → usable (handle_all es a).store ≡ usable a.store
unfolding handle_all handle
usable-handle_all [] a = refl
usable-handle_all (answered me ∷ es) a =
    usable-handle_all es _ ∙ usable-resolve (record a { me = me })
usable-handle_all (signed_out ∷ es) a =
    usable-handle_all es _ ∙ usable-resolve _ ∙ usable-clear a.store
usable-handle_all (chunk ok ∷ es) a = usable-handle_all es _

remembered :
    (a : App) → IsKept a → usable a.store ≡ true → cached_locale a.store ≡ some a.provider.locale
remembered a (p, inl e) u = absurd (true-false (sym u ∙ ap usable e))
remembered a (p, inr e) u = e

same_locale_refl : (l : Locale) → same_locale l l ≡ true
same_locale_refl id = refl
same_locale_refl en = refl

boot_cached :
    (s : Store) (b : Navigator) (l : Locale) → cached_locale s ≡ some l → boot_locale s b ≡ l
unfolding boot_locale
boot_cached s b l e = rw e refl

resolve_same : (a : App) → resolved a.me a.store a.browser ≡ a.provider.locale → resolve a ≡ a
unfolding resolve
resolve_same a e = rw (e, same_locale_refl a.provider.locale) refl

usable-booted : (ok : Bool) (s : Store) (b : Navigator) → usable (booted ok s b).store ≡ usable s
unfolding booted
usable-booted ok s b = usable-remember_locale (boot_locale s b) s

-- An account that names no language, because it never chose one or was set to follow the browser, or
-- no account at all, leaves the language as it was, on this screen and on the next load, whatever
-- language a browser asks for, when the store works: the store's hint of the last language outranks
-- the browser.
pub unset_lem :
    (ok : Bool) (entries : List Entry) (b next : Navigator) (es : List Event)
    (me : Option (Option Text))
    → locale_of (account me) ≡ none
    → let a = handle_all es (booted ok (holding entries) b) in
      ((handle (answered me) a).provider ≡ a.provider)
      × (boot_locale (handle (answered me) a).store next ≡ a.provider.locale)
unfolding handle resolved
unset_lem ok entries b next es me unset =
    let a = handle_all es (booted ok (holding entries) b) in
    let kept : IsKept a = handle_all-IsKept es _ (booted-IsKept ok (holding entries) b) in
    let u : usable a.store ≡ true = usable-handle_all es _ ∙ usable-booted ok (holding entries) b in
    let known : cached_locale a.store ≡ some a.provider.locale = remembered a kept u in
    let same : resolve (record a { me = me }) ≡ record a { me = me } =
      resolve_same (record a { me = me })
        (ap (λ o. or_else o (boot_locale a.store a.browser)) unset
          ∙ boot_cached a.store a.browser a.provider.locale known) in
    (
      ap (λ x. x.provider) same,
      ap (λ x. boot_locale x.store next) same ∙ boot_cached a.store next a.provider.locale known,
    )

-- A sign-out leaves the language as it was, on this screen and on the next load, in any browser,
-- when the store works.
pub signed_out_lem :
    (ok : Bool) (entries : List Entry) (b next : Navigator) (es : List Event)
    → let a = handle_all es (booted ok (holding entries) b) in
      ((handle signed_out a).provider ≡ a.provider)
      × (boot_locale (handle signed_out a).store next ≡ a.provider.locale)
unfolding handle resolved
signed_out_lem ok entries b next es =
    let a = handle_all es (booted ok (holding entries) b) in
    let c = clear_account_storage a.store in
    let kept : IsKept (record a { me = none; store = c }) =
      cleared a (handle_all-IsKept es _ (booted-IsKept ok (holding entries) b)) in
    let u : usable c ≡ true =
      usable-clear a.store ∙ usable-handle_all es _ ∙ usable-booted ok (holding entries) b in
    let known : cached_locale c ≡ some a.provider.locale =
      remembered (record a { me = none; store = c }) kept u in
    let same : resolve (record a { me = none; store = c }) ≡ record a { me = none; store = c } =
      resolve_same (record a { me = none; store = c }) (boot_cached c a.browser _ known) in
    (
      ap (λ x. x.provider) same,
      ap (λ x. boot_locale x.store next) same ∙ boot_cached c next _ known,
    )

-- What has come of the English chunk: it is in memory, or its promise was rejected.
abbrev Settled : Bool → Catalogs → Type 0
Settled true c = c.english ≡ true
Settled false c = (c.english ≡ false) × (c.loading ≡ rejected)

abbrev is_indonesian : Locale → Bool
is_indonesian id = true
is_indonesian en = false

catalog_loaded_lem :
    (l : Locale) (c : Catalogs) → catalog_loaded l c ≡ (is_indonesian l || c.english)
unfolding catalog_loaded
catalog_loaded_lem id c = refl
catalog_loaded_lem en c = refl

switch-Settled :
    (ok : Bool) (p : Provider)
    → Settled ok p.catalogs
    → Settled ok (publish (switch p)).catalogs
      × ((publish (switch p)).catalogs.fetches ≡ p.catalogs.fetches)
unfolding publish switch load_catalog
switch-Settled true p h = ground (arith, catalog_loaded_lem p.locale p.catalogs)
switch-Settled false p h = ground (arith, catalog_loaded_lem p.locale p.catalogs)

abbrev AreSettled : Bool → ℕ → Catalogs → Type 0
AreSettled ok n c = Settled ok c × (c.fetches ≡ n)

resolve-AreSettled :
    (ok : Bool) (n : ℕ) (a : App)
    → AreSettled ok n a.provider.catalogs
    → AreSettled ok n (resolve a).provider.catalogs
unfolding resolve render_with
resolve-AreSettled ok n a (h, f) =
    elim (Bool-cases (same_locale (resolved a.me a.store a.browser) a.provider.locale)) [
      | inl e ↦ rw e (h, f)
      | inr e ↦ rw e (
          let two =
            switch-Settled ok (record a.provider { locale = resolved a.me a.store a.browser }) h in
          (two.0, two.1 ∙ f))
    ]

settle_catalogs : (ok : Bool) (p : Provider) → (settle ok p).catalogs ≡ landed ok p.catalogs
unfolding settle publish landed
settle_catalogs ok p = ground arith

landed-Settled :
    (ok arrived english : Bool) (loading : Loading) (fetches : ℕ)
    → let c : Catalogs = record { english = english; loading = loading; fetches = fetches } in
      Settled ok c → Settled ok (landed arrived c) × ((landed arrived c).fetches ≡ fetches)
unfolding landed
landed-Settled ok arrived e absent f h = (h, refl)
landed-Settled ok arrived e rejected f h = (h, refl)
landed-Settled true true e in_air f h = (refl, refl)
landed-Settled true false e in_air f h = (h, refl)
landed-Settled false arrived e in_air f h = ground arith

landed-IsAsked :
    (ok english : Bool) (fetches : ℕ)
    → let c : Catalogs = record { english = english; loading = in_air; fetches = fetches } in
      IsAsked c → Settled ok (landed ok c) × ((landed ok c).fetches ≡ 1)
unfolding landed
landed-IsAsked ok true f (h, g) = absurd (true-false g)
landed-IsAsked true false f (h, g) = (refl, h)
landed-IsAsked false false f (h, g) = ((refl, refl), h)

handle_all-AreSettled :
    (ok : Bool) (n : ℕ) (es : List Event) (a : App)
    → AreSettled ok n a.provider.catalogs
    → AreSettled ok n (handle_all es a).provider.catalogs
unfolding handle_all handle
handle_all-AreSettled ok n [] a h = h
handle_all-AreSettled ok n (answered me ∷ es) a h =
    handle_all-AreSettled ok n es _ (resolve-AreSettled ok n (record a { me = me }) h)
handle_all-AreSettled ok n (signed_out ∷ es) a h =
    handle_all-AreSettled ok n es _ (resolve-AreSettled ok n _ h)
handle_all-AreSettled ok n (chunk arrived ∷ es) a (h, f) =
    let c = a.provider.catalogs in
    let two = landed-Settled ok arrived c.english c.loading c.fetches h in
    handle_all-AreSettled ok n es _
      (subst (AreSettled ok n) (sym (settle_catalogs arrived a.provider)) (two.0, two.1 ∙ f))

chunk-AreSettled :
    (ok : Bool) (a : App)
    → IsSound a.provider
    → a.provider.catalogs.loading ≡ in_air
    → AreSettled ok 1 (handle (chunk ok) a).provider.catalogs
unfolding handle
chunk-AreSettled ok a h e =
    let c = a.provider.catalogs in
    let flying : c ≡ record c { loading = in_air } = ap (λ ld. record c { loading = ld }) e in
    subst (AreSettled ok 1) (sym (settle_catalogs ok a.provider ∙ ap (landed ok) flying))
      (landed-IsAsked ok c.english c.fetches (subst IsAsked flying h.once))

shown-Settled :
    (ok : Bool) (p : Provider)
    → IsSound p
    → Settled ok p.catalogs
    → p.active ≡ (if ok then p.locale else id)
unfolding copy_for
shown-Settled true p h s = ground (arith, h.shown, catalog_loaded_lem p.locale p.catalogs)
shown-Settled false p h s = h.shown ∙ indonesian p.locale p.catalogs s.0

-- Once the chunk in the air has settled, what is on screen is decided for good, whatever happens
-- after: when it arrived, the language that the app is told is the one that is rendered; when it was
-- lost, Indonesian is rendered whatever language the app is told, and the chunk is never asked for
-- again.
pub settled_for_good :
    (first ok : Bool) (s : Store) (b : Navigator) (before after : List Event)
    → let a = handle_all before (booted first s b) in
      let c = handle_all after (handle (chunk ok) a) in
      a.provider.catalogs.loading ≡ in_air
      → (c.provider.active ≡ (if ok then c.provider.locale else id))
        × (c.provider.rendering ≡ c.provider.active)
        × (c.provider.catalogs.fetches ≡ 1)
unfolding handle handle_all
settled_for_good first ok s b before after e =
    let a = handle_all before (booted first s b) in
    let c = handle_all after (handle (chunk ok) a) in
    let kept : IsKept a = handle_all-IsKept before _ (booted-IsKept first s b) in
    let then_kept : IsKept c = handle_all-IsKept (chunk ok ∷ after) a kept in
    let done = handle_all-AreSettled ok 1 after _ (chunk-AreSettled ok a kept.0 e) in
    (shown-Settled ok c.provider then_kept.0 done.0, then_kept.0.told, done.1)
