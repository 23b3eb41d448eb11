-- ===== src/Locale/Laws.antt =====
-- The language that is shown, said and remembered, kept by every event.
use konku.Common.{
  ◌≡◌, ◌⊎◌, refl, sym, ap, ◌∙◌, inl, inr, Bool, str_eq, starts_with, none, some, List, [], ◌∷◌,
  Bool-cases,
}
use mathlib.Core.Path.{subst}
use konku.Common.Sets.{has}
use konku.Storage.{Store, unavailable, holding, is_swept, clear_account_storage}
use konku.Storage.Laws.{read, read-clear_account_storage, get_item-set_item}
use konku.Locale.{
  Locale, tag, as_locale, locale_key, Navigator, locale_of, cached_locale, boot_locale,
  remember_locale,
}
use konku.Locale.Provider.{
  load_catalog, landed, publish, render_with, App, resolved, same_locale, resolve, booted, Event,
  answered, signed_out, chunk, handle, handle_all, unloaded,
}
use konku.Locale.Sound.{
  IsSound, known, render_with-IsSound, settle-IsSound, fresh-IsAsked, mount-IsSound, switch_locale,
  mount_locale, settle_locale,
}

-- The store names the language that the app was told, when it can hold anything.
abbrev pub IsRemembered : Locale → Store → Type 0
IsRemembered l store = (store ≡ unavailable) ⊎ (cached_locale store ≡ some l)

remember_locale-IsRemembered : (l : Locale) (s : Store) → IsRemembered l (remember_locale l s)
unfolding remember_locale cached_locale as_locale str_eq
remember_locale-IsRemembered l unavailable = inl refl
remember_locale-IsRemembered l (holding entries) =
    inr (ap locale_of (get_item-set_item locale_key locale_key (tag l) entries) ∙ known l)

pub cached_locale_lem : (s : Store) → cached_locale s ≡ locale_of (read locale_key s)
unfolding cached_locale read
cached_locale_lem unavailable = refl
cached_locale_lem (holding entries) = refl

-- A sign-out keeps the language in the store.
clear-IsRemembered :
    (l : Locale) (s : Store) → IsRemembered l s → IsRemembered l (clear_account_storage s)
unfolding is_swept starts_with str_eq has
clear-IsRemembered l s (inl e) = inl (rw e (unfold clear_account_storage in refl))
clear-IsRemembered l s (inr e) = inr (
    cached_locale_lem (clear_account_storage s)
    ∙ ap locale_of (read-clear_account_storage locale_key s)
    ∙ sym (cached_locale_lem s)
    ∙ e)

abbrev pub IsKept : App → Type 0
IsKept a = IsSound a.provider × IsRemembered a.provider.locale a.store

resolve-IsKept : (a : App) → IsKept a → IsKept (resolve a)
unfolding resolve render_with publish
resolve-IsKept a (p, r) =
    elim (Bool-cases (same_locale (resolved a.me a.store a.browser) a.provider.locale)) [
      | inl e ↦ rw e (p, r)
      | inr e ↦ rw e (
        render_with-IsSound (resolved a.me a.store a.browser) a.provider p,
        subst (λ x. IsRemembered x (remember_locale (resolved a.me a.store a.browser) a.store))
            (sym (switch_locale (record a.provider { locale = resolved a.me a.store a.browser })))
            (remember_locale-IsRemembered (resolved a.me a.store a.browser) a.store),
      )
    ]

pub cleared :
    (a : App) → IsKept a → IsKept (record a { me = none; store = clear_account_storage a.store })
cleared a (p, r) = (p, clear-IsRemembered a.provider.locale a.store r)

handle-IsKept : (e : Event) (a : App) → IsKept a → IsKept (handle e a)
unfolding handle
handle-IsKept (answered me) a h = resolve-IsKept (record a { me = me }) h
handle-IsKept signed_out a h =
    resolve-IsKept (record a { me = none; store = clear_account_storage a.store }) (cleared a h)
handle-IsKept (chunk ok) a (p, r) = (
  settle-IsSound ok a.provider p,
  subst (λ x. IsRemembered x a.store) (sym (settle_locale ok a.provider)) r,
)

pub handle_all-IsKept : (es : List Event) (a : App) → IsKept a → IsKept (handle_all es a)
unfolding handle_all
handle_all-IsKept [] a h = h
handle_all-IsKept (e ∷ es) a h = handle_all-IsKept es (handle e a) (handle-IsKept e a h)

pub booted-IsKept : (ok : Bool) (s : Store) (b : Navigator) → IsKept (booted ok s b)
unfolding booted
booted-IsKept ok s b = (
  mount-IsSound (boot_locale s b) (landed ok (load_catalog (boot_locale s b) unloaded))
      (fresh-IsAsked (boot_locale s b) ok),
  subst (λ x. IsRemembered x (remember_locale (boot_locale s b) s))
      (sym (mount_locale (boot_locale s b) (landed ok (load_catalog (boot_locale s b) unloaded))))
      (remember_locale-IsRemembered (boot_locale s b) s),
)

-- After any run, from any store and browser and whether or not the first chunk arrived: what is
-- rendered is the copy of the language the app was told, or Indonesian while that copy is not in
-- memory; the page and the code outside React are told what is rendered; the English chunk has been
-- asked for once at most; and a store that works names the language for the next load.
pub runs-IsKept :
    (ok : Bool) (s : Store) (b : Navigator) (es : List Event)
    → IsKept (handle_all es (booted ok s b))
runs-IsKept ok s b es = handle_all-IsKept es (booted ok s b) (booted-IsKept ok s b)
