-- ===== src/Locale/Sound.antt =====
-- The provider of a language: what it renders, says and asks for, kept by its operations.
use konku.Common.{
  ℕ, ◌≡◌, ◌⊎◌, refl, sym, ◌∙◌, inl, inr, Bool, true, false, ◌&&◌, str_eq, some, arith, Bool-cases,
}
use konku.Locale.{Locale, id, en, tag, as_locale}
use konku.Locale.Provider.{
  Loading, absent, in_air, rejected, Catalogs, catalog_loaded, load_catalog, landed, copy_for,
  Provider, flies, switch, publish, mount, render_with, settle, unloaded,
}

-- How often the chunk has been asked for, by what came of it.
abbrev pub asked : Bool → Loading → ℕ
asked false absent = 0
asked false in_air = 1
asked false rejected = 1
asked true absent = 1
asked true in_air = 1
asked true rejected = 1

abbrev pub IsAsked : Catalogs → Type 0
IsAsked c = (c.fetches ≡ asked c.english c.loading) × ((c.english && flies c.loading) ≡ false)

abbrev wants : Locale → Bool
wants id = false
wants en = true

-- A provider renders the copy of its prop when that is in memory and Indonesian otherwise, says so
-- to the page and to code outside React, waits on the chunk in the air when it is the prop's, and
-- has asked for it once at most.
pub record IsSound (p : Provider) : Type 0 where
  pub shown : p.active ≡ copy_for p.locale p.catalogs
  pub said : p.lang ≡ p.active
  pub told : p.rendering ≡ p.active
  pub waits : p.awaiting ≡ (wants p.locale && flies p.catalogs.loading)
  pub once : IsAsked p.catalogs

pub true-false : ¬ (true ≡ false)
true-false e = cc

pub indonesian : (l : Locale) (c : Catalogs) → c.english ≡ false → copy_for l c ≡ id
unfolding copy_for catalog_loaded
indonesian id c e = refl
indonesian en c e = rw e refl

copied : (l : Locale) (c : Catalogs) → (copy_for l c ≡ id) ⊎ (c.english ≡ true)
copied l c = elim (Bool-cases c.english) [ inl e ↦ inr e | inr e ↦ inl (indonesian l c e) ]

pub known : (l : Locale) → as_locale (tag l) ≡ some l
unfolding as_locale str_eq
known id = refl
known en = refl

-- What the two effects make of a provider with given fields.
settled :
    (l a m r : Locale) (w english : Bool) (loading : Loading) (fetches : ℕ)
    → IsAsked (record { english = english; loading = loading; fetches = fetches })
    → (a ≡ id) ⊎ (english ≡ true)
    → IsSound (
        publish (
          switch (record {
            locale = l;
            active = a;
            awaiting = w;
            lang = m;
            rendering = r;
            catalogs = record { english = english; loading = loading; fetches = fetches };
          })))
unfolding publish switch load_catalog catalog_loaded copy_for
settled id a m r w true ld f h g = record {
  shown = refl;
  said = refl;
  told = refl;
  waits = refl;
  once = h;
}
settled id a m r w false ld f h g = record {
  shown = refl;
  said = refl;
  told = refl;
  waits = refl;
  once = h;
}
settled en a m r w true ld f h g = record {
  shown = refl;
  said = refl;
  told = refl;
  waits = ground arith;
  once = h;
}
settled en a m r w false absent f h g = record {
  shown = ground arith;
  said = refl;
  told = refl;
  waits = refl;
  once = ground arith;
}
settled en a m r w false in_air f h g = record {
  shown = ground arith;
  said = refl;
  told = refl;
  waits = refl;
  once = h;
}
settled en a m r w false rejected f h g = record {
  shown = ground arith;
  said = refl;
  told = refl;
  waits = refl;
  once = h;
}

landing :
    (l a m r : Locale) (w english : Bool) (loading : Loading) (fetches : ℕ) (ok : Bool)
    → IsSound (record {
      locale = l;
      active = a;
      awaiting = w;
      lang = m;
      rendering = r;
      catalogs = record { english = english; loading = loading; fetches = fetches };
    })
    → IsSound (
        settle ok (record {
          locale = l;
          active = a;
          awaiting = w;
          lang = m;
          rendering = r;
          catalogs = record { english = english; loading = loading; fetches = fetches };
        }))
unfolding settle landed publish copy_for catalog_loaded
landing l a m r w e absent f ok h = h
landing l a m r w e rejected f ok h = h
landing l a m r w true in_air f ok h = absurd (true-false h.once.1)
landing id a m r true false in_air f ok h = absurd (true-false h.waits)
landing en a m r false false in_air f ok h = absurd (true-false (sym h.waits))
landing id a m r false false in_air f true h = record {
  shown = h.shown;
  said = h.said;
  told = h.told;
  waits = refl;
  once = h.once;
}
landing id a m r false false in_air f false h = record {
  shown = h.shown;
  said = h.said;
  told = h.told;
  waits = refl;
  once = h.once;
}
landing en a m r true false in_air f true h = record {
  shown = refl;
  said = refl;
  told = refl;
  waits = refl;
  once = h.once;
}
landing en a m r true false in_air f false h = record {
  shown = h.shown;
  said = h.said;
  told = h.told;
  waits = refl;
  once = h.once;
}

-- A provider that is sound shows Indonesian, or English is in memory.
shown_loaded : (p : Provider) → IsSound p → (p.active ≡ id) ⊎ (p.catalogs.english ≡ true)
unfolding copy_for catalog_loaded
shown_loaded p h = elim (Bool-cases p.catalogs.english) [
  | inl e ↦ inr e
  | inr e ↦ inl (h.shown ∙ indonesian p.locale p.catalogs e)
]

pub render_with-IsSound : (l : Locale) (p : Provider) → IsSound p → IsSound (render_with l p)
unfolding render_with
render_with-IsSound l p h =
    settled l p.active p.lang p.rendering p.awaiting p.catalogs.english p.catalogs.loading
      p.catalogs.fetches h.once (shown_loaded p h)

pub settle-IsSound : (ok : Bool) (p : Provider) → IsSound p → IsSound (settle ok p)
settle-IsSound ok p h =
    landing p.locale p.active p.lang p.rendering p.awaiting p.catalogs.english p.catalogs.loading
      p.catalogs.fetches ok h

pub fresh-IsAsked : (l : Locale) (ok : Bool) → IsAsked (landed ok (load_catalog l unloaded))
unfolding landed load_catalog catalog_loaded
fresh-IsAsked id ok = (refl, refl)
fresh-IsAsked en true = (refl, refl)
fresh-IsAsked en false = (refl, refl)

pub mount-IsSound : (l : Locale) (c : Catalogs) → IsAsked c → IsSound (mount l c)
unfolding mount
mount-IsSound l c h =
    settled l (copy_for l c) id id false c.english c.loading c.fetches h (copied l c)

pub switch_locale : (p : Provider) → (publish (switch p)).locale ≡ p.locale
unfolding publish switch
switch_locale p = elim (Bool-cases (catalog_loaded p.locale p.catalogs)) [
  | inl e ↦ rw e refl
  | inr e ↦ rw e refl
]

pub mount_locale : (l : Locale) (c : Catalogs) → (mount l c).locale ≡ l
unfolding mount
mount_locale l c = switch_locale _

pub settle_locale : (ok : Bool) (p : Provider) → (settle ok p).locale ≡ p.locale
unfolding settle publish
settle_locale ok p = ground arith
