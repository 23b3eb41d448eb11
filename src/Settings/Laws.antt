-- ===== src/Settings/Laws.antt =====
-- What a saved preference leaves in the cache, and the language that follows from it.
use konku.Common.{
  ◌≡◌, refl, sym, ap, ◌∙◌, inl, inr, true, false, Text, str_eq, str_eq_sound, ==_iff, Option, none,
  some, [], ◌∷◌, if◌then◌else◌, arith, Bool-cases,
}
use konku.Auth.Cache.{Key, Part, name, number, flag, same_part, same_key, QueryClient}
use konku.Auth.SignOut.{me_query_key}
use konku.Storage.{Store}
use konku.Locale.{Navigator, locale_of, or_else, boot_locale}
use konku.Locale.Provider.{resolved}
use konku.Settings.{
  settings_query_key, Settings, User, Held, settings, me, with_locale, write_if, on_updated,
}

same_part_sound : (a b : Part) → same_part a b ≡ true → a ≡ b
unfolding same_part
same_part_sound (name s) (name t) e = ap name (str_eq_sound s t e)
same_part_sound (number m) (number n) e = ap number ((==_iff m n).0 e)
same_part_sound (flag true) (flag true) e = refl
same_part_sound (flag false) (flag false) e = refl
same_part_sound (flag true) (flag false) e = cc
same_part_sound (flag false) (flag true) e = cc
same_part_sound (name s) (number n) e = cc
same_part_sound (name s) (flag b) e = cc
same_part_sound (number m) (name t) e = cc
same_part_sound (number m) (flag b) e = cc
same_part_sound (flag a) (name t) e = cc
same_part_sound (flag a) (number n) e = cc

same_key_sound : (k j : Key) → same_key k j ≡ true → k ≡ j
unfolding same_key
same_key_sound [] [] e = refl
same_key_sound (a ∷ k) (b ∷ j) e = ground (arith, same_part_sound a b, same_key_sound k j)
same_key_sound [] (b ∷ j) e = cc
same_key_sound (a ∷ k) [] e = cc

me_is_me : same_key me_query_key me_query_key ≡ true
unfolding same_key same_part str_eq
me_is_me = refl

abbrev held_or : Option Held → Option Held → Option Held
held_or none o = o
held_or (some d) o = some d

with_locale_or :
    (locale : Option Text) (o : Option Held)
    → held_or (with_locale locale o) o ≡ with_locale locale o
with_locale_or locale none = refl
with_locale_or locale (some (settings s)) = refl
with_locale_or locale (some (me none)) = refl
with_locale_or locale (some (me (some user))) = refl

me_is_not_settings : same_key settings_query_key me_query_key ≡ false
unfolding same_key same_part str_eq
me_is_not_settings = refl

module _ (qc : QueryClient Held) where
  open qc use {Cache}

  written_lem :
      (key : Key) (c : Cache) (held : Option Held)
      → qc.read key (write_if qc me_query_key held c)
        ≡ (if same_key me_query_key key then held_or held (qc.read key c) else qc.read key c)
  written_lem key c none = ground arith
  written_lem key c (some d) = qc.read_set me_query_key key d c

  -- After a save the cache holds the saved settings; the session's user, where one is held, is the
  -- same but for the language, which is the saved one; and every other query holds what it held.
  pub on_updated_lem :
      (saved : Settings) (c : Cache) (key : Key)
      → qc.read key (on_updated qc saved c) ≡ (
          if same_key me_query_key key
          then with_locale saved.locale (qc.read me_query_key c)
          else if same_key settings_query_key key
          then some (settings saved)
          else qc.read key c)
  unfolding on_updated
  on_updated_lem saved c key =
      let written = qc.set_query_data settings_query_key (settings saved) c in
      let at : qc.read me_query_key written ≡ qc.read me_query_key c =
        qc.read_set settings_query_key me_query_key (settings saved) c
        ∙ rw me_is_not_settings refl in
      ap (λ o. qc.read key (write_if qc me_query_key (with_locale saved.locale o) written)) at
      ∙ written_lem key written (with_locale saved.locale (qc.read me_query_key c))
      ∙ elim (Bool-cases (same_key me_query_key key)) [
        | inl e ↦ rw e (
            ap
              (λ k. held_or (with_locale saved.locale (qc.read me_query_key c)) (qc.read k written))
              (sym (same_key_sound me_query_key key e))
            ∙ ap (held_or (with_locale saved.locale (qc.read me_query_key c))) at
            ∙ with_locale_or saved.locale (qc.read me_query_key c))
        | inr e ↦ rw e (qc.read_set settings_query_key key (settings saved) c)
      ]

-- What `AppLocale` reads of the cache: the setting of the session's user, where there is one.
abbrev pub setting_of : Option Held → Option (Option Text)
setting_of none = none
setting_of (some (settings s)) = none
setting_of (some (me none)) = none
setting_of (some (me (some user))) = some user.locale

-- A language saved in the preferences is the language that the app resolves to at once, and no saved
-- language leaves the answer of the browser, for a user who is signed in.
pub saved_language :
    (qc : QueryClient Held) (saved : Settings) (user : User) (c : qc.Cache) (store : Store)
    (browser : Navigator)
    → qc.read me_query_key c ≡ some (me (some user))
    → resolved (setting_of (qc.read me_query_key (on_updated qc saved c))) store browser
      ≡ or_else (locale_of saved.locale) (boot_locale store browser)
unfolding resolved
saved_language qc saved user c store browser e =
    let written : qc.read me_query_key (on_updated qc saved c)
        ≡ with_locale saved.locale (qc.read me_query_key c) =
      on_updated_lem qc saved c me_query_key ∙ rw me_is_me refl in
    ap (λ o. resolved (setting_of o) store browser) (written ∙ ap (with_locale saved.locale) e)
