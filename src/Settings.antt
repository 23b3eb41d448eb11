-- ===== src/Settings.antt =====
-- The preferences of the account: web/src/features/settings/useSettings.ts. The cache holds the
-- settings under their key and the user of the session under the session's.
pub mod Laws
pub mod Password
pub mod Removal
use konku.Common.{Bool, true, false, Text, codes, Option, none, some, List, [], ◌∷◌, if◌then◌else◌}
use konku.Auth.Cache.{name, Key, QueryClient}
use konku.Auth.SignOut.{me_query_key}
use konku.Client.{patch, json, Fetch, api}

abbrev pub settings_query_key : Key
settings_query_key = name (codes "settings") ∷ []

-- The parts of the two rows that the screens read here.
pub record Settings : Type 0 where
  pub rota_enabled : Bool
  pub locale : Option Text

pub record User : Type 0 where
  pub email : Text
  pub locale : Option Text

-- What the queries of this module hold; `null` is the user of nobody.
pub data Held : Type 0 where
  settings : Settings → Held
  me : Option User → Held

-- The body of the request is the JSON of the whole object.
unfoldable pub update_request : Text → Fetch
update_request body = api patch (codes "/settings") (json body)

-- `me ? { ...me, locale: saved.locale } : me`, which writes nothing where there is nothing.
abbrev pub with_locale : Option Text → Option Held → Option Held
with_locale locale none = none
with_locale locale (some (settings s)) = some (settings s)
with_locale locale (some (me none)) = some (me none)
with_locale locale (some (me (some user))) = some (me (some (record user { locale = locale })))

module _ (qc : QueryClient Held) where
  open qc use {Cache}

  -- `setQueryData` with an updater: an updater that gives `undefined` leaves the cache alone.
  abbrev pub write_if : Key → Option Held → Cache → Cache
  write_if key none c = c
  write_if key (some d) c = qc.set_query_data key d c

  unfoldable pub on_updated : Settings → Cache → Cache
  on_updated saved c =
      let written = qc.set_query_data settings_query_key (settings saved) c in
      write_if me_query_key (with_locale saved.locale (qc.read me_query_key written)) written
