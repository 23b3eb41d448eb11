-- ===== src/Examples/Shell.antt =====
-- The shell of the app: its language, its theme, who sees it, and its previews.
use konku.Common.{
  ◌≡◌, refl, true, false, Text, codes, str_eq, List, [], ◌∷◌, none, some, All, ◌==◌, if◌then◌else◌,
}
use konku.Storage.{unavailable, holding, get_item}
use konku.Locale.{
  as_locale, cached_locale, first_known, tags, primary, lower_code, id, Navigator, navigator,
  boot_locale, browser_locale,
}
use konku.Locale.Provider.{
  mount, publish, switch, catalog_loaded, render_with, landed, load_catalog, resolve, resolved,
  Event, answered, signed_out, chunk, handle, handle_all, booted, in_air,
}
use konku.Locale.Laws.{IsKept, runs-IsKept}
use konku.Locale.Outcomes.{settled_for_good, unset_lem}
use konku.Theme
use konku.Theme.{Page, light, dark, system, paint, boot, chosen, changed}
use konku.Theme.Laws.{in_theme, mount-boot}
use konku.Peek.{Entry, Router, list_location, select, close}
use konku.Peek.Laws.{opens, opens-close, select-close}
use konku.Peek.AutoSelect.{IsId}
use konku.Client.{throws, Response, receive}
use konku.Gate.{User, Me, MeQuery, Result, returned, thrown, me_result, unreachable, gate}
use konku.Gate.Laws.{gate_error, guest_view}

-- A browser that asks for English before Indonesian.
abbrev english : Navigator
english = navigator (some (codes "en-GB" ∷ codes "id" ∷ [])) none

abbrev happened : List Event
happened = answered (some (some (codes "id"))) ∷ chunk true ∷ answered none ∷ signed_out ∷ []

runs-IsKept_example : IsKept (handle_all happened (booted false (holding []) english))
runs-IsKept_example = runs-IsKept false (holding []) english happened

-- The account asks for English in a browser that does not: the chunk is in the air.
abbrev asked : List Event
asked = answered (some (some (codes "en"))) ∷ []

abbrev indonesian : Navigator
indonesian = navigator none (some (codes "id-ID"))

asked_in_air :
    (handle_all asked (booted true unavailable indonesian)).provider.catalogs.loading ≡ in_air
unfolding handle_all handle booted resolve resolved boot_locale as_locale str_eq mount publish
    switch catalog_loaded cached_locale browser_locale first_known tags primary lower_code
    render_with landed load_catalog
asked_in_air = refl

settled_for_good_example :
    ((handle_all happened (
        handle
          (chunk false)
          (handle_all asked (booted true unavailable indonesian)))).provider.active
      ≡ id)
    × ((handle_all happened (
          handle
            (chunk false)
            (handle_all asked (booted true unavailable indonesian)))).provider.rendering
        ≡ (handle_all happened (
            handle
              (chunk false)
              (handle_all asked (booted true unavailable indonesian)))).provider.active)
    × ((handle_all happened (
          handle
            (chunk false)
            (handle_all asked (booted true unavailable indonesian)))).provider.catalogs.fetches
        ≡ 1)
settled_for_good_example =
    settled_for_good true false unavailable indonesian asked happened asked_in_air

unset_lem_example :
    ((handle
        (answered (some none))
        (handle_all happened (booted true (holding []) english))).provider
      ≡ (handle_all happened (booted true (holding []) english)).provider)
    × (boot_locale
          (handle
            (answered (some none))
            (handle_all happened (booted true (holding []) english))).store
          english
        ≡ (handle_all happened (booted true (holding []) english)).provider.locale)
unset_lem_example = unset_lem true [] english english happened (some none) refl

abbrev page : Page
page = record { dark_class = false; scheme = codes "light"; meta = some (codes "#f9fafb") }

abbrev entries : List (Text × Text)
entries = (codes "konku.theme", codes "dark") ∷ []

mount-boot_example :
    (boot (holding entries) false page ≡ in_theme true page)
    × ((Theme.mount (holding entries) false (boot (holding entries) false page)).page
        ≡ in_theme true page)
    × (boot unavailable false page ≡ page)
    × ((Theme.mount unavailable false (boot unavailable false page)).page ≡ in_theme false page)
unfolding get_item str_eq
mount-boot_example = mount-boot entries false page

-- A history that is the entry on screen and those behind it.
abbrev History : Type 0
History = Entry × List Entry

abbrev went_back : History → History
went_back (e, []) = (e, [])
went_back (e, f ∷ es) = (f, es)

pub here_went_back :
    (h : History) (e : Entry) (es : List Entry) → h.1 ≡ e ∷ es → (went_back h).0 ≡ e
here_went_back (x, []) e es h = cc
here_went_back (x, f ∷ fs) e es h = cc

pub behind_went_back :
    (h : History) (e : Entry) (es : List Entry) → h.1 ≡ e ∷ es → (went_back h).1 ≡ es
behind_went_back (x, []) e es h = cc
behind_went_back (x, f ∷ fs) e es h = cc

abbrev pub tab : Router
tab = record {
  History = History;
  here = λ h. h.0;
  behind = λ h. h.1;
  push = λ e h. (e, h.0 ∷ h.1);
  replace = λ e h. (e, h.1);
  back = went_back;
  here_push = λ e h. refl;
  behind_push = λ e h. refl;
  here_replace = λ e h. refl;
  behind_replace = λ e h. refl;
  here_back = here_went_back;
  behind_back = behind_went_back;
}

abbrev at : Text → Entry
at path = record { location = record { pathname = path; search = [] }; background = none }

-- The list of notes, come to from the home screen.
abbrev pub notes : History
notes = (at (codes "/notes"), at (codes "/home") ∷ [])

opens-close_example :
    (list_location (opens tab (codes "/notes/a" ∷ codes "/notes/b" ∷ []) notes).0
      ≡ notes.0.location)
    × ((close tab (opens tab (codes "/notes/a" ∷ codes "/notes/b" ∷ []) notes)).0 ≡ notes.0)
    × ((close tab (opens tab (codes "/notes/a" ∷ codes "/notes/b" ∷ []) notes)).1 ≡ notes.1)
opens-close_example = opens-close tab (codes "/notes/a") (codes "/notes/b" ∷ []) notes refl

select-close_example :
    ((close tab (opens tab (codes "/notes/b" ∷ []) (select tab (codes "/notes/a") notes))).0
      ≡ at (codes "/home"))
    × ((close tab (opens tab (codes "/notes/b" ∷ []) (select tab (codes "/notes/a") notes))).1 ≡ [])
select-close_example =
    select-close tab (codes "/notes/a") (codes "/notes/b" ∷ []) notes (at (codes "/home")) [] refl
      refl

ids_ok : All IsId (codes "a" ∷ codes "b" ∷ [])
ids_ok = ((refl, refl, refl), ((refl, refl, refl), tt))

-- A query that holds what it last came to, and a matching of exact paths.
abbrev settled : Result → Me → Me
settled (returned u) me = record { is_pending = false; error = false; answer = some u }
settled thrown me = record { is_pending = false; error = true; answer = me.answer }

abbrev query : MeQuery
query = record {
  State = Me;
  me = λ me. me;
  settle = settled;
  me_returned = λ u s. refl;
  me_thrown = λ s. refl;
}

abbrev waiting : Me
waiting = record { is_pending = true; error = false; answer = none }

abbrev refusal : Response User
refusal = record { ok = false; status = 401; json = throws; request_id_header = none }

gate_error_example :
    gate str_eq (settled (me_result (receive (codes "?") refusal)) waiting) notes.0
    ≡ (if refusal.status == 401 then guest_view str_eq notes.0.location.pathname else unreachable)
gate_error_example = gate_error str_eq query waiting (codes "?") refusal notes.0 refl
