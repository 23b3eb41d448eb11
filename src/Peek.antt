-- ===== src/Peek.antt =====
-- Previews over a list, which are addresses: web/src/lib/peek-route.tsx, and the locations that
-- web/src/App.tsx renders the list and the preview by. The session history and `navigate` are the
-- router's, a `Router`, whose laws state what the history of a tab is documented to do.
pub mod Laws
pub mod AutoSelect
use konku.Common.{
  ℕ, ◌≡◌, Bool, true, false, ◌&&◌, Text, codes, str_eq, truthy, starts_with, Option, none, some,
  List, [], ◌∷◌, ◌++◌, length, drop, exists, ◌==◌, if◌then◌else◌,
}
use konku.Common.Sets.{has}
use konku.Queries.Keys.{join}

-- The serialisable part of a location.
pub record Background : Type 0 where
  pub pathname : Text
  pub search : Text

-- A history entry: its location, and the `peekBackground` of its state.
pub record Entry : Type 0 where
  pub location : Background
  pub background : Option Background

-- The history of the tab: the entry on screen and those behind it, the nearest first. Going back
-- where nothing is behind is left open.
pub record Router : Type 1 where
  pub History : Type 0
  pub here : History → Entry
  pub behind : History → List Entry
  pub push : Entry → History → History
  pub replace : Entry → History → History
  pub back : History → History
  pub here_push : (e : Entry) (h : History) → here (push e h) ≡ e
  pub behind_push : (e : Entry) (h : History) → behind (push e h) ≡ here h ∷ behind h
  pub here_replace : (e : Entry) (h : History) → here (replace e h) ≡ e
  pub behind_replace : (e : Entry) (h : History) → behind (replace e h) ≡ behind h
  pub here_back :
      (h : History) (e : Entry) (es : List Entry) → behind h ≡ e ∷ es → here (back h) ≡ e
  pub behind_back :
      (h : History) (e : Entry) (es : List Entry) → behind h ≡ e ∷ es → behind (back h) ≡ es

-- The context that `App` gives, by the entry on screen.
abbrev pub path_over : Option Background → Text → Option Text
path_over none path = none
path_over (some b) path = some path

unfoldable pub peeked_path : Entry → Option Text
peeked_path e = path_over e.background e.location.pathname

-- The location that `<Routes>` renders the list by, and so the one that the list sees.
abbrev pub or_location : Option Background → Background → Background
or_location none location = location
or_location (some b) location = b

unfoldable pub list_location : Entry → Background
list_location e = or_location e.background e.location

abbrev slash : ℕ
slash = 47

-- `rest && !rest.includes('/') ? rest : null`.
unfoldable pub direct_child : Text → Option Text
direct_child rest =
    if truthy rest then (if exists (λ c. c == slash) rest then none else some rest) else none

abbrev pub id_under : Text → Option Text → Option Text
id_under prefix none = none
id_under prefix (some path) =
    if starts_with prefix path then direct_child (drop (length prefix) path) else none

unfoldable pub peeked_id : Text → Entry → Option Text
peeked_id prefix e = id_under prefix (peeked_path e)

-- The entry that a preview of `to` navigates to, over the list that `e` shows.
unfoldable pub preview : Text → Entry → Entry
preview to e = record {
  location = record { pathname = to; search = [] };
  background = some (list_location e);
}

abbrev is_some : Option Text → Bool
is_some none = false
is_some (some t) = true

-- `options?.replace ?? peekedPath !== null`.
abbrev pub or_peeking : Option Bool → Option Text → Bool
or_peeking none path = is_some path
or_peeking (some replace) path = replace

abbrev pub home : Entry
home = record { location = record { pathname = codes "/home"; search = [] }; background = none }

-- `key ? key.split(',') : []`.
abbrev comma : ℕ
comma = 44

abbrev pub push_onto : ℕ → List Text → List Text
push_onto c [] = (c ∷ []) ∷ []
push_onto c (t ∷ ts) = (c ∷ t) ∷ ts

unfoldable pub split_commas : Text → List Text
split_commas [] = [] ∷ []
split_commas (c ∷ s) =
    let rest = split_commas s in if c == comma then [] ∷ rest else push_onto c rest

unfoldable pub listed : Text → List Text
listed key = if truthy key then split_commas key else []

abbrev pub is_open : Option Text → List Text → Bool
is_open none list = false
is_open (some id) list = truthy id && has id list

module _ (router : Router) where
  open router use {History}

  unfoldable pub open_peek : Text → Option Bool → History → History
  open_peek to replace h =
      if or_peeking replace (peeked_path (router.here h))
      then router.replace (preview to (router.here h)) h
      else router.push (preview to (router.here h)) h

  unfoldable pub select : Text → History → History
  select to h = router.replace (preview to (router.here h)) h

  abbrev pub close_by : Option Background → History → History
  close_by none h = router.push home h
  close_by (some b) h = router.back h

  unfoldable pub close : History → History
  close h = close_by (router.here h).background h

  abbrev pub select_first : (Text → Text) → Option Text → List Text → History → History
  select_first to_path peeked [] h = h
  select_first to_path peeked (id ∷ ids) h =
      if is_open peeked (id ∷ ids) then h else select (to_path id) h

  -- The effect of `useAutoSelect`, whose `peekedId` is that of `usePeekedId(prefix)`.
  unfoldable pub auto_select : Bool → List Text → Text → (Text → Text) → History → History
  auto_select enabled ids prefix to_path h =
      if enabled
      then select_first to_path (peeked_id prefix (router.here h)) (listed (join ids)) h
      else h
