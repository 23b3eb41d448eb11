-- ===== src/ListScreen/Params.antt =====
-- The address of a list screen as its parameters, in order: a `URLSearchParams`, and what
-- web/src/features/notes/NotesPage.tsx and CardsPage.tsx beside it do to the latest address.
use konku.Common.{
  Bool, false, not, Text, codes, str_eq, truthy, Option, none, some, List, [], ◌∷◌, ◌++◌, filter,
  if◌then◌else◌,
}
use konku.Common.Sets.{has}
use konku.Queries.Requests.{Params}
use konku.Queries.Laws.Filters.{values}

unfoldable pub get : Text → Params → Option Text
get key [] = none
get key ((k, v) ∷ ps) = let rest = get key ps in if str_eq k key then some v else rest

unfoldable pub delete : Text → Params → Params
delete key ps = filter (λ p. not (str_eq p.0 key)) ps

unfoldable pub append : Text → Text → Params → Params
append key value ps = ps ++ (key, value) ∷ []

-- The first of the name takes the value and the others go; a new name goes last.
unfoldable pub set : Text → Text → Params → Params
set key value [] = (key, value) ∷ []
set key value ((k, v) ∷ ps) =
    let rest = set key value ps in
    if str_eq k key then (key, value) ∷ delete key ps else (k, v) ∷ rest

-- `getAll(key).filter(Boolean)`.
unfoldable pub chosen : Text → Params → List Text
chosen key ps = filter truthy (values key ps)

abbrev pub set_or_delete : Text → Option Text → Params → Params
set_or_delete key none ps = delete key ps
set_or_delete key (some value) ps = if truthy value then set key value ps else delete key ps

unfoldable pub set_param : Text → Option Text → Params → Params
set_param key value ps = set_or_delete key value ps

-- The loop that appends what is left of the values.
unfoldable pub append_all : Text → List Text → Params → Params
append_all key [] ps = ps
append_all key (v ∷ vs) ps = append_all key vs (append key v ps)

unfoldable pub toggle_param : Text → Text → Params → Params
toggle_param key id ps =
    let current = chosen key ps in
    let rest = append_all key (filter (λ v. not (str_eq v id)) current) (delete key ps) in
    if has id current then rest else append key id rest

unfoldable pub clear_param : Text → Params → Params
clear_param key ps = delete key ps

abbrev or_empty : Option Text → Text
or_empty none = []
or_empty (some v) = v

unfoldable pub query : Params → Text
query ps = or_empty (get (codes "q") ps)

unfoldable pub domain_ids : Params → List Text
domain_ids ps = chosen (codes "domainId") ps

unfoldable pub category_ids : Params → List Text
category_ids ps = chosen (codes "categoryId") ps

abbrev is_true : Option Text → Bool
is_true none = false
is_true (some v) = str_eq v (codes "true")

unfoldable pub is_deleted : Params → Bool
is_deleted ps = is_true (get (codes "deleted") ps)
