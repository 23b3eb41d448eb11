-- ===== src/ListScreen/View.antt =====
-- The choice of grid or list: web/src/components/ui/view-toggle.tsx. The address outranks the store.
use konku.Common.{
  ◌≡◌, refl, ap, ◌∙◌, inl, inr, Text, codes, str_eq, str_eq_refl, Option, none, some, if◌then◌else◌,
  List, [], ◌∷◌, Bool-cases,
}
use konku.Storage.{Store, unavailable, holding, get_item, set_item}
use konku.Storage.Laws.{read, get_item-set_item}
use konku.Queries.Requests.{Params}
use konku.ListScreen.Params.{get, set, delete}
use konku.ListScreen.Screen.{ViewMode, list, grid}

abbrev pub word : ViewMode → Text
word list = codes "list"
word grid = codes "grid"

abbrev pub mode_of : Option Text → Option ViewMode
mode_of none = none
mode_of (some raw) =
    if str_eq raw (codes "grid")
    then some grid
    else if str_eq raw (codes "list")
    then some list
    else none

abbrev or_mode : Option ViewMode → ViewMode → ViewMode
or_mode none m = m
or_mode (some v) m = v

unfoldable pub read_stored : Text → Store → Option ViewMode
read_stored key store = mode_of (read key store)

unfoldable pub mode : Text → Params → Store → ViewMode
mode key params store =
    or_mode (mode_of (get (codes "view") params)) (or_mode (read_stored key store) list)

abbrev stored : Text → ViewMode → Store → Store
stored key v unavailable = unavailable
stored key v (holding entries) = holding (set_item key (word v) entries)

-- What a press leaves of the address and of the store.
unfoldable pub set_mode : Text → ViewMode → Params → Store → Params × Store
set_mode key v params store = (set (codes "view") (word v) params, stored key v store)

get-set : (key v : Text) (ps : Params) → get key (set key v ps) ≡ some v
unfolding get set
get-set key v [] = rw (str_eq_refl key) refl
get-set key v ((k, w) ∷ ps) = elim (Bool-cases (str_eq k key)) [
  | inl e ↦
      ap (λ b. get key (if b then (key, v) ∷ delete key ps else (k, w) ∷ set key v ps)) e
      ∙ rw (str_eq_refl key) refl
  | inr e ↦
      ap (λ b. get key (if b then (key, v) ∷ delete key ps else (k, w) ∷ set key v ps)) e
      ∙ ap (λ b. if b then some w else get key (set key v ps)) e
      ∙ get-set key v ps
]

mode_of-word : (v : ViewMode) → mode_of (some (word v)) ≡ some v
unfolding str_eq
mode_of-word list = refl
mode_of-word grid = refl

stored_mode :
    (key : Text) (v : ViewMode) (entries : List (Text × Text))
    → read_stored key (stored key v (holding entries)) ≡ some v
unfolding read_stored read
stored_mode key v entries =
    ap mode_of (
      get_item-set_item key key (word v) entries
      ∙ ap (λ b. if b then some (word v) else get_item key entries) (str_eq_refl key))
    ∙ mode_of-word v

-- A view that is chosen is the view at once, and on the next visit of the bare address when the store
-- works.
pub mode-set_mode :
    (key : Text) (v : ViewMode) (params : Params) (entries : List (Text × Text)) (store : Store)
    → (mode key (set_mode key v params store).0 (set_mode key v params store).1 ≡ v)
      × (mode key [] (set_mode key v params (holding entries)).1 ≡ v)
unfolding mode set_mode get
mode-set_mode key v params entries store = (
  ap (λ o. or_mode (mode_of o) (or_mode (read_stored key (stored key v store)) list))
        (get-set (codes "view") (word v) params)
      ∙ ap (λ o. or_mode o (or_mode (read_stored key (stored key v store)) list)) (mode_of-word v),
  ap (λ o. or_mode o list) (stored_mode key v entries),
)
