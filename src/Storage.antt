-- ===== src/Storage.antt =====
-- The localStorage this app writes, and how it ends: web/src/lib/storage.ts. A store is the list of
-- its entries; `unavailable` is a store whose every use throws.
pub mod Hash
pub mod Laws
use konku.Common.{
  ℕ, Bool, true, false, ◌||◌, Text, codes, Option, none, some, List, [], ◌∷◌, map, str_eq,
  starts_with, filter, not, exists, if◌then◌else◌,
}
use konku.Common.Sets.{has}

abbrev pub Entry : Type 0
Entry = Text × Text

pub data Store : Type 0 where
  unavailable : Store
  holding : List Entry → Store

abbrev pub prefixes : List Text
prefixes = codes "konku." ∷ codes "konku:" ∷ []

abbrev pub keep : List Text
keep = codes "konku.theme" ∷ codes "konku.locale" ∷ []

unfoldable pub get_item : Text → List Entry → Option Text
get_item key [] = none
get_item key ((k, v) ∷ entries) = if str_eq k key then some v else get_item key entries

unfoldable pub set_item : Text → Text → List Entry → List Entry
set_item key value [] = (key, value) ∷ []
set_item key value ((k, v) ∷ entries) =
    if str_eq k key then (key, value) ∷ entries else (k, v) ∷ set_item key value entries

unfoldable pub remove_item : Text → List Entry → List Entry
remove_item key entries = filter (λ e. not (str_eq e.0 key)) entries

-- Whether the loop removes a key.
unfoldable pub is_swept : Text → Bool
is_swept key = if has key keep then false else exists (λ p. starts_with p key) prefixes

-- The loop over the snapshot of the keys.
unfoldable pub sweep : List Text → List Entry → List Entry
sweep [] entries = entries
sweep (key ∷ keys) entries = sweep keys (if is_swept key then remove_item key entries else entries)

unfoldable pub clear_account_storage : Store → Store
unfolding sweep
clear_account_storage unavailable = unavailable
clear_account_storage (holding entries) = holding (sweep (map (λ e. e.0) entries) entries)
