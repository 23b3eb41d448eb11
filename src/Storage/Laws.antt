-- ===== src/Storage/Laws.antt =====
-- What a sign-out leaves in the store.
use konku.Common.{
  ◌≡◌, refl, ◌∙◌, inl, inr, false, ◌&&◌, Text, Option, none, some, List, [], ◌∷◌, map, str_eq,
  str_eq_iff, if◌then◌else◌, Bool-cases, arith,
}
use konku.Common.Sets.{has}
use konku.Storage.{
  Entry, Store, unavailable, holding, get_item, set_item, remove_item, is_swept, sweep,
  clear_account_storage,
}

-- Reading any key of a store; a store that throws has none to read.
unfoldable pub read : Text → Store → Option Text
read key unavailable = none
read key (holding entries) = get_item key entries

pub get_item-set_item :
    (key j v : Text) (entries : List Entry)
    → get_item j (set_item key v entries) ≡ (if str_eq key j then some v else get_item j entries)
unfolding get_item set_item
get_item-set_item key j v [] = refl
get_item-set_item key j v ((k, w) ∷ entries) =
    ground
      (arith, str_eq_iff k key, str_eq_iff k j, str_eq_iff key j, get_item-set_item key j v entries)

get_item-remove_item :
    (key j : Text) (entries : List Entry)
    → get_item j (remove_item key entries) ≡ (if str_eq key j then none else get_item j entries)
unfolding get_item remove_item
get_item-remove_item key j [] = ground arith
get_item-remove_item key j ((k, w) ∷ entries) =
    ground (
      arith,
      str_eq_iff k key,
      str_eq_iff k j,
      str_eq_iff key j,
      get_item-remove_item key j entries,
    )

get_item-sweep :
    (keys : List Text) (entries : List Entry) (j : Text)
    → get_item j (sweep keys entries)
      ≡ (if has j keys && is_swept j then none else get_item j entries)
unfolding sweep
get_item-sweep [] entries j = unfold has in refl
get_item-sweep (key ∷ keys) entries j = elim (Bool-cases (is_swept key)) [
  | inl e ↦ rw e (
      get_item-sweep keys (remove_item key entries) j
      ∙ rw (get_item-remove_item key j entries) (unfold has in ground (arith, str_eq_iff key j)))
  | inr e ↦ rw e (get_item-sweep keys entries j ∙ unfold has in ground (arith, str_eq_iff key j))
]

get_item_absent :
    (entries : List Entry) (j : Text)
    → has j (map (λ e. e.0) entries) ≡ false
    → get_item j entries ≡ none
unfolding get_item has
get_item_absent [] j h = refl
get_item_absent ((k, w) ∷ entries) j h = ground (arith, get_item_absent entries j)

-- After a sign-out every key of the app that is not on the keep list is gone, and every other key
-- holds what it held; that is so of a store that cannot be used, too.
pub read-clear_account_storage :
    (j : Text) (s : Store)
    → read j (clear_account_storage s) ≡ (if is_swept j then none else read j s)
unfolding read clear_account_storage
read-clear_account_storage j unavailable = ground arith
read-clear_account_storage j (holding entries) =
    get_item-sweep (map (λ e. e.0) entries) entries j ∙ ground (arith, get_item_absent entries j)
