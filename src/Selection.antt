-- ===== src/Selection.antt =====
-- Which rows are ticked on a list screen: web/src/lib/use-selection.ts. `raw` is the hook's state,
-- `ids` the visible list.
pub mod Laws
pub mod Refine
use konku.Common.{
  ℕ, Bool, true, false, ◌&&◌, Text, List, [], ◌∷◌, length, filter, every, ltb, ◌==◌, if◌then◌else◌,
}
use konku.Common.Sets.{has, add, delete, set_of}

-- The visible intersection.
unfoldable pub selected : List Text → List Text → List Text
selected ids raw = if length raw == 0 then [] else set_of (filter (λ id. has id raw) ids)

-- `if (!next.delete(id)) next.add(id)`.
unfoldable pub toggle : Text → List Text → List Text
toggle id raw = if has id raw then delete id raw else add id raw

unfoldable pub clear : List Text → List Text
clear raw = []

unfoldable pub all_on : List Text → List Text → Bool
all_on ids raw = ltb 0 (length ids) && every (λ id. has id raw) ids

-- The loop of `toggleAll`.
unfoldable pub mark : Bool → List Text → List Text → List Text
mark on [] next = next
mark on (id ∷ ids) next = mark on ids (if on then delete id next else add id next)

unfoldable pub toggle_all : List Text → List Text → List Text
toggle_all ids raw = mark (all_on ids raw) ids raw

-- The ticked rows in list order, which is what the mutations are sent.
unfoldable pub ordered : List Text → List Text → List Text
ordered ids raw = filter (λ id. has id (selected ids raw)) ids

unfoldable pub count : List Text → List Text → ℕ
count ids raw = length (selected ids raw)

unfoldable pub all_selected : List Text → List Text → Bool
all_selected ids raw = ltb 0 (length ids) && length (selected ids raw) == length ids
