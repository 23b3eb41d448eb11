-- ===== src/CopyCheck/Position.antt =====
-- Where a literal that is never copy stands: `inNonCopyPosition` of web/scripts/check-i18n.mjs, over
-- the nodes around the literal, from the inside out, and what is read of each.
use konku.Common.{
  ◌≡◌, refl, inl, inr, Bool, true, false, ◌&&◌, ◌||◌, not, Text, codes, starts_with, Option, none,
  some, List, [], ◌∷◌, ◌++◌, exists, if◌then◌else◌, arith, Bool-cases,
}
use konku.Common.Sets.{has}
use konku.CopyCheck.Prose.{split}

unfoldable pub never_copy_attrs : List Text
unfolding split
never_copy_attrs =
    split (codes "className class id key ref style href to src srcSet type name value defaultValue")
    ++ split (codes "role variant size color width height target rel method action htmlFor form")
    ++ split (codes "pattern autoComplete inputMode enterKeyHint dir lang slot viewBox fill stroke")
    ++ split (codes "xmlns d testId as side align aria-hidden aria-controls aria-labelledby")
    ++ split (codes "aria-describedby aria-owns aria-current aria-live aria-relevant aria-haspopup")
    ++ split (codes "aria-expanded aria-selected aria-checked")

unfoldable pub never_copy_props : List Text
unfolding split
never_copy_props =
    split (codes "className class id key path to href url endpoint method queryKey mutationKey")
    ++ split
        (codes "testId variant size color icon value name type locale tag slug event code field")
    ++ split (codes "kind format mode credentials")

unfoldable pub dom_enum_props : List Text
unfolding split
dom_enum_props = split (codes "key code tagName nodeName type")

unfoldable pub never_copy_new : List Text
unfolding split
never_copy_new = split (codes "URL URLSearchParams Error TypeError RangeError")

unfoldable pub never_copy_calls : List Text
unfolding split
never_copy_calls =
    split (codes "cn clsx cva twMerge require import Symbol log warn error debug info trace")
    ++ split (codes "getItem setItem removeItem matchMedia querySelector querySelectorAll")
    ++ split (codes "getElementById createElement addEventListener removeEventListener")

-- A node around the literal, and whether the child that leads to the literal is its name, its callee,
-- its test, its operator or its argument. The callee of a call is its last segment. The other side of
-- a binary expression has a name where it reads a property.
pub data Parent : Type 0 where
  declaration : Parent
  attribute : (name : Text) → Parent
  property : (name : Text) → (is_name : Bool) → Parent
  call construct : (callee : Text) → (is_callee : Bool) → Parent
  case_clause : (is_test : Bool) → Parent
  binary : (other : Option Text) → (is_operator : Bool) → Parent
  element : (is_argument : Bool) → Parent
  other_node : Parent

abbrev pub never_copy : Text → Bool
never_copy name = has name never_copy_attrs || starts_with (codes "data-") name

abbrev pub is_dom_enum : Option Text → Bool
is_dom_enum none = false
is_dom_enum (some name) = has name dom_enum_props

-- The tests that answer `true`; an attribute answers either way.
unfoldable pub decides : Parent → Bool
decides declaration = true
decides (attribute name) = never_copy name
decides (property name is_name) =
    is_name || has name never_copy_props || starts_with (codes "data-") name
decides (call callee is_callee) = not is_callee && has callee never_copy_calls
decides (construct callee is_callee) = not is_callee && has callee never_copy_new
decides (case_clause is_test) = is_test
decides (binary other is_operator) = not is_operator && is_dom_enum other
decides (element is_argument) = is_argument
decides other_node = false

abbrev pub is_attribute : Parent → Bool
is_attribute (attribute name) = true
is_attribute _ = false

-- The walk outwards.
unfoldable pub in_non_copy_position : List Parent → Bool
in_non_copy_position [] = false
in_non_copy_position (p ∷ parents) =
    let outer = in_non_copy_position parents in
    if is_attribute p then decides p else if decides p then true else outer

-- The nodes up to the first attribute.
abbrev up_to_attribute : List Parent → List Parent
up_to_attribute [] = []
up_to_attribute (p ∷ parents) = if is_attribute p then p ∷ [] else p ∷ up_to_attribute parents

-- A literal stands where no copy does exactly if some node says so that is not outside its attribute.
pub in_non_copy_position_lem :
    (parents : List Parent)
    → in_non_copy_position parents ≡ exists decides (up_to_attribute parents)
unfolding in_non_copy_position
in_non_copy_position_lem [] = refl
in_non_copy_position_lem (p ∷ parents) = elim (Bool-cases (is_attribute p)) [
  | inl e ↦ rw e (ground arith)
  | inr e ↦ rw e (ground (arith, in_non_copy_position_lem parents))
]
