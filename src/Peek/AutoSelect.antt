-- ===== src/Peek/AutoSelect.antt =====
-- The row that a list keeps open: `useAutoSelect`.
use konku.Common.{
  ◌≡◌, refl, sym, ap, ◌∙◌, inl, inr, Bool, true, false, Text, truthy, str_eq_refl, starts_with,
  some, List, [], ◌∷◌, ◌++◌, length, drop, exists, ◌==◌, All, if◌then◌else◌, Bool-cases, arith,
}
use konku.Common.Sets.{has}
use konku.Queries.Keys.{join}
use konku.Peek.Laws.{replaced, list_location_over}
use konku.Peek.{
  Entry, Router, peeked_path, list_location, direct_child, peeked_id, preview, split_commas, listed,
  is_open, select, select_first, auto_select,
}

-- What the server's ids are: not empty, with no comma and no slash.
abbrev pub IsId : Text → Type 0
IsId t = (truthy t ≡ true) × (exists (λ c. c == 44) t ≡ false) × (exists (λ c. c == 47) t ≡ false)

split_one : (t : Text) → exists (λ c. c == 44) t ≡ false → split_commas t ≡ t ∷ []
unfolding split_commas
split_one [] h = refl
split_one (c ∷ t) h = ground (arith, split_one t)

split-append :
    (t s : Text) → exists (λ c. c == 44) t ≡ false → split_commas (t ++ 44 ∷ s) ≡ t ∷ split_commas s
unfolding split_commas
split-append [] s h = refl
split-append (c ∷ t) s h = ground (arith, split-append t s)

split-join :
    (id : Text) (ids : List Text) → All IsId (id ∷ ids) → split_commas (join (id ∷ ids)) ≡ id ∷ ids
unfolding join
split-join id [] ((t, c, s), hs) = split_one id c
split-join id (j ∷ ids) ((t, c, s), hs) =
    split-append id _ c ∙ ap (λ ts. id ∷ ts) (split-join j ids hs)

truthy-join : (id : Text) (ids : List Text) → truthy id ≡ true → truthy (join (id ∷ ids)) ≡ true
unfolding join
truthy-join id [] h = h
truthy-join [] (j ∷ ids) h = refl
truthy-join (c ∷ id) (j ∷ ids) h = refl

listed-join :
    (id : Text) (ids : List Text) → All IsId (id ∷ ids) → listed (join (id ∷ ids)) ≡ id ∷ ids
unfolding listed
listed-join id ids h = rw (truthy-join id ids h.0.0) (split-join id ids h)

starts_with-append : (p s : Text) → starts_with p (p ++ s) ≡ true
unfolding starts_with
starts_with-append [] s = refl
starts_with-append (c ∷ p) s = ground (arith, starts_with-append p s)

drop-append : (p s : Text) → drop (length p) (p ++ s) ≡ s
drop-append [] s = refl
drop-append (c ∷ p) s = drop-append p s

direct_child_id : (t : Text) → IsId t → direct_child t ≡ some t
unfolding direct_child
direct_child_id t (h, c, s) = rw (h, s) refl

peeked_id-preview :
    (prefix id : Text) (e : Entry) → IsId id → peeked_id prefix (preview (prefix ++ id) e) ≡ some id
unfolding peeked_id peeked_path preview
peeked_id-preview prefix id e h =
    rw (starts_with-append prefix id, drop-append prefix id) (direct_child_id id h)

first_of : (id : Text) (ids : List Text) → has id (id ∷ ids) ≡ true
unfolding has
first_of id ids = rw (str_eq_refl id) refl

module _ (router : Router) (prefix id : Text) (ids : List Text) (ok : All IsId (id ∷ ids)) where
  auto : router.History → router.History
  auto = auto_select router true (id ∷ ids) prefix (λ i. prefix ++ i)

  is_row : router.History → Bool
  is_row h = is_open (peeked_id prefix (router.here h)) (id ∷ ids)

  auto_lem :
      (h : router.History) → auto h ≡ (if is_row h then h else select router (prefix ++ id) h)
  unfolding auto is_row auto_select
  auto_lem h =
      ap (λ l. select_first router (λ i. prefix ++ i) (peeked_id prefix (router.here h)) l h)
        (listed-join id ids ok)

  row_selected : (h : router.History) → is_row (select router (prefix ++ id) h) ≡ true
  unfolding is_row select
  row_selected h =
      ap (λ e. is_open (peeked_id prefix e) (id ∷ ids)) (router.here_replace _ h)
      ∙ ap (λ o. is_open o (id ∷ ids)) (peeked_id-preview prefix id (router.here h) ok.0)
      ∙ rw (ok.0.0) (first_of id ids)

  -- What is shown of a history in which a row is open, and to which the choice comes.
  chosen :
      (h g : router.History)
      → is_row g ≡ true
      → auto h ≡ g
      → list_location (router.here g) ≡ list_location (router.here h)
      → router.behind g ≡ router.behind h
      → (is_row (auto h) ≡ true)
        × (list_location (router.here (auto h)) ≡ list_location (router.here h))
        × (router.behind (auto h) ≡ router.behind h)
        × (auto (auto h) ≡ auto h)
  chosen h g row e l b = (
    ap is_row e ∙ row,
    ap (λ x. list_location (router.here x)) e ∙ l,
    ap router.behind e ∙ b,
    ap auto e ∙ auto_lem g ∙ rw row (sym e),
  )

-- The list's own choice is a preview of a row of the list, whatever was open before, and it is made
-- in place: the list keeps its address and the history behind it. Choosing again changes nothing.
pub auto_select_lem :
    (router : Router) (prefix id : Text) (ids : List Text) (h : router.History)
    → All IsId (id ∷ ids)
    → let g = auto_select router true (id ∷ ids) prefix (λ i. prefix ++ i) h in
      (is_open (peeked_id prefix (router.here g)) (id ∷ ids) ≡ true)
      × (list_location (router.here g) ≡ list_location (router.here h))
      × (router.behind g ≡ router.behind h)
      × (auto_select router true (id ∷ ids) prefix (λ i. prefix ++ i) g ≡ g)
unfolding auto is_row
auto_select_lem router prefix id ids h ok =
    let at = auto_lem router prefix id ids ok in
    elim (Bool-cases (is_row router prefix id ids ok h)) [
      | inl e ↦ chosen router prefix id ids ok h h e (at h ∙ rw e refl) refl refl
      | inr e ↦
          let g = select router (prefix ++ id) h in
          let p =
            replaced router (prefix ++ id) (list_location (router.here h)) (router.behind h) h refl
              refl in
          chosen router prefix id ids ok h g (row_selected router prefix id ids ok h)
            (at h ∙ rw e refl) (list_location_over router (router.here g) _ p.0) p.1
    ]
