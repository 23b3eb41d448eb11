-- ===== src/Paging.antt =====
-- Paging for the index lists: web/src/api/paging.ts. The list of pages is TanStack's and is kept by
-- it; `undefined` is `none`.
pub mod Laws
use konku.Common.{
  ℕ, zero, suc, ◌+◌, Bool, true, false, Option, none, some, List, [], ◌∷◌, ◌++◌, length, ltb,
  if◌then◌else◌,
}

-- `interface Page<T>` of web/src/api/types.ts.
pub record Page {ℓ} (T : Type ℓ) : Type ℓ where
  pub items : List T
  pub total : ℕ
  pub limit : ℕ
  pub offset : ℕ

abbrev pub page_size : ℕ
page_size = 50

module _ {ℓ} {T : Type ℓ} where
  -- `all.reduce((n, page) => n + page.items.length, 0)`.
  unfoldable pub loaded : ℕ → List (Page T) → ℕ
  loaded n [] = n
  loaded n (page ∷ pages) = loaded (n + length page.items) pages

  unfoldable pub next_offset : Page T → List (Page T) → Option ℕ
  next_offset last all = let n = loaded 0 all in if ltb n last.total then some n else none

  -- `pages.flatMap((page) => page.items)`.
  unfoldable pub items_of : List (Page T) → List T
  items_of [] = []
  items_of (page ∷ pages) = page.items ++ items_of pages

  unfoldable pub page_items : Option (List (Page T)) → List T
  unfolding items_of
  page_items none = []
  page_items (some pages) = items_of pages

  -- `pages.at(-1)?.total ?? d`.
  unfoldable pub last_total : ℕ → List (Page T) → ℕ
  last_total d [] = d
  last_total d (page ∷ pages) = last_total page.total pages

  unfoldable pub page_total : Option (List (Page T)) → ℕ
  unfolding last_total
  page_total none = 0
  page_total (some pages) = last_total 0 pages

  -- What the "load more" button does, pressed until there is no next page: `fetch` is the request
  -- for one offset. `fuel` bounds the presses.
  unfoldable pub load_all : (ℕ → Page T) → ℕ → ℕ → List (Page T) → List (Page T) × Option ℕ
  load_all fetch zero offset pages = (pages, some offset)
  load_all fetch (suc fuel) offset pages =
      let page = fetch offset in
      let all = pages ++ page ∷ [] in
      elim (next_offset page all) [ none ↦ (all, none) | some next ↦ load_all fetch fuel next all ]
