-- ===== src/Queries/Requests.antt =====
-- What the queries and the mutations ask the server for: a verb, a path and a body. `string` is
-- the `toString` of `URLSearchParams`, and `json` the one of a body.
use konku.Common.{ℕ, Bool, true, false, Text, codes, List, [], ◌∷◌, ◌++◌, map, truthy}
use konku.Common.Digits.{to_digits}
use konku.Common.Trim.{trim}
use konku.Paging.{page_size}
use konku.Queries.Keys.{Filters}

abbrev pub Params : Type 0
Params = List (Text × Text)

-- `if (filters.q?.trim()) params.set('q', ...)`, behind the parameters that are there.
abbrev when : Bool → Text → Text → Params
when true key value = (key, value) ∷ []
when false key value = []

-- The parameters that `notesPath` and `cardsPath` build.
unfoldable pub list_params : Filters → ℕ → Params
list_params f offset =
    (codes "limit", to_digits 10 page_size)
    ∷ (codes "offset", to_digits 10 offset)
    ∷ (map (λ id. (codes "domainId", id)) f.domain_ids
        ++ (map (λ id. (codes "categoryId", id)) f.category_ids
            ++ (when (truthy (trim f.q)) (codes "q") (trim f.q)
                ++ when f.deleted (codes "deleted") (codes "true"))))

unfoldable pub set_params : Bool → ℕ → Params
set_params archived offset =
    (codes "limit", to_digits 10 page_size)
    ∷ (codes "offset", to_digits 10 offset)
    ∷ when archived (codes "archived") (codes "true")

module _ (string : Params → Text) where
  unfoldable pub notes_path : Filters → ℕ → Text
  notes_path f offset = codes "/notes?" ++ string (list_params f offset)

  unfoldable pub cards_path : Filters → ℕ → Text
  cards_path f offset = codes "/cards?" ++ string (list_params f offset)

  unfoldable pub sets_path : Bool → ℕ → Text
  sets_path archived offset = codes "/review/sets?" ++ string (set_params archived offset)

-- The parameters of a name, in order: what the server reads with `r.URL.Query()[name]`.
