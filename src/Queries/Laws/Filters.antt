-- ===== src/Queries/Laws/Filters.antt =====
-- Filters in another order, and what the server reads of them.
use konku.Common.{
  ℕ, ◌≡◌, refl, ◌∙◌, ap, false, Text, codes, List, [], ◌∷◌, ◌++◌, map, append-nil, str_eq,
  str_eq_refl, truthy, if◌then◌else◌, arith,
}
use mathlib.Core.List.{Permᴰ}
use konku.Common.Sorted.{sort_reordered}
use konku.Common.Digits.{to_digits}
use konku.Common.Trim.{trim}
use konku.Auth.Cache.{Key}
use konku.Queries.Keys.{Filters, list_key}
use konku.Queries.Requests.{Params, list_params}

-- The same domains and the same categories, picked in any order, are the same query.
pub list_key_reordered :
    (all : Key) (f : Filters) (domain_ids category_ids : List Text)
    → Permᴰ f.domain_ids domain_ids
    → Permᴰ f.category_ids category_ids
    → list_key all (record f { domain_ids = domain_ids; category_ids = category_ids })
      ≡ list_key all f
unfolding list_key
list_key_reordered all f domain_ids category_ids p q = rw (sort_reordered p, sort_reordered q) refl

-- The values of one name, in order: what the server reads with `r.URL.Query()[name]`.
unfoldable pub values : Text → Params → List Text
values key [] = []
values key ((k, v) ∷ params) =
    let rest = values key params in if str_eq k key then v ∷ rest else rest

pub values-append :
    (key : Text) (ps qs : Params) → values key (ps ++ qs) ≡ values key ps ++ values key qs
unfolding values
values-append key [] qs = refl
values-append key ((k, v) ∷ ps) qs = ground (arith, values-append key ps qs)

values_same : (key : Text) (ids : List Text) → values key (map (λ id. (key, id)) ids) ≡ ids
unfolding values
values_same key [] = refl
values_same key (id ∷ ids) = rw (str_eq_refl key, values_same key ids) refl

values_other :
    (key other : Text) (ids : List Text)
    → str_eq other key ≡ false
    → values key (map (λ id. (other, id)) ids) ≡ []
unfolding values
values_other key other [] h = refl
values_other key other (id ∷ ids) h = rw h (values_other key other ids h)

ids_and_rest :
    (key : Text) (f : Filters) (rest : Params)
    → values key (
        map (λ id. (codes "domainId", id)) f.domain_ids
        ++ (map (λ id. (codes "categoryId", id)) f.category_ids ++ rest))
      ≡ values key (map (λ id. (codes "domainId", id)) f.domain_ids)
        ++ (values key (map (λ id. (codes "categoryId", id)) f.category_ids) ++ values key rest)
ids_and_rest key f rest =
    values-append key (map (λ id. (codes "domainId", id)) f.domain_ids) _
    ∙ ap (λ t. values key (map (λ id. (codes "domainId", id)) f.domain_ids) ++ t)
        (values-append key (map (λ id. (codes "categoryId", id)) f.category_ids) rest)

-- The server reads each filter as it was set: every domain and every category, in order, the
-- trimmed search if it is not empty, "deleted" exactly in that view, and the one offset.
pub list_params_lem :
    (f : Filters) (offset : ℕ)
    → (values (codes "domainId") (list_params f offset) ≡ f.domain_ids)
      × (values (codes "categoryId") (list_params f offset) ≡ f.category_ids)
      × (values (codes "q") (list_params f offset)
          ≡ (if truthy (trim f.q) then trim f.q ∷ [] else []))
      × (values (codes "deleted") (list_params f offset)
          ≡ (if f.deleted then codes "true" ∷ [] else []))
      × (values (codes "offset") (list_params f offset) ≡ to_digits 10 offset ∷ [])
unfolding list_params values str_eq
list_params_lem f offset = (
  ids_and_rest (codes "domainId") f _
      ∙ rw
          (
            values_same (codes "domainId") f.domain_ids,
            values_other (codes "domainId") (codes "categoryId") f.category_ids refl,
          )
          (ground (arith, append-nil f.domain_ids)),
  ids_and_rest (codes "categoryId") f _
      ∙ rw
          (
            values_same (codes "categoryId") f.category_ids,
            values_other (codes "categoryId") (codes "domainId") f.domain_ids refl,
          )
          (ground (arith, append-nil f.category_ids)),
  ids_and_rest (codes "q") f _
      ∙ rw
          (
            values_other (codes "q") (codes "domainId") f.domain_ids refl,
            values_other (codes "q") (codes "categoryId") f.category_ids refl,
          )
          (ground arith),
  ids_and_rest (codes "deleted") f _
      ∙ rw
          (
            values_other (codes "deleted") (codes "domainId") f.domain_ids refl,
            values_other (codes "deleted") (codes "categoryId") f.category_ids refl,
          )
          (ground arith),
  ap (λ t. to_digits 10 offset ∷ t)
      (ids_and_rest (codes "offset") f _
        ∙ rw
            (
              values_other (codes "offset") (codes "domainId") f.domain_ids refl,
              values_other (codes "offset") (codes "categoryId") f.category_ids refl,
            )
            (ground arith)),
)
