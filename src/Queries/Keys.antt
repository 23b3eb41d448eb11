-- ===== src/Queries/Keys.antt =====
-- The keys under which the cache holds what the server answered: `noteKeys`, `cardKeys`,
-- `reviewKeys`, `setKeys`, `domainKeys`, `categoryKeys` and `sessionKeys`.
use konku.Common.{ℕ, Bool, Text, codes, List, [], ◌∷◌, ◌++◌}
use konku.Common.Sorted.{sort}
use konku.Auth.Cache.{name, number, flag, Key}

-- `NoteFilters` and `CardFilters`. An absent list is an empty one, an absent `q` is '', and an
-- absent `deleted` is false, to every reader of them.
pub record Filters : Type 0 where
  pub domain_ids : List Text
  pub category_ids : List Text
  pub q : Text
  pub deleted : Bool

-- `ids.join(',')`.
unfoldable pub join : List Text → Text
join [] = []
join (a ∷ []) = a
join (a ∷ b ∷ ids) = a ++ b',' ∷ join (b ∷ ids)

-- `[...all, 'list', ...]`.
unfoldable pub list_key : Key → Filters → Key
list_key all f =
    all
    ++ name (codes "list")
      ∷ name (join (sort f.domain_ids))
      ∷ name (join (sort f.category_ids))
      ∷ name f.q
      ∷ flag f.deleted
      ∷ []

-- `[...all, 'detail', id]`.
unfoldable pub detail_key : Key → Text → Key
detail_key all id = all ++ name (codes "detail") ∷ name id ∷ []

abbrev pub note_keys : Key
note_keys = name (codes "notes") ∷ []

unfoldable pub note_recent : ℕ → Key
note_recent limit = note_keys ++ name (codes "recent") ∷ number limit ∷ []

abbrev pub card_keys : Key
card_keys = name (codes "cards") ∷ []

abbrev pub review_keys : Key
review_keys = name (codes "review") ∷ []

unfoldable pub review_due : Key
review_due = review_keys ++ name (codes "due") ∷ []

unfoldable pub review_answer : Text → Key
review_answer card_id = review_keys ++ name (codes "answer") ∷ name card_id ∷ []

abbrev pub set_keys : Key
set_keys = name (codes "reviewSets") ∷ []

unfoldable pub set_list : Bool → Key
set_list archived = set_keys ++ name (codes "list") ∷ flag archived ∷ []

unfoldable pub set_history : Text → Key
set_history set_id = set_keys ++ name (codes "history") ∷ name set_id ∷ []

unfoldable pub set_run : Text → Key
set_run id = name (codes "reviewRuns") ∷ name id ∷ []

unfoldable pub set_answer : Text → Text → Key
set_answer run_id card_id =
    name (codes "reviewRuns") ∷ name run_id ∷ name (codes "answer") ∷ name card_id ∷ []

abbrev pub domain_keys : Key
domain_keys = name (codes "domains") ∷ []

abbrev pub category_keys : Key
category_keys = name (codes "categories") ∷ []

abbrev pub session_keys : Key
session_keys = name (codes "sessions") ∷ []

-- `live()` and `withArchived()` of the domains and of the categories.
unfoldable pub live_key : Key → Key
live_key all = all ++ name (codes "live") ∷ []

unfoldable pub archived_key : Key → Key
archived_key all = all ++ name (codes "withArchived") ∷ []

unfoldable pub session_recent : ℕ → Key
session_recent limit = session_keys ++ number limit ∷ []
