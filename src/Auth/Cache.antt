-- ===== src/Auth/Cache.antt =====
-- TanStack's query cache, as far as the app relies on it: an interface with the documented
-- behaviour of the calls that the app makes, which is stated as laws. `D` is what a query holds.
use konku.Common.{
  ℕ, Bool, true, false, ◌&&◌, ◌||◌, ◌≡◌, Text, List, [], ◌∷◌, Option, none, some, str_eq, ◌==◌,
  if◌then◌else◌,
}

-- One part of a query key.
pub data Part : Type 0 where
  name : Text → Part
  number : ℕ → Part
  flag : Bool → Part

abbrev pub Key : Type 0
Key = List Part

abbrev same_flag : Bool → Bool → Bool
same_flag true b = b
same_flag false true = false
same_flag false false = true

unfoldable pub same_part : Part → Part → Bool
same_part (name s) (name t) = str_eq s t
same_part (number m) (number n) = m == n
same_part (flag a) (flag b) = same_flag a b
same_part _ _ = false

unfoldable pub same_key : Key → Key → Bool
same_key [] [] = true
same_key (a ∷ k) (b ∷ j) = same_part a b && same_key k j
same_key _ _ = false

-- A filter `{ queryKey }` matches the keys that begin with it.
unfoldable pub is_prefix : Key → Key → Bool
is_prefix [] j = true
is_prefix (a ∷ k) [] = false
is_prefix (a ∷ k) (b ∷ j) = same_part a b && is_prefix k j

pub record QueryClient (D : Type 0) : Type 1 where
  pub Cache : Type 0
  -- The data of a query, `none` where there is none.
  pub read : Key → Cache → Option D
  -- Whether a query was marked to be fetched again.
  pub stale : Key → Cache → Bool
  pub set_query_data : Key → D → Cache → Cache
  pub remove_queries : (Key → Bool) → Cache → Cache
  pub invalidate_queries : Key → Cache → Cache
  pub read_set :
      (k j : Key) (d : D) (c : Cache)
      → read j (set_query_data k d c) ≡ (if same_key k j then some d else read j c)
  pub read_remove :
      (p : Key → Bool) (j : Key) (c : Cache)
      → read j (remove_queries p c) ≡ (if p j then none else read j c)
  pub read_invalidate : (k j : Key) (c : Cache) → read j (invalidate_queries k c) ≡ read j c
  pub stale_invalidate :
      (k j : Key) (c : Cache) → stale j (invalidate_queries k c) ≡ (is_prefix k j || stale j c)
  -- Data that is written is fresh, and a query that is removed is not there to be fetched again.
  pub stale_set :
      (k j : Key) (d : D) (c : Cache)
      → stale j (set_query_data k d c) ≡ (if same_key k j then false else stale j c)
  pub stale_remove :
      (p : Key → Bool) (j : Key) (c : Cache)
      → stale j (remove_queries p c) ≡ (if p j then false else stale j c)
