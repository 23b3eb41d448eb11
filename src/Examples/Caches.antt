-- ===== src/Examples/Caches.antt =====
-- The cache after some mutations, and the requests of a filtered list.
use konku.Common.{◌≡◌, false, Text, codes, some}
use konku.Auth.Cache.{QueryClient}
use konku.Queries.Keys.{review_due}
use konku.Queries.Effects.{delete_card, Reply, on_success}
use konku.Queries.Laws.{due_kept}
use konku.Examples.Browser.{cached}

abbrev client : QueryClient Text
client = cached Text

-- A cache with a row under every key.
abbrev full : client.Cache
full = (λ k. some (codes "row"), λ k. false)

abbrev answer : Reply client
answer = record { id = codes "n1"; row = codes "new" }

due_kept_example :
    (client.read review_due (on_success client (delete_card (codes "k")) answer full)
      ≡ some (codes "row"))
    × (client.stale review_due (on_success client (delete_card (codes "k")) answer full) ≡ false)
due_kept_example = due_kept client (delete_card (codes "k")) answer full
