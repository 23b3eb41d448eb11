-- ===== src/Examples/Browser.antt =====
-- What the browser keeps and what crosses the network, at concrete inputs.
use konku.Common.{
  take, map, ℕ, ◌≡◌, refl, ap, Bool, true, false, ◌||◌, Text, codes, List, [], ◌∷◌, ◌++◌, Option,
  none, some, All, if◌then◌else◌, arith,
}
use konku.Common.Digits.{to_digits, from_digits, from_digits-to_digits}
use konku.Storage.{Entry, holding}
use konku.Storage.Hash.{offset_basis, short_hash, fnv1a, short_hash_lem}
use konku.Auth.Cache.{Key, same_key, is_prefix, QueryClient}
use konku.Auth.SignOut.{Browser, revoke, on_success, SignedOut, on_success-SignedOut}
use konku.Auth.Cooldown.{load, remaining, start, tick, load-start}
use konku.Reporting.{Thrown, error, rendered, rejected, Crash, fresh, crashes}
use konku.Reporting.Laws.{IsCut}
use konku.Reporting.Met.{met, firsts, crashes_bounded}
use konku.Flush.{PendingWrite, patch, saved, send, Flush, hidden, page_hide, on_events}
use konku.Flush.Laws.{departure}

abbrev entries : List Entry
entries =
    (codes "konku.theme", codes "dark")
    ∷ (codes "konku.timer", codes "{}")
    ∷ (codes "other", codes "1")
    ∷ []

short_hash_lem_example :
    from_digits 36 0 (short_hash (codes "you@example.com"))
    ≡ fnv1a offset_basis (codes "you@example.com")
short_hash_lem_example = short_hash_lem (codes "you@example.com")

-- A cache that is a function of the key.
abbrev pub cached : (D : Type 0) → QueryClient D
cached D = record {
  Cache = (Key → Option D) × (Key → Bool);
  read = λ k c. c.0 k;
  stale = λ k c. c.1 k;
  set_query_data = λ k d c.
      (λ j. if same_key k j then some d else c.0 j, λ j. if same_key k j then false else c.1 j);
  remove_queries = λ p c. (λ j. if p j then none else c.0 j, λ j. if p j then false else c.1 j);
  invalidate_queries = λ k c. (c.0, λ j. is_prefix k j || c.1 j);
  read_set = λ k j d c. refl;
  read_remove = λ p j c. refl;
  read_invalidate = λ k j c. refl;
  stale_invalidate = λ k j c. refl;
  stale_set = λ k j d c. refl;
  stale_remove = λ p j c. refl;
}

abbrev browser : Browser (cached (Option Text))
browser = record { cache = (λ k. some (some (codes "ani")), λ k. false); store = holding entries }

on_success-SignedOut_example :
    SignedOut
      (cached (Option Text))
      browser
      (on_success (cached (Option Text)) (revoke true) browser)
on_success-SignedOut_example =
    on_success-SignedOut (cached (Option Text)) (revoke true) browser refl

-- `Number` on what `String` writes.
abbrev number : Text → Option ℕ
number s = some (from_digits 10 0 s)

decimal : (n : ℕ) → number (to_digits 10 n) ≡ some n
decimal n = ap some (from_digits-to_digits 10 (omega arith) (omega arith) n)

load-start_example :
    (remaining number (start number (codes "you@example.com") 60 5000 (holding entries)).0 ≡ 60)
    × (load number
          (codes "you@example.com")
          60
          7500
          (start number (codes "you@example.com") 60 5000 (holding entries)).1
        ≡ tick number 7500 (start number (codes "you@example.com") 60 5000 (holding entries)).0)
load-start_example =
    load-start number decimal (codes "you@example.com") 60 5000 7500 entries (omega arith)

abbrev broken : Thrown
broken = error (codes "boom") (codes "Error") (some (codes "at App"))

abbrev day : List (Text × Crash)
day = (codes "/notes", rendered broken (codes "App")) ∷ (codes "/cards", rejected broken) ∷ []

crashes_bounded_example :
    ((crashes day fresh).sent ≡ take 5 (map (λ m. m.1) (firsts [] (met day))))
    × All IsCut (crashes day fresh).sent
crashes_bounded_example = crashes_bounded day

abbrev write : PendingWrite
write = record { path = codes "/api/notes/1"; method = patch; body = codes "{\"title\":\"a\"}" }

abbrev open_tab : Flush
open_tab = record { last = none; out = [] }

departure_example :
    (on_events true
      ((hidden, some write) ∷ (page_hide, some write) ∷ (page_hide, some write) ∷ [])
      open_tab).out
    ≡ open_tab.out ++ ((saved ∷ []) ++ (send write ∷ []))
departure_example = departure true (some write) open_tab refl
