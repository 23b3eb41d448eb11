-- ===== src/Auth/Cooldown.antt =====
-- The wait between two verification mails: web/src/features/auth/useResendCooldown.ts. A deadline is
-- kept in whole milliseconds.
use konku.Common.{
  ℕ, ◌+◌, ◌-◌, ◌*◌, ◌/◌, ◌≤◌, min, ◌≡◌, ◌≢◌, ap, refl, Bool, Text, codes, List, [], ◌∷◌, ◌++◌,
  Option, none, some, ltb, str_eq_refl, arith,
}
use konku.Common.Digits.{to_digits, to_digits-ne}
use konku.Storage.{Entry, Store, unavailable, holding, set_item}
use konku.Storage.Hash.{short_hash}
use konku.Storage.Laws.{read, get_item-set_item}

abbrev pub resend_cooldown_seconds : ℕ
resend_cooldown_seconds = 60

abbrev pub storage_prefix : Text
storage_prefix = codes "konku:resend-until:"

unfoldable pub storage_key : Text → Text
storage_key key = storage_prefix ++ short_hash key

-- What is not finite is no deadline, and what is too far out is brought near.
abbrev pub bounded : ℕ → Option ℕ → ℕ
bounded most none = 0
bounded most (some value) = min value most

-- `number` is the language's `Number`, with `none` for what is not finite.
module _ (number : Text → Option ℕ) where
  -- What a text in the store says.
  unfoldable pub deadline_of : ℕ → ℕ → Option Text → ℕ
  deadline_of seconds now none = 0
  deadline_of seconds now (some []) = 0
  deadline_of seconds now (some (c ∷ s)) = bounded (now + seconds * 1000) (number (c ∷ s))

  -- `readDeadline`, at the time `now`.
  unfoldable pub read_deadline : Text → ℕ → ℕ → Store → ℕ
  unfolding read
  read_deadline key seconds now store = deadline_of seconds now (read key store)

  pub record Cooldown : Type 0 where
    pub until : ℕ
    pub now : ℕ

  -- The state of a mounted hook, and of one whose address changed.
  unfoldable pub load : Text → ℕ → ℕ → Store → Cooldown
  load key seconds now store = record {
    until = read_deadline (storage_key key) seconds now store;
    now = now;
  }

  -- `Math.ceil` of the rest, never below zero.
  unfoldable pub remaining : Cooldown → ℕ
  remaining c = (c.until - c.now + 999) / 1000

  abbrev pub waiting : Cooldown → Bool
  waiting c = ltb 0 (remaining c)

  unfoldable pub tick : ℕ → Cooldown → Cooldown
  tick now c = record c { now = now }

  -- `start`: a store that throws keeps nothing.
  unfoldable pub stored : Text → Text → Store → Store
  stored key value unavailable = unavailable
  stored key value (holding entries) = holding (set_item key value entries)

  unfoldable pub start : Text → ℕ → ℕ → Store → Cooldown × Store
  start key seconds now store = (
    record { until = now + seconds * 1000; now = now },
    stored (storage_key key) (to_digits 10 (now + seconds * 1000)) store,
  )

  deadline_of-le :
      (seconds now : ℕ) (raw : Option Text) → deadline_of seconds now raw ≤ now + seconds * 1000
  unfolding deadline_of
  deadline_of-le seconds now none = omega arith
  deadline_of-le seconds now (some []) = omega arith
  deadline_of-le seconds now (some (c ∷ s)) = ground arith

  deadline_of-digits :
      (decimal : (n : ℕ) → number (to_digits 10 n) ≡ some n) (seconds now n : ℕ)
      → n ≤ now + seconds * 1000
      → deadline_of seconds now (some (to_digits 10 n)) ≡ n
  unfolding deadline_of
  deadline_of-digits decimal seconds now n h = go (to_digits 10 n) (decimal n) (to_digits-ne 10 n)
    where
      go : (t : Text) → number t ≡ some n → t ≢ [] → deadline_of seconds now (some t) ≡ n
      go [] e ne = absurd (ne refl)
      go (c ∷ s) e ne = rw e (ground arith)

  -- Whatever the store says, a hook that has just been mounted waits for at most `seconds`.
  pub remaining-load-le :
      (key : Text) (seconds now : ℕ) (store : Store)
      → remaining (load key seconds now store) ≤ seconds
  unfolding remaining load read_deadline
  remaining-load-le key seconds now store =
      let near = deadline_of-le seconds now (read (storage_key key) store) in omega arith

  -- In a store that keeps what it is given, and with a `Number` that reads back what `String` wrote,
  -- a press waits for the whole time, and a hook that is mounted for the address later is in the
  -- state that the pressed one has then.
  pub load-start :
      (decimal : (n : ℕ) → number (to_digits 10 n) ≡ some n) (key : Text) (seconds now later : ℕ)
      (entries : List Entry)
      → now ≤ later
      → (remaining (start key seconds now (holding entries)).0 ≡ seconds)
        × (load key seconds later (start key seconds now (holding entries)).1
            ≡ tick later (start key seconds now (holding entries)).0)
  unfolding start load tick stored remaining read_deadline read
  load-start decimal key seconds now later entries h = (
    omega arith,
    rw
        (get_item-set_item (storage_key key) (storage_key key) (to_digits 10 (now + seconds * 1000))
          entries)
        (rw (str_eq_refl (storage_key key)) (
          ap (λ u. record { until = u; now = later })
            (deadline_of-digits decimal seconds later (now + seconds * 1000) (omega arith)))),
  )
