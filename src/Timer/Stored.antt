-- ===== src/Timer/Stored.antt =====
-- Restoring a timer across a refresh: `load` of web/src/features/timer/useTimer.ts. `JSON.parse`
-- is the language's, so the store holds what it would return.
use konku.Common.{
  ℕ, zero, suc, Text, Option, none, some, Bool, true, false, ◌&&◌, ◌||◌, [], ◌∷◌, leb, ◌==◌,
  if◌then◌else◌, exists,
}
use konku.Timer.{
  TimerStatus, TimerState, idle, running, done, initial, durations, default_duration, or_else,
}

-- `Partial<TimerState>`: a field that is absent is `none`.
pub record PartialState : Type 0 where
  pub status : Option TimerStatus
  pub duration_minutes : Option ℕ
  pub domain_id : Option (Option Text)
  pub target_at : Option (Option ℕ)
  pub remaining_ms : Option (Option ℕ)
  pub logged : Option Bool

-- What `localStorage.getItem` and `JSON.parse` come to: both may throw, and a missing or empty
-- entry is falsy.
pub data Saved : Type 0 where
  unavailable : Saved
  missing : Saved
  corrupt : Saved
  present : PartialState → Saved

abbrev pub is_hex : ℕ → Bool
is_hex c = leb b'0' c && leb c b'9' || leb b'a' c && leb c b'f' || leb b'A' c && leb c b'F'

-- `n` hexadecimal digits, and what follows them.
unfoldable pub hex_run : ℕ → Text → Option Text
hex_run zero s = some s
hex_run (suc n) [] = none
hex_run (suc n) (c ∷ s) = elim (is_hex c) [ true ↦ hex_run n s | false ↦ none ]

unfoldable pub dash : Text → Option Text
dash [] = none
dash (c ∷ s) = if c == b'-' then some s else none

infixl 5 ◌>>=◌
abbrev ◌>>=◌ {ℓ κ} : {A : Type ℓ} {B : Type κ} → Option A → (A → Option B) → Option B
none >>= f = none
some a >>= f = f a

abbrev at_end : Option Text → Bool
at_end none = false
at_end (some []) = true
at_end (some (c ∷ s)) = false

-- The pattern `UUID`.
unfoldable pub is_uuid : Text → Bool
unfolding hex_run dash
is_uuid s = at_end (do
  a ← hex_run 8 s
  b ← dash a
  c ← hex_run 4 b
  d ← dash c
  e ← hex_run 4 d
  f ← dash e
  g ← hex_run 4 f
  h ← dash g
  hex_run 12 h)

-- `{ ...initial, ...parsed }`.
unfoldable pub merge : PartialState → TimerState
merge p = record {
  status = or_else p.status idle;
  duration_minutes = or_else p.duration_minutes default_duration;
  domain_id = or_else p.domain_id none;
  target_at = or_else p.target_at none;
  remaining_ms = or_else p.remaining_ms none;
  logged = or_else p.logged false;
}

unfoldable pub known_duration : ℕ → ℕ
known_duration m = if exists (λ d. d == m) durations then m else default_duration

unfoldable pub known_domain : Option Text → Option Text
known_domain none = none
known_domain (some id) = if is_uuid id then some id else none

-- `!parsed.targetAt || Date.now() >= parsed.targetAt`: null and 0 are both falsy.
unfoldable pub has_ended : ℕ → Option ℕ → Bool
has_ended clock none = true
has_ended clock (some target) = target == 0 || leb target clock

settle_status : TimerStatus → ℕ → TimerState → TimerState
settle_status running clock s =
    if has_ended clock s.target_at
    then record s { status = done; target_at = none; remaining_ms = none }
    else s
settle_status _ clock s = s

unfoldable pub restore : ℕ → PartialState → TimerState
unfolding merge known_duration known_domain settle_status has_ended
restore clock p =
    let s = merge p in
    let t : TimerState = record s {
      duration_minutes = known_duration s.duration_minutes;
      domain_id = known_domain s.domain_id;
    } in
    settle_status t.status clock t

unfoldable pub load : ℕ → Saved → TimerState
unfolding restore
load clock unavailable = initial
load clock missing = initial
load clock corrupt = initial
load clock (present p) = restore clock p

-- What the persisting effect writes: every field.
unfoldable pub save : TimerState → Saved
save s = present (record {
  status = some s.status;
  duration_minutes = some s.duration_minutes;
  domain_id = some s.domain_id;
  target_at = some s.target_at;
  remaining_ms = some s.remaining_ms;
  logged = some s.logged;
})

-- The effect: where `setItem` throws, in private mode or with a full quota, the store is as it was.
unfoldable pub write : Bool → TimerState → Saved → Saved
unfolding save
write ok s stored = if ok then save s else stored
