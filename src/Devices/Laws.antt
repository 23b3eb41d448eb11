-- ===== src/Devices/Laws.antt =====
-- What the phrase of a device says of the time that has passed.
use konku.Common.{
  ℕ, ◌+◌, ◌-◌, ◌*◌, ◌/◌, ◌%◌, ◌==◌, ==_iff, ltb→lt, Bool-cases, false, ◌≤◌, ◌<◌, ◌≡◌, some, inl,
  inr, suc, arith, ltb,
}
use native.Mathlib.Nat.{div-add-mod', mod-lt}
use konku.Devices.{
  Ago, just_now, minutes, hours, days, yesterday, over_a_month, ago_of_days, ago_of_hours,
  ago_of_minutes, relative_time,
}

abbrev pub minute_ms : ℕ
minute_ms = 60000

abbrev pub hour_ms : ℕ
hour_ms = 3600000

abbrev pub day_ms : ℕ
day_ms = 86400000

-- The least time that a phrase is said of.
abbrev pub since : Ago → ℕ
since just_now = 0
since (minutes n) = n * minute_ms
since (hours n) = n * hour_ms
since yesterday = day_ms
since (days n) = n * day_ms
since over_a_month = 30 * day_ms

-- The elapsed time is below the end of the phrase's span; the last phrase has none.
abbrev pub IsBefore : ℕ → Ago → Type 0
IsBefore e just_now = e < 10 * minute_ms
IsBefore e (minutes n) = e < suc n * minute_ms
IsBefore e (hours n) = e < suc n * hour_ms
IsBefore e yesterday = e < 2 * day_ms
IsBefore e (days n) = e < suc n * day_ms
IsBefore e over_a_month = Unit

not_below : (m n : ℕ) → ltb m n ≡ false → n ≤ m
not_below m n h = ground arith

-- The phrase is said of the elapsed time.
abbrev pub Fits : ℕ → Ago → Type 0
Fits e ago = (since ago ≤ e) × IsBefore e ago

split : (n k : ℕ) → 1 ≤ k → (n / k * k ≤ n) × (n < suc (n / k) * k)
split n k l =
    let whole : n / k * k + n % k ≡ n = div-add-mod' n k in
    let rest : n % k < k = mod-lt n l in (omega (arith, whole), omega (arith, whole, rest))

of_days : (e d : ℕ) → 1 ≤ d → d * day_ms ≤ e → e < suc d * day_ms → Fits e (ago_of_days d)
unfolding ago_of_days
of_days e d l a b = elim (Bool-cases (d == 1)) [
  | inl f ↦
      rw f (let one : d ≡ 1 = (==_iff d 1).0 f in (omega (arith, one, a), omega (arith, one, b)))
  | inr f ↦ rw f (elim (Bool-cases (ltb d 30)) [
    | inl g ↦ rw g (a, b)
    | inr g ↦ rw g (omega (arith, not_below d 30 g, a), tt)
  ])
]

of_hours : (e h : ℕ) → 1 ≤ h → h * hour_ms ≤ e → e < suc h * hour_ms → Fits e (ago_of_hours h)
unfolding ago_of_hours
of_hours e h l a b = elim (Bool-cases (ltb h 24)) [
  | inl f ↦ rw f (a, b)
  | inr f ↦
      let below = not_below h 24 f in
      let parts = split h 24 (omega arith) in
      rw f (
        of_days e (h / 24) (omega (arith, below, parts.1)) (omega (arith, a, parts.0))
          (omega (arith, b, parts.1)))
]

of_minutes : (e m : ℕ) → m * minute_ms ≤ e → e < suc m * minute_ms → Fits e (ago_of_minutes m)
unfolding ago_of_minutes
of_minutes e m a b = elim (Bool-cases (ltb m 10)) [
  | inl f ↦ rw f (omega arith, omega (arith, ltb→lt m 10 f, b))
  | inr f ↦ rw f (elim (Bool-cases (ltb m 60)) [
    | inl g ↦ rw g (a, b)
    | inr g ↦
        let below = not_below m 60 g in
        let parts = split m 60 (omega arith) in
        rw g (
          of_hours e (m / 60) (omega (arith, below, parts.1)) (omega (arith, a, parts.0))
            (omega (arith, b, parts.1)))
  ])
]

-- The phrase that a device is shown with says how long ago it was last seen, rounded down to its
-- unit: minutes from ten on, hours from sixty minutes on, days from twenty-four hours on, of which the
-- first is yesterday, up to thirty days.
pub relative_time_lem : (seen now : ℕ) → Fits (now - seen) (relative_time (some seen) now)
unfolding relative_time
relative_time_lem seen now =
    let parts = split (now - seen) 60000 (omega arith) in
    of_minutes (now - seen) ((now - seen) / 60000) parts.0 parts.1
