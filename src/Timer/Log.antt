-- ===== src/Timer/Log.antt =====
-- The recent sessions by day: `groupByDay` of web/src/features/timer/SessionLog.tsx.
pub mod Laws
use konku.Common.{
  ℕ, ◌+◌, ◌≡◌, ◌↔◌, refl, sym, ap, ◌∙◌, inl, inr, Bool, true, false, Text, str_eq, str_eq_iff,
  str_eq_refl, List, [], ◌∷◌, ◌++◌, append_assoc, append-nil, All, All-append, if◌then◌else◌, arith,
  Bool-cases,
}
use mathlib.Core.Path.{subst}

-- What the log reads of a `FocusSession`.
pub record FocusSession : Type 0 where
  pub id : Text
  pub session_date : Text
  pub duration_minutes : ℕ

pub record Day : Type 0 where
  pub date : Text
  pub total_minutes : ℕ
  pub sessions : List FocusSession

abbrev pub opened : FocusSession → Day
opened s = record { date = s.session_date; total_minutes = s.duration_minutes; sessions = s ∷ [] }

abbrev pub joined : Day → FocusSession → Day
joined d s = record d {
  sessions = d.sessions ++ s ∷ [];
  total_minutes = d.total_minutes + s.duration_minutes;
}

-- One round of the loop; the last day is `days[days.length - 1]`.
unfoldable pub push : FocusSession → List Day → List Day
push s [] = opened s ∷ []
push s (d ∷ []) = if str_eq d.date s.session_date then joined d s ∷ [] else d ∷ opened s ∷ []
push s (d ∷ e ∷ days) = d ∷ push s (e ∷ days)

unfoldable pub group_from : List Day → List FocusSession → List Day
group_from days [] = days
group_from days (s ∷ sessions) = group_from (push s days) sessions

abbrev pub group_by_day : List FocusSession → List Day
group_by_day sessions = group_from [] sessions

abbrev pub minutes : List FocusSession → ℕ
minutes [] = 0
minutes (s ∷ sessions) = s.duration_minutes + minutes sessions

-- A day of the log: some sessions of its date, with the sum of their minutes.
abbrev pub IsDay : Day → Type 0
IsDay d =
    ((s : FocusSession) × (rest : List FocusSession) × (d.sessions ≡ s ∷ rest))
    × All (λ s. s.session_date ≡ d.date) d.sessions
    × (d.total_minutes ≡ minutes d.sessions)

-- Days in a row, each of another date than the one before.
abbrev pub AreDays : List Day → Type 0
AreDays [] = Unit
AreDays (d ∷ []) = IsDay d
AreDays (d ∷ e ∷ days) = IsDay d × (str_eq d.date e.date ≡ false) × AreDays (e ∷ days)

abbrev pub all_sessions : List Day → List FocusSession
all_sessions [] = []
all_sessions (d ∷ days) = d.sessions ++ all_sessions days
