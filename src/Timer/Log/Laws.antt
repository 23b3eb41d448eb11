-- ===== src/Timer/Log/Laws.antt =====
-- The days of the log are determined by its sessions.
use konku.Common.{
  ◌+◌, ◌≡◌, ◌↔◌, refl, sym, ap, ◌∙◌, inl, inr, false, str_eq, str_eq_iff, List, [], ◌∷◌, ◌++◌,
  append_assoc, append-nil, All, All-append, arith, Bool-cases,
}
use mathlib.Core.Path.{subst}
use konku.Timer.Log.{
  FocusSession, Day, opened, joined, push, group_from, group_by_day, minutes, IsDay, AreDays,
  all_sessions,
}

push-append :
    (s : FocusSession) (pre : List Day) (d : Day) → push s (pre ++ d ∷ []) ≡ pre ++ push s (d ∷ [])
unfolding push
push-append s [] d = refl
push-append s (e ∷ []) d = refl
push-append s (e ∷ f ∷ pre) d = ap (λ t. e ∷ t) (push-append s (f ∷ pre) d)

-- A day that some sessions have joined.
abbrev grown : Day → List FocusSession → Day
grown d same = record d {
  sessions = d.sessions ++ same;
  total_minutes = d.total_minutes + minutes same;
}

grown_nil : (d : Day) → grown d [] ≡ d
grown_nil d = ground (arith, append-nil d.sessions)

grown-joined :
    (d : Day) (s : FocusSession) (same : List FocusSession)
    → grown (joined d s) same ≡ grown d (s ∷ same)
grown-joined d s same = ground (arith, append_assoc d.sessions (s ∷ []) same)

push_same :
    (pre : List Day) (d : Day) (s : FocusSession)
    → s.session_date ≡ d.date
    → push s (pre ++ d ∷ []) ≡ pre ++ joined d s ∷ []
push_same pre d s e =
    push-append s pre d
    ∙ ap (λ t. pre ++ t) (unfold push in ground (arith, str_eq_iff d.date s.session_date))

push_new :
    (pre : List Day) (d : Day) (s : FocusSession)
    → str_eq d.date s.session_date ≡ false
    → push s (pre ++ d ∷ []) ≡ (pre ++ d ∷ []) ++ opened s ∷ []
push_new pre d s e =
    push-append s pre d
    ∙ ap (λ t. pre ++ t) {y = d ∷ opened s ∷ []} (unfold push in rw e refl)
    ∙ sym (append_assoc pre (d ∷ []) (opened s ∷ []))

-- The sessions of one date join the day that is last.
group_same :
    (pre : List Day) (d : Day) (same rest : List FocusSession)
    → All (λ s. s.session_date ≡ d.date) same
    → group_from (pre ++ d ∷ []) (same ++ rest) ≡ group_from (pre ++ grown d same ∷ []) rest
unfolding group_from
group_same pre d [] rest h = ap (λ x. group_from (pre ++ x ∷ []) rest) (sym (grown_nil d))
group_same pre d (s ∷ same) rest (e, h) =
    ap (λ x. group_from x (same ++ rest)) (push_same pre d s e)
    ∙ group_same pre (joined d s) same rest h
    ∙ ap (λ x. group_from (pre ++ x ∷ []) rest) (grown-joined d s same)

-- The day of some sessions, the first of which opened it.
grown_day :
    (e : Day) (s : FocusSession) (rest : List FocusSession)
    → IsDay e
    → e.sessions ≡ s ∷ rest
    → grown (opened s) rest ≡ e
grown_day e s rest (f, a, t) q =
    let h : All (λ x. x.session_date ≡ e.date) (s ∷ rest) =
      subst (All (λ x. x.session_date ≡ e.date)) q a in
    let m : e.total_minutes ≡ minutes (s ∷ rest) = t ∙ ap minutes q in ground (arith, h.0)

same_dates :
    (e : Day) (s : FocusSession) (rest : List FocusSession)
    → IsDay e
    → e.sessions ≡ s ∷ rest
    → (s.session_date ≡ e.date) × All (λ x. x.session_date ≡ s.session_date) rest
same_dates e s rest (f, a, t) q =
    let h : All (λ x. x.session_date ≡ e.date) (s ∷ rest) =
      subst (All (λ x. x.session_date ≡ e.date)) q a in
    (h.0, subst (λ z. All (λ x. x.session_date ≡ z) rest) (sym h.0) h.1)

-- A whole day is put behind days that its first session does not join.
group_day :
    (pre : List Day) (e : Day) (more : List FocusSession)
    → IsDay e
    → ((s : FocusSession) → s.session_date ≡ e.date → push s pre ≡ pre ++ opened s ∷ [])
    → group_from pre (e.sessions ++ more) ≡ group_from (pre ++ e ∷ []) more
group_day pre e more h fresh =
    let (s, rest, q) = h.0 in
    let dates = same_dates e s rest h q in
    ap (λ x. group_from pre (x ++ more)) q
    ∙ group_first pre s (rest ++ more)
    ∙ ap (λ x. group_from x (rest ++ more)) (fresh s dates.0)
    ∙ group_same pre (opened s) rest more dates.1
    ∙ ap (λ x. group_from (pre ++ x ∷ []) more) (grown_day e s rest h q)
  where
    group_first :
        (days : List Day) (s : FocusSession) (sessions : List FocusSession)
        → group_from days (s ∷ sessions) ≡ group_from (push s days) sessions
    group_first days s sessions = unfold group_from in refl

AreDays-head : (e : Day) (days : List Day) → AreDays (e ∷ days) → IsDay e
AreDays-head e [] h = h
AreDays-head e (f ∷ days) h = h.0

group_days :
    (pre : List Day) (d : Day) (days : List Day)
    → AreDays (d ∷ days)
    → group_from (pre ++ d ∷ []) (all_sessions days) ≡ pre ++ d ∷ days
group_days pre d [] h = unfold group_from in refl
group_days pre d (e ∷ days) (hd, n, h) =
    group_day (pre ++ d ∷ []) e (all_sessions days) (AreDays-head e days h)
      (λ s q. push_new pre d s (ap (str_eq d.date) q ∙ n))
    ∙ group_days (pre ++ d ∷ []) e days h
    ∙ append_assoc pre (d ∷ []) (e ∷ days)

group-all_sessions : (days : List Day) → AreDays days → group_by_day (all_sessions days) ≡ days
group-all_sessions [] h = unfold group_from in refl
group-all_sessions (d ∷ days) h =
    group_day [] d (all_sessions days) (AreDays-head d days h) (λ s q. unfold push in refl)
    ∙ group_days [] d days h

all_sessions-push :
    (s : FocusSession) (days : List Day) → all_sessions (push s days) ≡ all_sessions days ++ s ∷ []
unfolding push
all_sessions-push s [] = refl
all_sessions-push s (d ∷ []) = elim (Bool-cases (str_eq d.date s.session_date)) [
  | inl e ↦
      rw e (append-nil (d.sessions ++ s ∷ []) ∙ ap (λ x. x ++ s ∷ []) (sym (append-nil d.sessions)))
  | inr e ↦ rw e (ap (λ x. x ++ s ∷ []) (sym (append-nil d.sessions)))
]
all_sessions-push s (d ∷ e ∷ days) =
    ap (λ t. d.sessions ++ t) (all_sessions-push s (e ∷ days))
    ∙ sym (append_assoc d.sessions (all_sessions (e ∷ days)) (s ∷ []))

minutes-append : (a b : List FocusSession) → minutes (a ++ b) ≡ minutes a + minutes b
minutes-append [] b = omega arith
minutes-append (s ∷ a) b = omega (arith, minutes-append a b)

opened-IsDay : (s : FocusSession) → IsDay (opened s)
opened-IsDay s = ((s, [], refl), (refl, tt), omega arith)

joined-IsDay : (d : Day) (s : FocusSession) → IsDay d → s.session_date ≡ d.date → IsDay (joined d s)
joined-IsDay d s ((f, rest, q), a, t) e = (
  (f, rest ++ s ∷ [], ap (λ x. x ++ s ∷ []) q),
  All-append (λ x. x.session_date ≡ d.date) d.sessions (s ∷ []) a (e, tt),
  omega (arith, minutes-append d.sessions (s ∷ [])),
)

-- What is pushed leaves the first day in front, with its date.
push_front :
    (s : FocusSession) (e : Day) (days : List Day)
    → (f : Day) × (rest : List Day) × (push s (e ∷ days) ≡ f ∷ rest) × (f.date ≡ e.date)
unfolding push
push_front s e [] = elim (Bool-cases (str_eq e.date s.session_date)) [
  | inl h ↦ (joined e s, [], rw h refl, refl)
  | inr h ↦ (e, opened s ∷ [], rw h refl, refl)
]
push_front s e (g ∷ days) = (e, push s (g ∷ days), refl, refl)

AreDays-cons :
    (d f : Day) (rest days : List Day)
    → IsDay d
    → str_eq d.date f.date ≡ false
    → days ≡ f ∷ rest
    → AreDays days
    → AreDays (d ∷ days)
AreDays-cons d f rest days h n q r = subst (λ x. AreDays (d ∷ x)) (sym q) (h, n, subst AreDays q r)

push-AreDays : (s : FocusSession) (days : List Day) → AreDays days → AreDays (push s days)
unfolding push
push-AreDays s [] h = opened-IsDay s
push-AreDays s (d ∷ []) h = elim (Bool-cases (str_eq d.date s.session_date)) [
  | inl e ↦ rw e (joined-IsDay d s h (sym ((str_eq_iff d.date s.session_date).0 e)))
  | inr e ↦ rw e (h, e, opened-IsDay s)
]
push-AreDays s (d ∷ e ∷ days) (h, n, r) =
    let (f, rest, q, g) = push_front s e days in
    AreDays-cons d f rest (push s (e ∷ days)) h (ap (str_eq d.date) g ∙ n) q
      (push-AreDays s (e ∷ days) r)

group_from_lem :
    (sessions : List FocusSession) (days : List Day)
    → AreDays days
    → AreDays (group_from days sessions)
      × (all_sessions (group_from days sessions) ≡ all_sessions days ++ sessions)
unfolding group_from
group_from_lem [] days h = (h, sym (append-nil (all_sessions days)))
group_from_lem (s ∷ sessions) days h =
    let (a, e) = group_from_lem sessions (push s days) (push-AreDays s days h) in
    (
      a,
      e
          ∙ ap (λ x. x ++ sessions) (all_sessions-push s days)
          ∙ append_assoc (all_sessions days) (s ∷ []) sessions,
    )

-- The days of the log are the one way to cut the sessions, in their order, into stretches of one date
-- that are as long as they can be, each with its date and the sum of its minutes: no session is left
-- out, repeated or moved, and no other list of days is such a cut.
pub group_by_day_lem :
    (sessions : List FocusSession) (days : List Day)
    → (days ≡ group_by_day sessions) ↔ (AreDays days × (all_sessions days ≡ sessions))
group_by_day_lem sessions days = (
  λ e. subst (λ x. AreDays x × (all_sessions x ≡ sessions)) (sym e) (group_from_lem sessions [] tt),
  λ h. sym (group-all_sessions days h.0) ∙ ap group_by_day h.1,
)
