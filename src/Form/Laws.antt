-- ===== src/Form/Laws.antt =====
-- When a form complains, and what a correction clears.
use konku.Common.{
  ◌≡◌, refl, inl, inr, true, false, ◌&&◌, ◌||◌, not, Text, List, [], ◌∷◌, Option, none, some,
  str_eq, str_eq_iff, truthy, if◌then◌else◌, Option-cases, ap, ◌∙◌, Bool-cases, arith,
}
use konku.Form.{
  Issue, Parsed, success, failure, Values, Errors, name_of, put, is_some, collect, Form, found,
  output, blank, shows, set_value, blur, submit, reset, Event, typed, left, sent, cleared, handle,
  handle_all,
}

-- The message of the first issue of a field.
abbrev pub issue_for : Text → Issue → Option Text
issue_for k i = elim i.path [
  | none ↦ none
  | some key ↦ if truthy key && str_eq key k then some i.message else none
]

abbrev pub first_some : Option Text → Option Text → Option Text
first_some none o = o
first_some (some m) o = some m

unfoldable pub first_issue : Text → List Issue → Option Text
first_issue k [] = none
first_issue k (i ∷ issues) = first_some (issue_for k i) (first_issue k issues)

-- One round of the loop.
abbrev taken : Issue → Errors → Errors
taken i before =
    if truthy (name_of i.path) && not (is_some (before (name_of i.path)))
    then put (name_of i.path) (some i.message) before
    else before

taken_lem :
    (i : Issue) (before : Errors) (k : Text)
    → taken i before k ≡ first_some (before k) (issue_for k i)
taken_lem i before k = elim (Option-cases i.path) [
  | inl e ↦ rw e (ground arith)
  | inr (key, e) ↦ rw e (elim (Bool-cases (str_eq key k)) [
    | inl same ↦
        let at : before key ≡ before k = ap before ((str_eq_iff key k).0 same) in ground arith
    | inr different ↦ ground arith
  ])
]

first_some_assoc :
    (a b c : Option Text) → first_some (first_some a b) c ≡ first_some a (first_some b c)
first_some_assoc none b c = refl
first_some_assoc (some m) b c = refl

-- Each field gets the message of its first issue, and no other.
collect_lem :
    (issues : List Issue) (before : Errors) (k : Text)
    → collect before issues k ≡ first_some (before k) (first_issue k issues)
unfolding collect first_issue
collect_lem [] before k = ground arith
collect_lem (i ∷ issues) before k =
    collect_lem issues (taken i before) k
    ∙ rw (taken_lem i before k) (first_some_assoc (before k) (issue_for k i) (first_issue k issues))

module _ {Out : Type 0} (parse : Values → Parsed Out) (fields : List Text) (initial : Values) where
  abbrev pub issues_of : Parsed Out → List Issue
  issues_of (success out) = []
  issues_of (failure issues) = issues

  abbrev pub output_of : Parsed Out → Option Out
  output_of (success out) = some out
  output_of (failure issues) = none

  found_lem :
      (values : Values) (k : Text)
      → found parse fields initial values k ≡ first_issue k (issues_of (parse values))
  unfolding found first_issue
  found_lem values k =
      elim (parse values)
          as (λ r.
            r ≡ parse values → found parse fields initial values k ≡ first_issue k (issues_of r)) [
              | success out ↦ λ e. rw (← e)
              | failure issues ↦ λ e. rw (← e) (collect_lem issues (λ k. none) k)
            ]
        refl

  -- A submit shows each field the message of its first issue and no other message, calls back
  -- exactly when the schema accepts what is on screen, with what it made of it, and keeps the values.
  pub submit_lem :
      (s : Form) (k : Text)
      → ((submit parse fields initial s).0.errors k ≡ first_issue k (issues_of (parse s.values)))
        × ((submit parse fields initial s).1 ≡ output_of (parse s.values))
        × ((submit parse fields initial s).0.values ≡ s.values)
        × ((submit parse fields initial s).0.submitted ≡ true)
  unfolding submit output
  submit_lem s k = (found_lem s.values k, ground arith, refl, refl)

  abbrev pub IsPatient : Form → Type 0
  IsPatient s = (k : Text) → s.touched k ≡ false → s.submitted ≡ false → s.errors k ≡ none

  handle-IsPatient :
      (e : Event) (s : Form) → IsPatient s → IsPatient (handle parse fields initial e s)
  unfolding handle set_value blur submit reset blank
  handle-IsPatient (typed field value) s h k t u = elim (Bool-cases (str_eq field k)) [
    | inl same ↦
        let at : s.errors field ≡ s.errors k = ap s.errors ((str_eq_iff field k).0 same) in
        let too : s.touched field ≡ s.touched k = ap s.touched ((str_eq_iff field k).0 same) in
        ground (arith, h k)
    | inr different ↦ ground (arith, h k)
  ]
  handle-IsPatient (left field) s h k t u = ground (arith, h k)
  handle-IsPatient sent s h k t u = cc
  handle-IsPatient cleared s h k t u = refl

  handle_all-IsPatient :
      (es : List Event) (s : Form) → IsPatient s → IsPatient (handle_all parse fields initial es s)
  unfolding handle_all
  handle_all-IsPatient [] s h = h
  handle_all-IsPatient (e ∷ es) s h =
      handle_all-IsPatient es (handle parse fields initial e s) (handle-IsPatient e s h)

  -- However a form is used, a field that has not been left since it was blank, in a form that has
  -- not been submitted since, shows no complaint.
  pub handle_all_patient :
      (es : List Event) (k : Text)
      → (handle_all parse fields initial es (blank parse fields initial)).touched k ≡ false
      → (handle_all parse fields initial es (blank parse fields initial)).submitted ≡ false
      → (handle_all parse fields initial es (blank parse fields initial)).errors k ≡ none
  handle_all_patient es k =
      handle_all-IsPatient es (blank parse fields initial) (unfold blank in λ j t u. refl) k

  -- What typing into a field that was left or complains does: the field shows what is now wrong
  -- with it, and a complaint of another field stays only while that field is still wrong, and is
  -- never replaced. A message that is the empty text is left alone.
  pub set_value_checked :
      (field value k : Text) (s : Form)
      → is_some (s.errors field) || s.touched field ≡ true
      → let next = put field value s.values in
        let after = set_value parse fields initial field value s in
        (after.values ≡ next)
        × (after.errors k ≡ (
            if str_eq field k
            then first_issue k (issues_of (parse next))
            else if shows parse fields initial (s.errors k)
                && not (is_some (first_issue k (issues_of (parse next))))
            then none
            else s.errors k))
  unfolding set_value
  set_value_checked field value k s h = (rw h, rw h (rw (found_lem (put field value s.values) k)))

  -- Typing into a field that was never left and shows nothing changes that value and nothing else.
  set_value_pristine :
      (field value : Text) (s : Form)
      → is_some (s.errors field) || s.touched field ≡ false
      → set_value parse fields initial field value s
        ≡ record s { values = put field value s.values }
  unfolding set_value
  set_value_pristine field value s h = rw h
