-- ===== src/Reporting/Laws.antt =====
-- Reports are bounded, distinct and cut.
use konku.Common.{
  ℕ, suc, ◌≤◌, min, ◌≡◌, refl, ◌∙◌, inl, inr, true, false, Text, List, [], ◌∷◌, ◌++◌, Option, none,
  some, take, length, length-append, length-take, leb, truthy, All, All-append, Option-cases,
  str_eq_refl, Bool-cases, arith,
}
use konku.Common.Sets.{has, IsDistinct, has-append, str_eq_sym}
use konku.Reporting.{
  ClientErrorKind, with_components, report_described, report_maybe, max_message, max_stack,
  max_reports, Report, Thrown, Described, Reporter, fresh, describe, signature, report_of,
  report_client_error, Crash, rendered, uncaught, rejected, crash, crashes, render, global,
  rejection, or_message,
}

-- A report that may leave the page.
abbrev pub IsCut : Report → Type 0
IsCut r =
    (length r.message ≤ max_message) × (length r.stack ≤ max_stack) × (truthy r.message ≡ true)

pub record IsBounded (r : Reporter) : Type 0 where
  pub counted : length r.sent ≡ r.reports
  pub capped : r.reports ≡ min max_reports (length r.seen)
  pub cut : All IsCut r.sent
  pub distinct : IsDistinct r.seen

truthy-take : (n : ℕ) (s : Text) → truthy s ≡ true → truthy (take (suc n) s) ≡ true
truthy-take n [] h = h
truthy-take n (c ∷ s) h = refl

report_of-IsCut :
    (d : Described) (kind : ClientErrorKind) (components : Option Text) (route : Text)
    → truthy d.message ≡ true
    → IsCut (report_of d kind components route)
unfolding report_of
report_of-IsCut d kind components route h = (
  omega (arith, length-take max_message d.message),
  omega (arith, length-take max_stack (with_components components d.stack)),
  truthy-take 299 d.message h,
)

IsDistinct-append :
    (x : Text) (s : List Text) → has x s ≡ false → IsDistinct s → IsDistinct (s ++ x ∷ [])
IsDistinct-append x [] h d = (unfold has in refl, tt)
IsDistinct-append x (y ∷ s) h (d, ds) = (
  has-append y s (x ∷ []) ∙ unfold has in ground (arith, str_eq_sym x y),
  IsDistinct-append x s (unfold has in ground arith) ds,
)

report_described-IsBounded :
    (d : Described) (kind : ClientErrorKind) (components : Option Text) (route : Text)
    (r : Reporter)
    → IsBounded r
    → IsBounded (report_described d kind components route r)
unfolding report_described
report_described-IsBounded d kind components route r b = elim (Bool-cases (truthy d.message)) [
  | inr empty ↦ rw empty b
  | inl named ↦ rw named (elim (Bool-cases (has (signature d) r.seen)) [
    | inl old ↦ rw old b
    | inr new ↦
        let longer = length-append r.seen (signature d ∷ []) in
        let apart = IsDistinct-append (signature d) r.seen new b.distinct in
        rw new (elim (Bool-cases (leb max_reports r.reports)) [
          | inl full ↦ rw full (record {
            counted = b.counted;
            capped = ground (arith, b.capped, longer);
            cut = b.cut;
            distinct = apart;
          })
          | inr room ↦
              let cut = report_of-IsCut d kind components route named in
              let more = length-append r.sent (report_of d kind components route ∷ []) in
              rw room (record {
                counted = omega (arith, b.counted, more);
                capped = ground (arith, b.capped, longer);
                cut = All-append IsCut r.sent _ b.cut (cut, tt);
                distinct = apart;
              })
        ])
  ])
]

report_client_error-IsBounded :
    (e : Thrown) (kind : ClientErrorKind) (components : Option Text) (route : Text) (r : Reporter)
    → IsBounded r
    → IsBounded (report_client_error e kind components route r)
unfolding report_client_error report_maybe
report_client_error-IsBounded e kind components route r b = elim (Option-cases (describe e)) [
  | inl silent ↦ rw silent b
  | inr (d, told) ↦ rw told (report_described-IsBounded d kind components route r b)
]

crash-IsBounded :
    (route : Text) (c : Crash) (r : Reporter) → IsBounded r → IsBounded (crash route c r)
unfolding crash
crash-IsBounded route (rendered e components) r b =
    report_client_error-IsBounded e render (some components) route r b
crash-IsBounded route (uncaught true e message) r b = b
crash-IsBounded route (uncaught false e message) r b =
    report_client_error-IsBounded (or_message e message) global none route r b
crash-IsBounded route (rejected e) r b = report_client_error-IsBounded e rejection none route r b

pub crashes-IsBounded :
    (cs : List (Text × Crash)) (r : Reporter) → IsBounded r → IsBounded (crashes cs r)
unfolding crashes
crashes-IsBounded [] r b = b
crashes-IsBounded ((route, c) ∷ cs) r b =
    crashes-IsBounded cs (crash route c r) (crash-IsBounded route c r b)

pub fresh-IsBounded : IsBounded fresh
fresh-IsBounded = record { counted = refl; capped = omega arith; cut = tt; distinct = tt }

has_last : (x : Text) (s : List Text) → has x (s ++ x ∷ []) ≡ true
has_last x s = has-append x s (x ∷ []) ∙ unfold has in ground (arith, str_eq_refl x)

described_twice :
    (d : Described) (kind again : ClientErrorKind) (components others : Option Text)
    (route here : Text) (r : Reporter)
    → report_described d again others here (report_described d kind components route r)
      ≡ report_described d kind components route r
unfolding report_described
described_twice d kind again components others route here r =
    ground (arith, has_last (signature d) r.seen)

-- The error that React throws again after a boundary has reported it is not reported twice: with
-- the same message and stack, whatever the kind and the component stack, the second report
-- changes nothing.
pub report_twice :
    (e : Thrown) (kind again : ClientErrorKind) (components others : Option Text)
    (route here : Text) (r : Reporter)
    → report_client_error e again others here (report_client_error e kind components route r)
      ≡ report_client_error e kind components route r
unfolding report_client_error report_maybe
report_twice e kind again components others route here r = elim (Option-cases (describe e)) [
  | inl silent ↦ rw silent
  | inr (d, told) ↦ rw told (described_twice d kind again components others route here r)
]
