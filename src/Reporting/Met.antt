-- ===== src/Reporting/Met.antt =====
-- What a page load reports is the first five distinct errors that it meets.
use konku.Common.{
  ℕ, zero, suc, ◌-◌, ◌≡◌, refl, sym, ap, ◌∙◌, inl, inr, true, false, Text, codes, List, [], ◌∷◌,
  ◌++◌, Option, none, some, take, map, leb, All, Bool-cases, append_assoc, append-nil, arith,
  if◌then◌else◌,
}
use konku.Common.Sets.{has}
use konku.Reporting.{
  ClientErrorKind, Report, Described, Thrown, Reporter, error, text, other, fresh, describe,
  signature, report_of, with_components, report_described, report_maybe, report_client_error, Crash,
  rendered, uncaught, rejected, crash, crashes, render, global, rejection,
}
use konku.Reporting.Laws.{IsCut, crashes-IsBounded, fresh-IsBounded}

-- An error that was met: what tells it from others, which is its message and the start of its stack,
-- and what is to be said of it.
abbrev pub Met : Type 0
Met = Text × Report

-- What is thrown as a message and a stack, if it can be put into words.
abbrev pub told : Thrown → Option (Text × Text)
told (error [] name none) = some (name, [])
told (error [] name (some stack)) = some (name, stack)
told (error (c ∷ message) name none) = some (c ∷ message, [])
told (error (c ∷ message) name (some stack)) = some (c ∷ message, stack)
told (text s) = some (s, [])
told (other none) = none
told (other (some s)) = some (s, [])

-- The stack, with React's behind it where there is one.
abbrev pub whole_stack : Text → Option Text → Text
whole_stack stack (some (c ∷ components)) = stack ++ codes "\n\nComponent stack:" ++ c ∷ components
whole_stack stack _ = stack

abbrev pub met_by : Option (Text × Text) → ClientErrorKind → Option Text → Text → List Met
met_by none kind components route = []
met_by (some ([], stack)) kind components route = []
met_by (some (c ∷ message, stack)) kind components route =
    (
      c ∷ message ++ b'\n' ∷ take 200 stack,
      record {
        message = take 300 (c ∷ message);
        stack = take 4000 (whole_stack stack components);
        route = route;
        kind = kind;
      },
    )
    ∷ []

-- An element that fails to load is no error, and neither is what cannot be described or says nothing.
-- An event without an error says its message.
abbrev pub met_in : Text → Crash → List Met
met_in route (rendered e components) = met_by (told e) render (some components) route
met_in route (uncaught true e message) = []
met_in route (uncaught false none message) = met_by (some (message, [])) global none route
met_in route (uncaught false (some e) message) = met_by (told e) global none route
met_in route (rejected e) = met_by (told e) rejection none route

abbrev pub met : List (Text × Crash) → List Met
met [] = []
met ((route, c) ∷ cs) = met_in route c ++ met cs

-- Of each error, given those that have been seen, the first time it is met.
abbrev pub firsts : List Text → List Met → List Met
firsts seen [] = []
firsts seen ((sign, report) ∷ ms) =
    let old = firsts seen ms in
    let new = firsts (seen ++ sign ∷ []) ms in if has sign seen then old else (sign, report) ∷ new

abbrev feed_one : Met → Reporter → Reporter
feed_one (sign, report) r =
    if has sign r.seen
    then r
    else (let noted : Reporter = record r { seen = r.seen ++ sign ∷ [] } in
        if leb 5 r.reports
        then noted
        else record noted { reports = suc r.reports; sent = r.sent ++ report ∷ [] })

abbrev feed : List Met → Reporter → Reporter
feed [] r = r
feed (m ∷ ms) r = feed ms (feed_one m r)

feed-append : (ms ns : List Met) (r : Reporter) → feed (ms ++ ns) r ≡ feed ns (feed ms r)
feed-append [] ns r = refl
feed-append (m ∷ ms) ns r = feed-append ms ns (feed_one m r)

abbrev described : Text × Text → Described
described (message, stack) = record { message = message; stack = stack }

whole_stack_lem :
    (components : Option Text) (stack : Text)
    → with_components components stack ≡ whole_stack stack components
unfolding with_components
whole_stack_lem none stack = refl
whole_stack_lem (some []) stack = refl
whole_stack_lem (some (c ∷ components)) stack = refl

feed_told :
    (t : Text × Text) (kind : ClientErrorKind) (components : Option Text) (route : Text)
    (r : Reporter)
    → report_described (described t) kind components route r
      ≡ feed (met_by (some t) kind components route) r
unfolding report_described signature report_of
feed_told ([], stack) kind components route r = refl
feed_told (c ∷ message, stack) kind components route r = rw (whole_stack_lem components stack) refl

describe-told :
    (e : Thrown) → describe e ≡ (elim (told e) [ none ↦ none | some t ↦ some (described t) ])
unfolding describe
describe-told (error [] name none) = refl
describe-told (error [] name (some stack)) = refl
describe-told (error (c ∷ message) name none) = refl
describe-told (error (c ∷ message) name (some stack)) = refl
describe-told (text s) = refl
describe-told (other none) = refl
describe-told (other (some s)) = refl

feed_report :
    (e : Thrown) (kind : ClientErrorKind) (components : Option Text) (route : Text) (r : Reporter)
    → report_client_error e kind components route r ≡ feed (met_by (told e) kind components route) r
unfolding report_client_error report_maybe
feed_report e kind components route r =
    ap (λ d. report_maybe d kind components route r) (describe-told e) ∙ by_told (told e)
  where
    by_told :
        (t : Option (Text × Text))
        → report_maybe
            (elim t [ none ↦ none | some u ↦ some (described u) ])
            kind
            components
            route
            r
          ≡ feed (met_by t kind components route) r
    by_told none = refl
    by_told (some u) = feed_told u kind components route r

feed-crash : (route : Text) (c : Crash) (r : Reporter) → crash route c r ≡ feed (met_in route c) r
unfolding crash
feed-crash route (rendered e components) r = feed_report e render (some components) route r
feed-crash route (uncaught true e message) r = refl
feed-crash route (uncaught false none message) r = feed_report (text message) global none route r
feed-crash route (uncaught false (some e) message) r = feed_report e global none route r
feed-crash route (rejected e) r = feed_report e rejection none route r

feed-crashes : (cs : List (Text × Crash)) (r : Reporter) → crashes cs r ≡ feed (met cs) r
unfolding crashes
feed-crashes [] r = refl
feed-crashes ((route, c) ∷ cs) r =
    ap (crashes cs) (feed-crash route c r)
    ∙ feed-crashes cs (feed (met_in route c) r)
    ∙ sym (feed-append (met_in route c) (met cs) r)

feed_old :
    (sign : Text) (report : Report) (r : Reporter)
    → has sign r.seen ≡ true
    → feed_one (sign, report) r ≡ r
feed_old sign report r e = rw e refl

feed_full :
    (sign : Text) (report : Report) (r : Reporter)
    → has sign r.seen ≡ false
    → leb 5 r.reports ≡ true
    → feed_one (sign, report) r ≡ record r { seen = r.seen ++ sign ∷ [] }
feed_full sign report r e full = rw (e, full) refl

feed_new :
    (sign : Text) (report : Report) (r : Reporter)
    → has sign r.seen ≡ false
    → leb 5 r.reports ≡ false
    → feed_one (sign, report) r ≡ record r {
      seen = r.seen ++ sign ∷ [];
      reports = suc r.reports;
      sent = r.sent ++ report ∷ [];
    }
feed_new sign report r e room = rw (e, room) refl

firsts_old :
    (seen : List Text) (sign : Text) (report : Report) (ms : List Met)
    → has sign seen ≡ true
    → firsts seen ((sign, report) ∷ ms) ≡ firsts seen ms
firsts_old seen sign report ms e = rw e refl

firsts_new :
    (seen : List Text) (sign : Text) (report : Report) (ms : List Met)
    → has sign seen ≡ false
    → firsts seen ((sign, report) ∷ ms) ≡ (sign, report) ∷ firsts (seen ++ sign ∷ []) ms
firsts_new seen sign report ms e = rw e refl

take-nil : (n : ℕ) → take {A = Report} n [] ≡ []
take-nil zero = refl
take-nil (suc n) = refl

take_none : (n : ℕ) (xs : List Report) → n ≡ 0 → take n xs ≡ []
take_none n xs e = rw e refl

take_next : (m n : ℕ) (x : Report) (xs : List Report) → n ≡ suc m → take n (x ∷ xs) ≡ x ∷ take m xs
take_next m n x xs e = rw e refl

abbrev to_send : ℕ → List Text → List Met → List Report
to_send reports seen ms = take (5 - reports) (map (λ m. m.1) (firsts seen ms))

fed : (ms : List Met) (r : Reporter) → (feed ms r).sent ≡ r.sent ++ to_send r.reports r.seen ms
fed [] r = sym (ap (λ xs. r.sent ++ xs) (take-nil (5 - r.reports)) ∙ append-nil r.sent)
fed ((sign, report) ∷ ms) r = elim (Bool-cases (has sign r.seen)) [
  | inl e ↦
      ap (λ x. (feed ms x).sent) (feed_old sign report r e)
      ∙ fed ms r
      ∙ ap (λ xs. r.sent ++ take (5 - r.reports) (map (λ m. m.1) xs))
          (sym (firsts_old r.seen sign report ms e))
  | inr e ↦
      let seen = r.seen ++ sign ∷ [] in
      let next = map (λ m. m.1) (firsts seen ms) in
      let found : map (λ m. m.1) (firsts r.seen ((sign, report) ∷ ms)) ≡ report ∷ next =
        ap (map (λ m. m.1)) (firsts_new r.seen sign report ms e) in
      elim (Bool-cases (leb 5 r.reports)) [
        | inl full ↦
            ap (λ x. (feed ms x).sent) (feed_full sign report r e full)
            ∙ fed ms (record r { seen = seen })
            ∙ ap (λ xs. r.sent ++ xs)
                (take_none (5 - r.reports) next (ground arith)
                  ∙ sym (take_none (5 - r.reports) _ (ground arith)))
        | inr room ↦
            ap (λ x. (feed ms x).sent) (feed_new sign report r e room)
            ∙ fed ms
                (record r { seen = seen; reports = suc r.reports; sent = r.sent ++ report ∷ [] })
            ∙ append_assoc r.sent (report ∷ []) (take (5 - suc r.reports) next)
            ∙ ap (λ xs. r.sent ++ xs)
                (sym (take_next (5 - suc r.reports) (5 - r.reports) report next (ground arith))
                  ∙ ap (take (5 - r.reports)) (sym found))
      ]
]

-- Whatever crashes in one page load, and however often: what is sent is a report of each of the first
-- five distinct errors that were met, in their order, of the time each was first met; two errors with
-- the same message and the same first 200 characters of the stack are one; and each report has a
-- message, and is cut to the caps.
pub crashes_bounded :
    (cs : List (Text × Crash))
    → ((crashes cs fresh).sent ≡ take 5 (map (λ m. m.1) (firsts [] (met cs))))
      × All IsCut (crashes cs fresh).sent
crashes_bounded cs = (
  ap (λ r. r.sent) (feed-crashes cs fresh) ∙ fed (met cs) fresh,
  (crashes-IsBounded cs fresh fresh-IsBounded).cut,
)
