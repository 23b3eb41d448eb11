-- ===== src/Reporting.antt =====
-- Client crash reporting: web/src/lib/report-error.ts. The counters of one page load are the state;
-- what `fetch` is given is kept in the order of sending, and a `fetch` that throws changes nothing
-- else.
pub mod Laws
pub mod Met
use konku.Common.{
  ℕ, suc, ◌+◌, Bool, true, false, Text, codes, List, [], ◌∷◌, ◌++◌, Option, none, some, take, leb,
  truthy, if◌then◌else◌,
}
use konku.Common.Sets.{has}

abbrev pub max_message : ℕ
max_message = 300

abbrev pub max_stack : ℕ
max_stack = 4000

abbrev pub max_reports : ℕ
max_reports = 5

pub data ClientErrorKind : Type 0 where
  render global rejection : ClientErrorKind

pub record Report : Type 0 where
  pub message : Text
  pub stack : Text
  pub route : Text
  pub kind : ClientErrorKind

-- What was thrown: an `Error` with its message, name and stack, a string, or any other value with
-- the result of `String(value)`, which may throw.
pub data Thrown : Type 0 where
  error : Text → Text → Option Text → Thrown
  text : Text → Thrown
  other : Option Text → Thrown

pub record Described : Type 0 where
  pub message : Text
  pub stack : Text

abbrev or_empty : Option Text → Text
or_empty none = []
or_empty (some s) = s

-- `none` where describing throws.
unfoldable pub describe : Thrown → Option Described
describe (error message name stack) =
    some (record { message = if truthy message then message else name; stack = or_empty stack })
describe (text s) = some (record { message = s; stack = [] })
describe (other none) = none
describe (other (some s)) = some (record { message = s; stack = [] })

-- `reports`, `seen`, and what was sent.
pub record Reporter : Type 0 where
  pub reports : ℕ
  pub seen : List Text
  pub sent : List Report

abbrev pub fresh : Reporter
fresh = record { reports = 0; seen = []; sent = [] }

unfoldable pub signature : Described → Text
signature d = d.message ++ 10 ∷ take 200 d.stack

unfoldable pub with_components : Option Text → Text → Text
with_components none stack = stack
with_components (some components) stack =
    if truthy components then stack ++ codes "\n\nComponent stack:" ++ components else stack

unfoldable pub report_of : Described → ClientErrorKind → Option Text → Text → Report
report_of d kind components route = record {
  message = take max_message d.message;
  stack = take max_stack (with_components components d.stack);
  route = route;
  kind = kind;
}

unfoldable pub report_described :
    Described → ClientErrorKind → Option Text → Text → Reporter → Reporter
report_described d kind components route r =
    if truthy d.message
    then (if has (signature d) r.seen
        then r
        else (let noted : Reporter = record r { seen = r.seen ++ signature d ∷ [] } in
            if leb max_reports r.reports then noted else record noted {
              reports = suc r.reports;
              sent = r.sent ++ report_of d kind components route ∷ [];
            }))
    else r

unfoldable pub report_maybe :
    Option Described → ClientErrorKind → Option Text → Text → Reporter → Reporter
report_maybe none kind components route r = r
report_maybe (some d) kind components route r = report_described d kind components route r

-- `route` is `window.location.pathname`.
unfoldable pub report_client_error :
    Thrown → ClientErrorKind → Option Text → Text → Reporter → Reporter
report_client_error e kind components route r = report_maybe (describe e) kind components route r

-- What the two listeners and the error boundary report.
pub data Crash : Type 0 where
  rendered : Thrown → Text → Crash
  -- Whether the event's target is an element, `event.error`, and `event.message`.
  uncaught : Bool → Option Thrown → Text → Crash
  rejected : Thrown → Crash

abbrev pub or_message : Option Thrown → Text → Thrown
or_message none message = text message
or_message (some e) message = e

unfoldable pub crash : Text → Crash → Reporter → Reporter
crash route (rendered e components) r = report_client_error e render (some components) route r
crash route (uncaught from_element e message) r =
    if from_element then r else report_client_error (or_message e message) global none route r
crash route (rejected e) r = report_client_error e rejection none route r

unfoldable pub crashes : List (Text × Crash) → Reporter → Reporter
crashes [] r = r
crashes ((route, c) ∷ cs) r = crashes cs (crash route c r)
