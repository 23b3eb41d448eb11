-- ===== src/Boundary/Laws.antt =====
-- What an error boundary shows after a crash and after leaving it, and what is reported.
use konku.Common.{
  ◌≡◌, refl, ap, ◌∙◌, Bool, true, false, Text, str_eq, Option, none, some, List, [], ◌∷◌, ◌++◌,
  arith, str_eq_refl, All,
}
use konku.Common.Sets.{has, has-append}
use konku.Reporting.{
  Thrown, rendered, Reporter, Described, describe, signature, report_described, report_maybe,
  report_client_error, crash, ClientErrorKind,
}
use konku.Boundary.{
  Failure, Boundary, View, children, fallback, view, did_catch, render, did_update, Event, updated,
  broke, handle, handle_all,
}

has-last : (x : Text) (s : List Text) → has x (s ++ x ∷ []) ≡ true
has-last x s = has-append x s (x ∷ []) ∙ unfold has in ground (arith, str_eq_refl x)

again_described :
    (d : Described) (k : ClientErrorKind) (c : Option Text) (route : Text) (r : Reporter)
    → report_described d k c route (report_described d k c route r) ≡ report_described d k c route r
unfolding report_described
again_described d k c route r = ground (arith, has-last (signature d) r.seen)

again_maybe :
    (d : Option Described) (k : ClientErrorKind) (c : Option Text) (route : Text) (r : Reporter)
    → report_maybe d k c route (report_maybe d k c route r) ≡ report_maybe d k c route r
unfolding report_maybe
again_maybe none k c route r = refl
again_maybe (some d) k c route r = again_described d k c route r

-- The second report of an error changes nothing.
again :
    (path : Text) (e : Thrown) (stack : Text) (r : Reporter)
    → crash path (rendered e stack) (crash path (rendered e stack) r)
      ≡ crash path (rendered e stack) r
unfolding crash report_client_error
again path e stack r = again_maybe (describe e) konku.Reporting.render (some stack) path r

-- What a screen shows, and the reports behind it, when it is rendered afresh.
abbrev pub view_of : Option Failure → View
view_of none = children
view_of (some failure) = fallback

abbrev pub reporter_of : Text → Option Failure → Reporter → Reporter
reporter_of path none r = r
reporter_of path (some (e, stack)) r = crash path (rendered e stack) r

opened_by :
    (crashed : Bool) (prev key path : Text) (failure : Option Failure) (r : Reporter)
    → str_eq prev key ≡ false
    → let b : Boundary = record { crashed = crashed; reset_key = prev; reporter = r } in
      handle (updated key path failure) b ≡ record {
        crashed = elim failure [ none ↦ false | some f ↦ true ];
        reset_key = key;
        reporter = reporter_of path failure r;
      }
unfolding handle render did_update did_catch
opened_by true prev key path none r n = rw n refl
opened_by true prev key path (some (e, stack)) r n = rw n refl
opened_by false prev key path none r n = refl
opened_by false prev key path (some (e, stack)) r n = rw n (
    ap (λ (x : Reporter). record { crashed = true; reset_key = key; reporter = x })
      (again path e stack r))

-- An update that keeps the key, or a crash of the children.
abbrev pub Keeps : Text → Event → Type 0
Keeps key (updated key' path failure) = key' ≡ key
Keeps key (broke path failure) = Unit

stays_one : (e : Event) (b : Boundary) → b.crashed ≡ true → Keeps b.reset_key e → handle e b ≡ b
unfolding handle render did_update did_catch
stays_one (updated key path failure) b c k = ground (arith, str_eq_refl b.reset_key)
stays_one (broke path failure) b c k = ground arith

stays :
    (es : List Event) (b : Boundary)
    → b.crashed ≡ true
    → All (Keeps b.reset_key) es
    → handle_all es b ≡ b
unfolding handle_all
stays [] b c h = refl
stays (e ∷ es) b c (k, h) = let same = stays_one e b c k in ap (handle_all es) same ∙ stays es b c h

crashed_view : (b : Boundary) → b.crashed ≡ true → view b ≡ fallback
unfolding view
crashed_view b c = ground arith

-- A crash of the children puts the fallback in their place and is reported; whatever is updated or
-- would throw under the same key, the fallback stays and nothing more is reported.
pub broke_lem :
    (path : Text) (e : Thrown) (stack : Text) (b : Boundary) (es : List Event)
    → b.crashed ≡ false
    → All (Keeps b.reset_key) es
    → let a = handle_all es (handle (broke path (e, stack)) b) in
      (view a ≡ fallback) × (a.reporter ≡ crash path (rendered e stack) b.reporter)
broke_lem path e stack b es c h =
    let a : Boundary = did_catch path (e, stack) b in
    let first : handle (broke path (e, stack)) b ≡ a = unfold handle render in rw c in
    let same : handle_all es (handle (broke path (e, stack)) b) ≡ a =
      ap (handle_all es) first ∙ stays_after path e stack b es h in
    (
      ap view same ∙ (unfold view did_catch in refl),
      ap (λ x. x.reporter) same ∙ (unfold did_catch in refl),
    )
  where
    stays_after :
        (path : Text) (e : Thrown) (stack : Text) (b : Boundary) (es : List Event)
        → All (Keeps b.reset_key) es
        → handle_all es (did_catch path (e, stack) b) ≡ did_catch path (e, stack) b
    stays_after path e stack b es h =
        unfold did_catch in stays es (did_catch path (e, stack) b) refl h

-- Whatever happened before, an update with another key shows the children if they do not throw, and
-- the fallback if they do; what they throw is reported once, although a boundary that had not crashed
-- renders them twice.
pub updated_lem :
    (es : List Event) (start : Boundary) (key path : Text) (failure : Option Failure)
    → str_eq (handle_all es start).reset_key key ≡ false
    → let b = handle_all es start in
      let a = handle (updated key path failure) b in
      (view a ≡ view_of failure)
      × (a.reporter ≡ reporter_of path failure b.reporter)
      × (a.reset_key ≡ key)
updated_lem es start key path failure n =
    let b = handle_all es start in
    let e = opened_by b.crashed b.reset_key key path failure b.reporter n in
    (shown failure e, ap (λ x. x.reporter) e, ap (λ x. x.reset_key) e)
  where
    shown :
        (failure : Option Failure) {a : Boundary} {key : Text} {r : Reporter}
        → a ≡ record {
          crashed = elim failure [ none ↦ false | some f ↦ true ];
          reset_key = key;
          reporter = r;
        }
        → view a ≡ view_of failure
    shown none e = ap view e ∙ (unfold view in refl)
    shown (some f) e = ap view e ∙ (unfold view in refl)
