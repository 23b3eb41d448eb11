-- ===== src/Boundary.antt =====
-- The error boundaries of web/src/components/error-boundary.tsx. A boundary is mounted in a tree; what
-- its children throw when they are rendered, and the component stack of that, comes with each update.
-- A crash is reported by Reporting. React calls `getDerivedStateFromError` and `componentDidCatch` for
-- each render that throws, and `componentDidUpdate` after each update, that of a crash included.
pub mod Laws
use konku.Common.{
  Bool, true, false, ◌&&◌, not, Text, str_eq, Option, none, some, List, [], ◌∷◌, if◌then◌else◌,
}
use konku.Reporting.{Thrown, Crash, rendered, Reporter, crash}

-- What is thrown, and the component stack.
abbrev pub Failure : Type 0
Failure = Thrown × Text

-- `reset_key` is the prop of the last update, the path on the route's boundary; `reporter` is the
-- counters of the page load.
pub record Boundary : Type 0 where
  pub crashed : Bool
  pub reset_key : Text
  pub reporter : Reporter

pub data View : Type 0 where
  children fallback : View

unfoldable pub view : Boundary → View
view b = if b.crashed then fallback else children

-- `getDerivedStateFromError` and `componentDidCatch`, at a path.
unfoldable pub did_catch : Text → Failure → Boundary → Boundary
did_catch path (e, stack) b = record b {
  crashed = true;
  reporter = crash path (rendered e stack) b.reporter;
}

abbrev pub render_by : Bool → Text → Option Failure → Boundary → Boundary
render_by true path failure b = b
render_by false path none b = b
render_by false path (some failure) b = did_catch path failure b

-- One render: of the fallback, which throws nothing, or of the children.
unfoldable pub render : Text → Option Failure → Boundary → Boundary
unfolding did_catch
render path failure b = render_by b.crashed path failure b

-- `componentDidUpdate`, with the key of before, and the render that its `setState` makes.
unfoldable pub did_update : Text → Text → Option Failure → Boundary → Boundary
did_update prev path failure b =
    if b.crashed && not (str_eq prev b.reset_key)
    then render path failure (record b { crashed = false })
    else b

pub data Event : Type 0 where
  -- An update with a key, at a path, and what the children throw if they are rendered during it.
  updated : (key path : Text) → Option Failure → Event
  -- The children render by themselves, and throw.
  broke : (path : Text) → Failure → Event

abbrev pub update : Text → Text → Option Failure → Boundary → Boundary
update key path failure b =
    did_update b.reset_key path failure (render path failure (record b { reset_key = key }))

unfoldable pub handle : Event → Boundary → Boundary
handle (updated key path failure) b = update key path failure b
handle (broke path failure) b = render path (some failure) b

unfoldable pub handle_all : List Event → Boundary → Boundary
handle_all [] b = b
handle_all (e ∷ es) b = handle_all es (handle e b)
