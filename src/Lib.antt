-- ===== src/Lib.antt =====
-- Konku's browser client, web/src: a React app for focus sessions, notes, flash cards and spaced
-- review. This library models the parts of it that keep state or decide something, as functions on
-- records, and proves what makes them correct.
--
-- A screen's state is a record of its React state, its refs and its mutation; a handler is a function
-- on it; what happens to a screen is a list of events, folded over the state. What is handed to the
-- network is kept as a list, in the order of sending. `null` and `undefined` are `none`, a string is
-- the list of its UTF-16 code units, and a number is a natural number: every number of these parts
-- is a count, an index or a time in whole milliseconds.
--
-- Timer        web/src/features/timer/useTimer.ts: `TimerState` and the callbacks. Timer/Stored is
--              `load` and the persisting effect. Timer/Provider is TimerProvider.tsx: the effect of
--              the account's default, the recording effect, and the commits that run them. Two passes
--              are a commit and the commit of the state that its effects set; each moment says whether the
--              store can be written. Timer/Log is the log by day,
--              SessionLog.tsx.
-- Review       Review/Deck is the due queue, web/src/features/review/ReviewPage.tsx; Review/Run is a
--              run of a saved set, RunPage.tsx beside it, with its two ends in Review/Run/Result and the way
--              back to it, over the query cache, in Review/Run/Return. `recorded` is what the server has
--              acknowledged.
-- NoteEditor   web/src/features/notes/NoteEditorPage.tsx: dirty, the autosave, the retries, the saves
--              on leaving. CardEditor is web/src/features/cards/CardEditorPage.tsx. Both hand the
--              write of a closing tab to Flush, web/src/lib/useFlushOnHide.ts.
-- Queries      the `queries.ts` files under web/src/features and
--              web/src/features/review/setQueries.ts: the keys (Queries/Keys), the parameters
--              of a filtered list (Queries/Requests), and each mutation's request and its effect on
--              the cache (Queries/Effects). Those of the account are Auth's and the one of the preferences is
--              Settings'; the export is a plain link.
-- Auth         Auth/Cache is the interface of TanStack's query cache: a record of the calls that the
--              app makes and their documented laws. Auth/SignOut is `reportSignedOut` and the
--              mutations of web/src/features/auth/useAuth.ts that end a session; Auth/Cooldown is
--              useResendCooldown.ts beside it; Auth/Requests is what useAuth.ts asks the server for.
-- Client       web/src/api/client.ts: what `fetch` is given, and what an answer comes to.
-- Paging       web/src/api/paging.ts. `load_all` presses "load more" until there is no next page; its
--              fuel is one more than the number of rows, and is never used up.
-- Form         web/src/lib/useZodForm.ts; the schema's `safeParse` is an argument.
-- Selection    web/src/lib/use-selection.ts, and the set of rows it stands for (Selection/Refine). Caret
--              is web/src/lib/caret.ts.
-- Peek         web/src/lib/peek-route.tsx: previews as addresses. The tab's history and the router's
--              `navigate` are a record of calls with their documented laws.
-- ListScreen   web/src/features/notes/NotesPage.tsx, whose shape CardsPage.tsx repeats: the filters in
--              the address (ListScreen/Params), ticking, deleting and undoing (ListScreen/Screen),
--              web/src/components/ui/search-input.tsx (ListScreen/Search), and the choice of grid or
--              list in view-toggle.tsx beside it (ListScreen/View).
-- Locale       web/src/i18n/boot.ts; Locale/Provider is web/src/i18n/index.tsx under AppLocale.tsx beside
--              it and the boot of web/src/main.tsx. A chunk that settles is an event.
-- Theme        web/public/theme.js and web/src/features/settings/useTheme.tsx, in a browser that has
--              `matchMedia`: two implementations, each with its own constants and its own painting.
-- Capture      web/src/features/timer/CaptureDialog.tsx and CaptureGate.tsx beside it.
-- Picker       `CategoryPicker` of web/src/components/ui/category.tsx, over the form's selected ids.
-- ReviewSets   the form of a new set in web/src/features/review/ReviewHomePage.tsx. Its Screen is the screen
--              of one set, with its card picker, in ReviewSetPage.tsx beside it.
-- Settings     web/src/features/settings/useSettings.ts: what a saved preference does to the cache.
--              Beside it, Settings/Password is ChangePassword.tsx, Settings/Removal is DeleteAccount.tsx and
--              Devices is ActiveSessions.tsx; Names is web/src/features/auth/displayName.ts.
-- Gate         web/src/App.tsx: which screen the app is, by the answer of `useMe` and the address. The
--              matching of the routes inside the shell is the router's.
-- Legal        the line of the legal copy, web/src/features/legal/inline.tsx (Legal/Inline), and the loading of
--              a language of it, web/src/i18n/legal/index.ts (Legal/Load). A search for a marker has a step
--              for each character and one more.
-- Boundary     web/src/components/error-boundary.tsx, which reports to Reporting. What the children throw
--              comes with each update.
-- Labels       the form of a new category in web/src/features/categories/CategorySettings.tsx: what is
--              awaited is a run beside the screen.
-- CopyCheck    web/scripts/check-i18n.mjs: its baseline, what reads as copy (CopyCheck/Prose) and where copy
--              does not stand (CopyCheck/Position). The syntax tree of a file is TypeScript's.
-- Nav          the destinations and the trail: web/src/components/layout/Nav.tsx, TopBar.tsx and
--              web/src/features/settings/nav.ts; the sidebar with its collapse is Nav/Sidebar. The router's
--              `NavLink` is a parameter.
-- Storage      web/src/lib/storage.ts: what a sign-out sweeps, and `shortHash` (Storage/Hash).
-- Dates        web/src/lib/date.ts. The `Intl` formatters and the time zone are the platform's and
--              are arguments; Dates/Calendar is the calendar of the `Date` constructor, whose carry
--              needs four months at most for a two-digit day.
-- Reporting    web/src/lib/report-error.ts: the counters of one page load and what is sent.
-- Common       the library's names passed on, Boolean tests, lists, strings, sets of strings, signed
--              numbers, digits, `trim`, `sort`, and `sameIds` of the two editors.
-- Examples     each theorem below at a concrete input.
--
-- Not modelled: the Go server (cmd, internal, migrations), which is another program behind the
-- requests; markup and styles, and the screens that are little else; the
-- zod schemas of the account forms, which only call zod; the catalogs of web/src/i18n, which are data; and the browser, React,
-- TanStack, zod and `Intl` themselves, of which the models take what they use as arguments.
pub mod Auth
pub mod Boundary
pub mod Capture
pub mod CardEditor
pub mod Caret
pub mod Client
pub mod Common
pub mod CopyCheck
pub mod Dates
pub mod Devices
pub mod Examples
pub mod Flush
pub mod Form
pub mod Gate
pub mod Labels
pub mod Legal
pub mod ListScreen
pub mod Locale
pub mod Names
pub mod Nav
pub mod NoteEditor
pub mod Paging
pub mod Peek
pub mod Picker
pub mod Queries
pub mod Reporting
pub mod Review
pub mod ReviewSets
pub mod Selection
pub mod Settings
pub mod Storage
pub mod Theme
pub mod Timer
