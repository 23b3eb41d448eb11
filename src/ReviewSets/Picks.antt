-- ===== src/ReviewSets/Picks.antt =====
-- What the card picker of a saved set has chosen, and what its screen sends.
use konku.Common.{
  ◌≡◌, refl, sym, ap, ◌∙◌, inl, inr, Bool, false, not, Text, str_eq, str_eq_iff, Option, none, some,
  List, [], ◌∷◌, ◌++◌, All, All-append, if◌then◌else◌, arith, Bool-cases,
}
use mathlib.Core.Path.{subst}
use konku.Common.Sets.{has, add, delete, has-append, IsDistinct, IsDistinct-filter, str_eq_sym}
use konku.Selection
use konku.Selection.Laws.{has-toggle}
use konku.ListScreen.Toggles.{xor}
use konku.ReviewSets.{toggle}
use konku.ReviewSets.Screen.{
  Request, start_run, set_cards, archive_set, delete_set, SetScreen, opened, Event, begun,
  run_answered, ticked, saved, archived, deleted, cards_answered, archive_answered, delete_answered,
  begin, started, submit_cards, on_screen, handle_by, handle, handle_all,
}

-- The press of a box is the tick of a row.
same_toggle : (id : Text) (ids : List Text) → toggle id ids ≡ Selection.toggle id ids
unfolding toggle Selection.toggle add delete
same_toggle id ids = elim (Bool-cases (has id ids)) [ inl e ↦ rw e refl | inr e ↦ rw e refl ]

IsDistinct-snoc :
    (x : Text) (s : List Text) → has x s ≡ false → IsDistinct s → IsDistinct (s ++ x ∷ [])
unfolding has
IsDistinct-snoc x [] n h = (refl, tt)
IsDistinct-snoc x (y ∷ s) n (h, hs) = (
  has-append y s (x ∷ []) ∙ unfold has in ground (arith, str_eq_sym x y),
  IsDistinct-snoc x s (ground arith) hs,
)

toggle-IsDistinct : (id : Text) (ids : List Text) → IsDistinct ids → IsDistinct (toggle id ids)
unfolding toggle
toggle-IsDistinct id ids h = elim (Bool-cases (has id ids)) [
  | inl e ↦ rw e (IsDistinct-filter (λ s. not (str_eq s id)) ids h)
  | inr e ↦ rw e (IsDistinct-snoc id ids e h)
]

-- A request about this set; the cards it names are named once.
abbrev pub IsProper : Text → Request → Type 0
IsProper id (start_run set today) = set ≡ id
IsProper id (set_cards set cards) = (set ≡ id) × IsDistinct cards
IsProper id (archive_set set) = set ≡ id
IsProper id (delete_set set) = set ≡ id

-- The screen is of this set, has no card twice and has sent proper requests.
abbrev IsGood : Text → SetScreen → Type 0
IsGood id s = (s.id ≡ id) × IsDistinct s.chosen × All (IsProper id) s.sent

begin-IsGood : (id today : Text) (s : SetScreen) → IsGood id s → IsGood id (begin today s)
unfolding begin
begin-IsGood id today s (i, d, a) = elim (Bool-cases s.starting) [
  | inl e ↦ rw e (i, d, a)
  | inr e ↦ rw e (i, d, All-append (IsProper id) s.sent _ a (i, tt))
]

submit_cards-IsGood : (id : Text) (s : SetScreen) → IsGood id s → IsGood id (submit_cards s)
unfolding submit_cards
submit_cards-IsGood id s (i, d, a) = elim (Bool-cases s.saving) [
  | inl e ↦ rw e (i, d, a)
  | inr e ↦ rw e (i, d, All-append (IsProper id) s.sent _ a ((i, d), tt))
]

started-IsGood :
    (id : Text) (answer : Option Text) (s : SetScreen) → IsGood id s → IsGood id (started answer s)
started-IsGood id none s h = h
started-IsGood id (some run) s h = h

on_screen-IsGood : (id : Text) (e : Event) (s : SetScreen) → IsGood id s → IsGood id (on_screen e s)
unfolding on_screen
on_screen-IsGood id (begun today) s h = begin-IsGood id today s h
on_screen-IsGood id (run_answered answer) s h = elim (Bool-cases s.starting) [
  | inl e ↦
      subst (λ b. IsGood id (if b then started answer s else s)) (sym e)
        (started-IsGood id answer s h)
  | inr e ↦ subst (λ b. IsGood id (if b then started answer s else s)) (sym e) h
]
on_screen-IsGood id (ticked card) s (i, d, a) = (i, toggle-IsDistinct card s.chosen d, a)
on_screen-IsGood id saved s h = submit_cards-IsGood id s h
on_screen-IsGood id (cards_answered ok) s h = h
on_screen-IsGood id archived s (i, d, a) = (i, d, All-append (IsProper id) s.sent _ a (i, tt))
on_screen-IsGood id (archive_answered ok) s h = elim (Bool-cases s.archiving) [
  | inl e ↦ rw e h
  | inr e ↦ rw e h
]
on_screen-IsGood id deleted s (i, d, a) = (i, d, All-append (IsProper id) s.sent _ a (i, tt))
on_screen-IsGood id (delete_answered ok) s h = elim (Bool-cases s.deleting) [
  | inl e ↦ rw e h
  | inr e ↦ rw e h
]

handle_by-IsGood :
    (id : Text) (gone : Option Text) (e : Event) (s : SetScreen)
    → IsGood id s
    → IsGood id (handle_by gone e s)
handle_by-IsGood id none e s h = on_screen-IsGood id e s h
handle_by-IsGood id (some path) e s h = h

handle_all-IsGood :
    (id : Text) (es : List Event) (s : SetScreen) → IsGood id s → IsGood id (handle_all es s)
unfolding handle_all handle
handle_all-IsGood id [] s h = h
handle_all-IsGood id (e ∷ es) s h = handle_all-IsGood id es _ (handle_by-IsGood id s.gone e s h)

-- When no card is pinned twice, everything the screen sends is about its own set, and the cards it
-- saves are each named once.
pub sent-IsProper :
    (id : Text) (pinned : List Text) (es : List Event)
    → IsDistinct pinned
    → All (IsProper id) (handle_all es (opened id pinned)).sent
unfolding opened
sent-IsProper id pinned es d = (handle_all-IsGood id es _ (refl, d, tt)).2

abbrev pub is_press : Text → Event → Bool
is_press y (ticked card) = str_eq card y
is_press y _ = false

-- Whether a card has been pressed an odd number of times.
unfoldable pub is_odd : Text → List Event → Bool
is_odd y [] = false
is_odd y (e ∷ es) = let rest = is_odd y es in if is_press y e then not rest else rest

has-toggle_one :
    (id y : Text) (ids : List Text)
    → has y (toggle id ids) ≡ (if str_eq id y then not (has y ids) else has y ids)
has-toggle_one id y ids =
    ap (has y) (same_toggle id ids) ∙ has-toggle id y ids ∙ elim (Bool-cases (str_eq id y)) [
      | inl e ↦ rw e (ap (λ x. not (has x ids)) ((str_eq_iff id y).0 e))
      | inr e ↦ rw e refl
    ]

-- Once it has gone the screen stays gone.
stays_gone :
    (es : List Event) (path : Text) (s : SetScreen)
    → s.gone ≡ some path
    → (handle_all es s).gone ≡ some path
unfolding handle_all handle
stays_gone [] path s g = g
stays_gone (e ∷ es) path s g =
    stays_gone es path _ (subst (λ o. (handle_by o e s).gone ≡ some path) (sym g) g)

has-on_screen :
    (y : Text) (e : Event) (s : SetScreen)
    → has y (on_screen e s).chosen ≡ (if is_press y e then not (has y s.chosen) else has y s.chosen)
unfolding on_screen begin submit_cards
has-on_screen y (begun today) s = elim (Bool-cases s.starting) [
  | inl e ↦ rw e refl
  | inr e ↦ rw e refl
]
has-on_screen y (run_answered none) s = elim (Bool-cases s.starting) [
  | inl e ↦ rw e refl
  | inr e ↦ rw e refl
]
has-on_screen y (run_answered (some run)) s = elim (Bool-cases s.starting) [
  | inl e ↦ rw e refl
  | inr e ↦ rw e refl
]
has-on_screen y (ticked card) s = has-toggle_one card y s.chosen
has-on_screen y saved s = elim (Bool-cases s.saving) [ inl e ↦ rw e refl | inr e ↦ rw e refl ]
has-on_screen y (cards_answered ok) s = refl
has-on_screen y archived s = refl
has-on_screen y (archive_answered ok) s = elim (Bool-cases s.archiving) [
  | inl e ↦ rw e refl
  | inr e ↦ rw e refl
]
has-on_screen y deleted s = refl
has-on_screen y (delete_answered ok) s = elim (Bool-cases s.deleting) [
  | inl e ↦ rw e refl
  | inr e ↦ rw e refl
]

is_open :
    (o : Option Text) (es : List Event) (s : SetScreen)
    → s.gone ≡ o
    → (handle_all es s).gone ≡ none
    → s.gone ≡ none
is_open none es s g h = g
is_open (some path) es s g h = ground (arith, stays_gone es path s g, h)

chosen_from :
    (y : Text) (es : List Event) (s : SetScreen)
    → (handle_all es s).gone ≡ none
    → has y (handle_all es s).chosen ≡ xor (is_odd y es) (has y s.chosen)
unfolding handle_all handle is_odd
chosen_from y [] s h = refl
chosen_from y (e ∷ es) s h =
    let g : s.gone ≡ none = is_open s.gone (e ∷ es) s refl h in
    chosen_from y es _ h
    ∙ ap (λ o. xor (is_odd y es) (has y (handle_by o e s).chosen)) g
    ∙ rw (has-on_screen y e s) (ground arith)

-- While the screen is there, a card is chosen when it was pinned and has been pressed an even number
-- of times, or was not pinned and has been pressed an odd number of times.
pub chosen_lem :
    (id y : Text) (pinned : List Text) (es : List Event)
    → (handle_all es (opened id pinned)).gone ≡ none
    → has y (handle_all es (opened id pinned)).chosen ≡ xor (is_odd y es) (has y pinned)
unfolding opened
chosen_lem id y pinned es h = chosen_from y es _ h
