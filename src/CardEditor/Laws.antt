-- ===== src/CardEditor/Laws.antt =====
-- What the card editor sends, and when.
use konku.Common.{
  ℕ, suc, ◌≡◌, ◌≢◌, refl, ◌∙◌, ap, inl, inr, Bool, true, false, ◌&&◌, ◌||◌, not, Text, List, [],
  ◌∷◌, ◌++◌, Option, none, some, str_eq_refl, truthy, if◌then◌else◌, Bool-cases, arith, All,
  All-append, Option-cases,
}
use konku.Common.Trim.{trim, trim-trim}
use konku.Common.SameIds.{same_ids_refl}
use konku.NoteEditor.Laws.{same_domain_refl}
use konku.CardEditor.{
  Card, Request, create, update, Editor, opened, input, valid, differs, dirty, persist, arrive,
  press_save, leave, hide, respond, fail, remove,
}

differs_self : (c : Card) → differs c c ≡ false
unfolding differs
differs_self c = rw (
  str_eq_refl c.front,
  str_eq_refl c.back,
  same_domain_refl c.domain_id,
  same_ids_refl c.category_ids,
)

abbrev pub sides : Request → Card
sides (create c) = c
sides (update id c) = c

-- Both sides are filled in and trimmed.
abbrev pub IsWhole : Request → Type 0
IsWhole r =
    (truthy (sides r).front ≡ true)
    × (truthy (sides r).back ≡ true)
    × (trim (sides r).front ≡ (sides r).front)
    × (trim (sides r).back ≡ (sides r).back)

pub data Event : Type 0 where
  arrived : Card → Event
  edited : Card → Event
  pressed left hidden refused deleted : Event
  answered : Text → Card → Event

unfoldable pub handle : Event → Editor → Editor
handle (arrived card) e = arrive card e
handle (edited fields) e = record e { screen = fields }
handle pressed e = press_save e
handle left e = leave e
handle hidden e = hide e
handle refused e = fail e
handle deleted e = remove e
handle (answered id card) e = respond id card e

unfoldable pub handle_all : List Event → Editor → Editor
handle_all [] e = e
handle_all (ev ∷ evs) e = handle_all evs (handle ev e)

persist-IsWhole :
    (and_go : Bool) (e : Editor)
    → valid e ≡ true
    → All IsWhole e.sent
    → All IsWhole (persist and_go e).sent
unfolding persist valid input
persist-IsWhole and_go e v h = elim (Option-cases e.route) [
  | inl new ↦ rw new (All-append IsWhole e.sent _ h (whole e v, tt))
  | inr (id, old) ↦ rw old (All-append IsWhole e.sent _ h (whole e v, tt))
]
  where
    whole : (e : Editor) → valid e ≡ true → IsWhole (create (input e))
    whole e v = (ground arith, ground arith, trim-trim e.screen.front, trim-trim e.screen.back)

if_IsWhole :
    (b : Bool) (x y : Editor)
    → (b ≡ true → All IsWhole x.sent)
    → All IsWhole y.sent
    → All IsWhole (if b then x else y).sent
if_IsWhole true x y f h = f refl
if_IsWhole false x y f h = h

and_left : (a b : Bool) → a && b ≡ true → a ≡ true
and_left a b h = ground arith

and_right : (a b : Bool) → a && b ≡ true → b ≡ true
and_right a b h = ground arith

handle-IsWhole : (ev : Event) (e : Editor) → All IsWhole e.sent → All IsWhole (handle ev e).sent
unfolding handle arrive press_save leave hide respond fail remove
handle-IsWhole (arrived card) e h = elim (Bool-cases e.loaded) [ inl l ↦ rw l h | inr l ↦ rw l h ]
handle-IsWhole (edited fields) e h = h
handle-IsWhole pressed e h = elim (Option-cases e.in_flight) [
  | inl free ↦ simp free (
      if_IsWhole (valid e && dirty e) (persist true e) e
        (λ t. persist-IsWhole true e (and_left (valid e) (dirty e) t) h) h)
  | inr (f, busy) ↦ simp busy h
]
handle-IsWhole left e h =
    if_IsWhole e.removed e (if dirty e && valid e then persist false e else e) (λ t. h)
      (if_IsWhole (dirty e && valid e) (persist false e) e
        (λ t. persist-IsWhole false e (and_right (dirty e) (valid e) t) h) h)
handle-IsWhole hidden e h = elim (Bool-cases (valid e)) [
  | inl v ↦
      if_IsWhole (e.removed || not (dirty e) || not (valid e)) e (persist true e) (λ t. h)
        (persist-IsWhole true e v h)
  | inr v ↦ ground arith
]
handle-IsWhole refused e h = h
handle-IsWhole deleted e h = h
handle-IsWhole (answered id card) e h = ground arith

handle_all-IsWhole :
    (evs : List Event) (e : Editor) → All IsWhole e.sent → All IsWhole (handle_all evs e).sent
unfolding handle_all
handle_all-IsWhole [] e h = h
handle_all-IsWhole (ev ∷ evs) e h = handle_all-IsWhole evs (handle ev e) (handle-IsWhole ev e h)

-- However a card is edited, saved, left or hidden, every request that the screen sends has both
-- sides filled in, and trimmed.
pub sent-IsWhole :
    (evs : List Event) (route : Option Text) → All IsWhole (handle_all evs (opened route)).sent
sent-IsWhole evs route = handle_all-IsWhole evs (opened route) (unfold opened in tt)

-- How many requests create a card.
pub creates : List Request → ℕ
creates [] = 0
creates (create c ∷ rs) = suc (creates rs)
creates (update id c ∷ rs) = creates rs

creates-append :
    (rs : List Request) (id : Text) (c : Card) → creates (rs ++ update id c ∷ []) ≡ creates rs
unfolding creates
creates-append [] id c = refl
creates-append (create d ∷ rs) id c = ap suc (creates-append rs id c)
creates-append (update j d ∷ rs) id c = creates-append rs id c

-- The screen is on a card's own URL, and has sent no more creations than `n`.
abbrev OnCard : ℕ → Editor → Type 0
OnCard n e = (e.route ≢ none) × (creates e.sent ≡ n)

some-ne-none : (id : Text) → some id ≢ none
some-ne-none id = cc

persist-OnCard : (n : ℕ) (and_go : Bool) (e : Editor) → OnCard n e → OnCard n (persist and_go e)
unfolding persist
persist-OnCard n and_go e (r, h) = elim (Option-cases e.route) [
  | inl new ↦ absurd (r new)
  | inr (id, old) ↦ simp old (some-ne-none id, creates-append e.sent id (input e) ∙ h)
]

handle-OnCard : (n : ℕ) (ev : Event) (e : Editor) → OnCard n e → OnCard n (handle ev e)
unfolding handle arrive press_save leave hide respond fail remove
handle-OnCard n (arrived card) e h = ground arith
handle-OnCard n (edited fields) e h = h
handle-OnCard n pressed e h = ground (arith, persist-OnCard n true e h)
handle-OnCard n left e h = ground (arith, persist-OnCard n false e h)
handle-OnCard n hidden e h = ground (arith, persist-OnCard n true e h)
handle-OnCard n refused e h = h
handle-OnCard n deleted e h = h
handle-OnCard n (answered id card) e h = ground arith

handle_all-OnCard :
    (n : ℕ) (evs : List Event) (e : Editor) → OnCard n e → OnCard n (handle_all evs e)
unfolding handle_all
handle_all-OnCard n [] e h = h
handle_all-OnCard n (ev ∷ evs) e h = handle_all-OnCard n evs (handle ev e) (handle-OnCard n ev e h)

-- Once the screen is on a card's own URL it never creates another card, whatever happens on it.
pub handle_all-creates :
    (evs : List Event) (e : Editor)
    → e.route ≢ none
    → creates (handle_all evs e).sent ≡ creates e.sent
handle_all-creates evs e r = (handle_all-OnCard (creates e.sent) evs e (r, refl)).1
