-- ===== src/Legal/Load.antt =====
-- The legal copy of a locale: `loadLegal` and `useLegalCopy` of web/src/i18n/legal/index.ts. What
-- `import` answers is an event.
use konku.Common.{
  ℕ, ◌+◌, ◌≤◌, Bool, true, false, ◌≡◌, refl, ap, ◌∙◌, inl, inr, Option, none, some, List, [], ◌∷◌,
  if◌then◌else◌, arith, Bool-cases,
}
use mathlib.Core.Path.{subst}
use konku.Locale.{Locale, id, en}

-- A promise of the cache.
pub data Chunk : Type 0 where
  in_air arrived : Chunk

-- What the two maps hold under one locale, and how often its chunk has been asked for.
pub record Shelf : Type 0 where
  pub cached : Option Chunk
  pub loaded : Bool
  pub fetches : ℕ

abbrev pub load_by : Option Chunk → Shelf → Shelf
load_by none s = record s { cached = some in_air; fetches = s.fetches + 1 }
load_by (some chunk) s = s

unfoldable pub load_legal : Shelf → Shelf
load_legal s = load_by s.cached s

-- A render of a legal page: the copy that is there, or `use`, which suspends.
unfoldable pub use_legal_copy : Shelf → Shelf
unfolding load_legal
use_legal_copy s = if s.loaded then s else load_legal s

-- `.then(...)` on an answer, and `.catch(() => cache.delete(locale))` on a failure.
abbrev pub settled_by : Option Chunk → Bool → Shelf → Shelf
settled_by (some in_air) true s = record s { cached = some arrived; loaded = true }
settled_by (some in_air) false s = record s { cached = none }
settled_by _ ok s = s

unfoldable pub settled : Bool → Shelf → Shelf
settled ok s = settled_by s.cached ok s

abbrev pub Shelves : Type 0
Shelves = Locale → Shelf

abbrev pub same_locale : Locale → Locale → Bool
same_locale id id = true
same_locale en en = true
same_locale _ _ = false

abbrev pub put : Locale → (Shelf → Shelf) → Shelves → Shelves
put l f shelves k = if same_locale l k then f (shelves k) else shelves k

pub data Event : Type 0 where
  rendered : Locale → Event
  answered : Locale → (ok : Bool) → Event

unfoldable pub handle : Event → Shelves → Shelves
handle (rendered l) s = put l use_legal_copy s
handle (answered l ok) s = put l (settled ok) s

unfoldable pub handle_all : List Event → Shelves → Shelves
handle_all [] s = s
handle_all (e ∷ es) s = handle_all es (handle e s)

-- A tab that has read neither document.
abbrev pub fresh : Shelves
fresh l = record { cached = none; loaded = false; fetches = 0 }

-- The chunks of a locale that failed to arrive.
unfoldable pub failures : Locale → List Event → ℕ
failures l [] = 0
failures l (rendered k ∷ es) = failures l es
failures l (answered k ok ∷ es) =
    let rest = failures l es in if same_locale k l then (if ok then rest else rest + 1) else rest

abbrev held : Option Chunk → ℕ
held none = 0
held (some chunk) = 1

held_most : (c : Option Chunk) → held c ≤ 1
held_most none = omega arith
held_most (some chunk) = omega arith

abbrev IsLoaded : Option Chunk → Bool → Type 0
IsLoaded (some arrived) loaded = loaded ≡ true
IsLoaded _ loaded = loaded ≡ false

-- Nothing is asked for twice, of `n` failures.
record IsSingle (n : ℕ) (s : Shelf) : Type 0 where
  few : s.fetches ≤ n + held s.cached
  ready : IsLoaded s.cached s.loaded

use_legal_copy-IsSingle : (n : ℕ) (s : Shelf) → IsSingle n s → IsSingle n (use_legal_copy s)
unfolding use_legal_copy
use_legal_copy-IsSingle n s h = ground arith

settled-IsSingle :
    (n : ℕ) (ok : Bool) (s : Shelf)
    → IsSingle n s
    → IsSingle (n + (if ok then 0 else 1)) (settled ok s)
unfolding settled
settled-IsSingle n ok s h = ground arith

-- The state of one locale after one event.
handle_one :
    (l : Locale) (e : Event) (es : List Event) (n : ℕ) (s : Shelves)
    → IsSingle n (s l)
    → (m : ℕ) × IsSingle m (handle e s l) × (m + failures l es ≡ n + failures l (e ∷ es))
unfolding handle failures
handle_one l (rendered k) es n s h = elim (Bool-cases (same_locale k l)) [
  | inl e ↦ (n, rw e (use_legal_copy-IsSingle n (s l) h), refl)
  | inr e ↦ (n, rw e h, refl)
]
handle_one l (answered k ok) es n s h = elim (Bool-cases (same_locale k l)) [
  | inl e ↦ (n + (if ok then 0 else 1), rw e (settled-IsSingle n ok (s l) h), ground arith)
  | inr e ↦ (n, rw e h, rw e refl)
]

handle_all_step :
    (l : Locale) (e : Event) (es : List Event) (m : ℕ) (s : Shelves)
    → IsSingle (m + failures l es) (handle_all es (handle e s) l)
    → IsSingle (m + failures l es) (handle_all (e ∷ es) s l)
unfolding handle_all
handle_all_step l e es m s h = h

handle_all-IsSingle :
    (l : Locale) (es : List Event) (n : ℕ) (s : Shelves)
    → IsSingle n (s l)
    → IsSingle (n + failures l es) (handle_all es s l)
handle_all-IsSingle l [] n s h =
    unfold handle_all failures in record { few = omega (arith, h.few); ready = h.ready }
handle_all-IsSingle l (e ∷ es) n s h =
    let (m, g, q) = handle_one l e es n s h in
    subst (λ k. IsSingle k (handle_all (e ∷ es) s l)) q
      (handle_all_step l e es m s (handle_all-IsSingle l es m (handle e s) g))

kept_one :
    (l : Locale) (e : Event) (s : Shelves)
    → (s l).cached ≡ some arrived
    → (s l).loaded ≡ true
    → handle e s l ≡ s l
unfolding handle use_legal_copy settled
kept_one l (rendered k) s c r = ground arith
kept_one l (answered k ok) s c r = ground arith

kept :
    (l : Locale) (es : List Event) (s : Shelves)
    → (s l).cached ≡ some arrived
    → (s l).loaded ≡ true
    → handle_all es s l ≡ s l
unfolding handle_all
kept l [] s c r = refl
kept l (e ∷ es) s c r =
    let same = kept_one l e s c r in
    kept l es (handle e s) (ap (λ x. x.cached) same ∙ c) (ap (λ x. x.loaded) same ∙ r) ∙ same

loaded_arrived : (c : Option Chunk) (b : Bool) → IsLoaded c b → b ≡ true → c ≡ some arrived
loaded_arrived none b h e = cc
loaded_arrived (some in_air) b h e = cc
loaded_arrived (some arrived) b h e = refl

-- A render, the failure of what it waits for, and another render.
failed_again :
    (s : Shelf)
    → IsLoaded s.cached s.loaded
    → s.loaded ≡ false
    → (use_legal_copy (settled false (use_legal_copy s))).fetches ≡ (use_legal_copy s).fetches + 1
unfolding use_legal_copy settled
failed_again s h r = ground arith

failed_again_at :
    (l : Locale) (s : Shelves)
    → (handle_all (rendered l ∷ answered l false ∷ rendered l ∷ []) s l
        ≡ use_legal_copy (settled false (use_legal_copy (s l))))
      × (handle_all (rendered l ∷ []) s l ≡ use_legal_copy (s l))
unfolding handle_all handle
failed_again_at id s = (refl, refl)
failed_again_at en s = (refl, refl)

-- Whatever is rendered and whatever arrives, in either language: a locale's copy is asked for at most
-- once more often than its chunk has failed to arrive, so that renders share one request; once the
-- copy is there, nothing that happens later changes that or asks again; and until then, when what a
-- render waits for fails to arrive, the next render asks once more.
pub fetches_lem :
    (l : Locale) (es later : List Event)
    → let s = handle_all es fresh l in
      (s.fetches ≤ failures l es + 1)
      × (s.loaded ≡ true → handle_all later (handle_all es fresh) l ≡ s)
      × (s.loaded ≡ false
          → let before = handle_all es fresh in
            (handle_all (rendered l ∷ answered l false ∷ rendered l ∷ []) before l).fetches
            ≡ (handle_all (rendered l ∷ []) before l).fetches + 1)
fetches_lem l es later =
    let h : IsSingle (0 + failures l es) (handle_all es fresh l) =
      handle_all-IsSingle l es 0 fresh (record { few = omega arith; ready = refl }) in
    let s = handle_all es fresh l in
    (
      omega (arith, h.few, held_most s.cached),
      λ r. kept l later (handle_all es fresh) (loaded_arrived s.cached s.loaded h.ready r) r,
      λ r.
          let (thrice, once) = failed_again_at l (handle_all es fresh) in
          rw (thrice, once) (failed_again s h.ready r),
    )
