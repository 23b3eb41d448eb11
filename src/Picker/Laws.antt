-- ===== src/Picker/Laws.antt =====
-- What a commit of the picker comes to.
use konku.Common.{
  ◌≡◌, refl, ap, ◌∙◌, inl, inr, true, false, Text, truthy, str_eq, str_eq_refl, filter, not, none,
  some, List, [], ◌∷◌, ◌++◌, if◌then◌else◌, arith, Bool-cases,
}
use konku.Common.Trim.{trim}
use konku.Common.Sets.{has, has-append}
use konku.Picker.{
  Category, Picker, flip, toggle, created_by, created, exact, commit_by, commit, Event, toggled,
  committed, answered, when_idle, handle, handle_all,
}

has-flip : (id : Text) (ids : List Text) → has id ids ≡ false → has id (flip id ids) ≡ true
has-flip id ids h =
    ap (λ b. has id (if b then filter (λ s. not (str_eq s id)) ids else ids ++ id ∷ [])) h
    ∙ has-append id ids (id ∷ [])
    ∙ rw h (unfold has in rw (str_eq_refl id) refl)

module _ (lower : Text → Text) where
  abbrev pub pressed : List Text → List (Event lower)
  pressed [] = []
  pressed (id ∷ ids) = toggled id ∷ pressed ids

  in_flight : (ids : List Text) (p : Picker) → (handle_all lower (pressed ids) p).flight ≡ p.flight
  unfolding handle_all handle toggle
  in_flight [] p = refl
  in_flight (id ∷ ids) p = in_flight ids (toggle id p)

  still_asked : (ids : List Text) (p : Picker) → (handle_all lower (pressed ids) p).asked ≡ p.asked
  unfolding handle_all handle toggle
  still_asked [] p = refl
  still_asked (id ∷ ids) p = still_asked ids (toggle id p)

  handle_all-append :
      (es fs : List (Event lower)) (p : Picker)
      → handle_all lower (es ++ fs) p ≡ handle_all lower fs (handle_all lower es p)
  unfolding handle_all
  handle_all-append [] fs p = refl
  handle_all-append (e ∷ es) fs p = handle_all-append es fs (handle lower e p)

  sent :
      (p : Picker)
      → p.flight ≡ none
      → truthy (trim p.query) ≡ true
      → exact lower p.categories p.query ≡ none
      → handle lower committed p
        ≡ record p { flight = some p.selected; asked = p.asked ++ trim p.query ∷ [] }
  unfolding handle commit
  sent p f t e =
      ap (λ o. when_idle lower o (commit lower p) p) f
      ∙ ap (λ b. if b then commit_by lower (exact lower p.categories p.query) p else p) t
      ∙ ap (λ o. commit_by lower o p) e

  answered_lem :
      (p : Picker) (captured : List Text) (id : Text)
      → p.flight ≡ some captured
      → has id captured ≡ false
      → handle lower (answered (some id)) p
        ≡ record p { selected = captured ++ id ∷ []; query = []; flight = none }
  unfolding handle created
  answered_lem p captured id f h =
      ap (λ o. created_by o (some id) p) f
      ∙ ap
          (λ b.
            if b
            then record p { query = []; flight = none }
            else record p { selected = captured ++ id ∷ []; query = []; flight = none })
          h

  -- Committing a label that no category has asks once for its creation, trimmed; once that is answered
  -- the new category is selected after those that were selected at the commit, and the field is empty
  -- and usable again. That is so whatever rows are pressed before the answer: those presses are lost.
  pub committed-answered :
      (p : Picker) (ids : List Text) (id : Text)
      → p.flight ≡ none
      → truthy (trim p.query) ≡ true
      → exact lower p.categories p.query ≡ none
      → has id p.selected ≡ false
      → let q = handle_all lower (committed ∷ pressed ids ++ answered (some id) ∷ []) p in
        (q.selected ≡ p.selected ++ id ∷ [])
        × (q.asked ≡ p.asked ++ trim p.query ∷ [])
        × (q.query ≡ [])
        × (q.flight ≡ none)
  unfolding handle_all
  committed-answered p ids id f t e h =
      let q : Picker = record p {
        flight = some p.selected;
        asked = p.asked ++ trim p.query ∷ [];
      } in
      let r = handle_all lower (pressed ids) q in
      let done : handle_all lower (pressed ids ++ answered (some id) ∷ [])
            (handle lower committed p)
          ≡ record r { selected = p.selected ++ id ∷ []; query = []; flight = none } =
        ap (handle_all lower (pressed ids ++ answered (some id) ∷ [])) (sent p f t e)
        ∙ handle_all-append (pressed ids) (answered (some id) ∷ []) q
        ∙ answered_lem r p.selected id (in_flight ids q) h in
      (
        ap (λ x. x.selected) done,
        ap (λ x. x.asked) done ∙ still_asked ids q,
        ap (λ x. x.query) done,
        ap (λ x. x.flight) done,
      )

  -- Committing the label of a category, in any case, selects that category and creates none.
  pub commit-exact :
      (p : Picker) (c : Category)
      → truthy (trim p.query) ≡ true
      → exact lower p.categories p.query ≡ some c
      → (has c.id (commit lower p).selected ≡ true) × ((commit lower p).asked ≡ p.asked)
  unfolding commit toggle
  commit-exact p c t e =
      let at : commit lower p ≡ commit_by lower (some c) p =
        ap (λ b. if b then commit_by lower (exact lower p.categories p.query) p else p) t
        ∙ ap (λ o. commit_by lower o p) e in
      elim (Bool-cases (has c.id p.selected)) [
        | inl f ↦ (
          ap (λ x. has c.id x.selected) at ∙ ground (arith, f),
          ap (λ x. x.asked) at ∙ ground arith,
        )
        | inr f ↦ (
          ap (λ x. has c.id x.selected) at ∙ ground (arith, f, has-flip c.id p.selected f),
          ap (λ x. x.asked) at ∙ ground arith,
        )
      ]
