-- ===== src/Paging/Laws.antt =====
-- Nothing is out of reach of a list that is loaded page by page.
use konku.Common.{
  ℕ, zero, suc, ◌+◌, ◌-◌, ◌≤◌, ◌<◌, ◌≡◌, refl, sym, ◌∙◌, ap, inl, inr, none, some, List, [], ◌∷◌,
  ◌++◌, append_assoc, append-nil, length, length-append, length-take, take, drop, arith, ltb, true,
  false, Bool-cases, if◌then◌else◌,
}
use konku.Paging.{Page, loaded, next_offset, items_of, page_items, last_total, page_total, load_all}

module _ {ℓ} {T : Type ℓ} where
  loaded_lem : (n : ℕ) (pages : List (Page T)) → loaded n pages ≡ n + length (items_of pages)
  unfolding loaded items_of
  loaded_lem n [] = omega arith
  loaded_lem n (page ∷ pages) =
      omega
        (arith, loaded_lem (n + length page.items) pages, length-append page.items (items_of pages))

  items_of-append : (ps qs : List (Page T)) → items_of (ps ++ qs) ≡ items_of ps ++ items_of qs
  unfolding items_of
  items_of-append [] qs = refl
  items_of-append (p ∷ ps) qs =
      ap (λ t. p.items ++ t) (items_of-append ps qs)
      ∙ sym (append_assoc p.items (items_of ps) (items_of qs))

  items_of_one : (p : Page T) → items_of (p ∷ []) ≡ p.items
  unfolding items_of
  items_of_one p = append-nil p.items

  last_total-append :
      (d : ℕ) (ps : List (Page T)) (p : Page T) → last_total d (ps ++ p ∷ []) ≡ p.total
  unfolding last_total
  last_total-append d [] p = refl
  last_total-append d (q ∷ ps) p = last_total-append q.total ps p

  -- The next request starts behind the rows that are loaded, and there is one exactly when the
  -- newest page counts more rows than that.
  next_offset_lem :
      (last : Page T) (all : List (Page T))
      → next_offset last all ≡ (
          if ltb (length (page_items (some all))) last.total
          then some (length (page_items (some all)))
          else none)
  unfolding next_offset page_items
  next_offset_lem last all = rw (loaded_lem 0 all) (ground arith)

  take_add : (n k : ℕ) (rows : List T) → take n rows ++ take k (drop n rows) ≡ take (n + k) rows
  take_add zero k rows = let e : 0 + k ≡ k = omega arith in rw e
  take_add (suc n) zero [] = let e : suc n + 0 ≡ suc n = omega arith in rw e
  take_add (suc n) (suc k) [] = let e : suc n + suc k ≡ suc (n + suc k) = omega arith in rw e
  take_add (suc n) k (x ∷ rows) =
      let e : suc n + k ≡ suc (n + k) = omega arith in rw e (ap (λ t. x ∷ t) (take_add n k rows))

  take-length-take : (n : ℕ) (rows : List T) → take (length (take n rows)) rows ≡ take n rows
  take-length-take zero rows = refl
  take-length-take (suc n) [] = refl
  take-length-take (suc n) (x ∷ rows) = ap (λ t. x ∷ t) (take-length-take n rows)

  take_all : (n : ℕ) (rows : List T) → length rows ≤ n → take n rows ≡ rows
  take_all zero [] h = refl
  take_all (suc n) [] h = refl
  take_all zero (x ∷ rows) h = absurd (omega arith)
  take_all (suc n) (x ∷ rows) h = ap (λ t. x ∷ t) (take_all n rows (omega arith))

-- A server that lists `rows`: every page counts them all, and the page at an offset holds the
-- next rows, as many as it likes, but at least one while there are any.
module _ {ℓ} {T : Type ℓ} (fetch : ℕ → Page T) (rows : List T) (size : ℕ → ℕ)
    (exact : (o : ℕ) → (fetch o).total ≡ length rows)
    (serves : (o : ℕ) → (fetch o).items ≡ take (size o) (drop o rows))
    (some_rows : (o : ℕ) → o < length rows → 0 < size o) where
  items-fetch :
      (o : ℕ) (pages : List (Page T))
      → items_of pages ≡ take o rows
      → items_of (pages ++ fetch o ∷ []) ≡ take (o + size o) rows
  items-fetch o pages h =
      items_of-append pages (fetch o ∷ [])
      ∙ rw (items_of_one (fetch o), serves o, h) (take_add o (size o) rows)

  load_all_more :
      (fuel o : ℕ) (pages : List (Page T))
      → ltb (loaded 0 (pages ++ fetch o ∷ [])) (fetch o).total ≡ true
      → load_all fetch (suc fuel) o pages
        ≡ load_all fetch fuel (loaded 0 (pages ++ fetch o ∷ [])) (pages ++ fetch o ∷ [])
  unfolding load_all next_offset
  load_all_more fuel o pages h = ground arith

  load_all_done :
      (fuel o : ℕ) (pages : List (Page T))
      → ltb (loaded 0 (pages ++ fetch o ∷ [])) (fetch o).total ≡ false
      → load_all fetch (suc fuel) o pages ≡ (pages ++ fetch o ∷ [], none)
  unfolding load_all next_offset
  load_all_done fuel o pages h = ground arith

  load_all_complete :
      (fuel o : ℕ) (pages : List (Page T))
      → items_of pages ≡ take o rows
      → o ≤ length rows
      → length rows - o < fuel
      → ((load_all fetch fuel o pages).1 ≡ none)
        × (items_of (load_all fetch fuel o pages).0 ≡ rows)
        × (last_total 0 (load_all fetch fuel o pages).0 ≡ length rows)
  load_all_complete zero o pages h le m = absurd (omega arith)
  load_all_complete (suc fuel) o pages h le m =
      let all = pages ++ fetch o ∷ [] in
      let now : items_of all ≡ take (o + size o) rows = items-fetch o pages h in
      let n : loaded 0 all ≡ length (take (o + size o) rows) =
        loaded_lem 0 all ∙ (omega (arith, ap length now)) in
      let counted = length-take (o + size o) rows in
      elim (Bool-cases (ltb (loaded 0 all) (fetch o).total)) [
        | inl more ↦ rw (load_all_more fuel o pages more) (
            load_all_complete fuel (loaded 0 all) all
              (now ∙ rw n (sym (take-length-take (o + size o) rows))) (omega (arith, n, counted))
              (ground (arith, n, counted, exact o, some_rows o)))
        | inr done ↦ rw (load_all_done fuel o pages done) (
          refl,
          now ∙ take_all (o + size o) rows (ground (arith, n, counted, exact o)),
          last_total-append 0 pages (fetch o) ∙ exact o,
        )
      ]

  -- With a server that counts all rows on every page and serves at least one more row while there
  -- are any, pressing "load more" until no page is left ends after at most one press more than
  -- there are rows, and then the screen holds every row once, in order, under a header that counts
  -- them.
  pub load_all-page_items :
      ((load_all fetch (suc (length rows)) 0 []).1 ≡ none)
      × (page_items (some (load_all fetch (suc (length rows)) 0 []).0) ≡ rows)
      × (page_total (some (load_all fetch (suc (length rows)) 0 []).0) ≡ length rows)
  unfolding page_items page_total
  load_all-page_items = load_all_complete (suc (length rows)) 0 [] refl (omega arith) (omega arith)
