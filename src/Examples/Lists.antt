-- ===== src/Examples/Lists.antt =====
-- The list screens: pages, ticked rows and the caret of the reader's task boxes.
use konku.Common.{
  ℕ, suc, ◌≤◌, ◌≡◌, refl, Text, codes, List, [], ◌∷◌, none, some, length, take, drop, str_eq, arith,
}
use konku.Common.Sets.{has, IsDistinct}
use konku.Paging.{Page, page_items, page_total, load_all}
use konku.Paging.Laws.{load_all-page_items}
use konku.Caret.{split_lines, remap_caret, line_of, column_of}
use konku.Caret.Laws.{Extends, nil, cons, remap_caret-keeps}

abbrev rows : List ℕ
rows = 10 ∷ 20 ∷ 30 ∷ 40 ∷ 50 ∷ []

-- A server with two rows to a page.
abbrev fetch : ℕ → Page ℕ
fetch o = record { items = take 2 (drop o rows); total = 5; limit = 2; offset = o }

load_all-page_items_example :
    ((load_all fetch (suc (length rows)) 0 []).1 ≡ none)
    × (page_items (some (load_all fetch (suc (length rows)) 0 []).0) ≡ rows)
    × (page_total (some (load_all fetch (suc (length rows)) 0 []).0) ≡ length rows)
load_all-page_items_example =
    load_all-page_items fetch rows (λ o. 2) (λ o. refl) (λ o. refl) (λ o h. omega arith)

abbrev visible : List Text
visible = codes "a" ∷ codes "b" ∷ codes "c" ∷ []

abbrev ticked : List Text
ticked = codes "c" ∷ codes "a" ∷ codes "gone" ∷ []

visible-IsDistinct : IsDistinct visible
visible-IsDistinct = unfold has str_eq in (refl, (refl, (refl, tt)))

abbrev before : Text
before = codes "- [ ] one\n- [ ] two"

abbrev after : Text
after = codes "- [ ] one <!-- t1 -->\n- [ ] two"

extended : Extends (split_lines before) (split_lines after)
unfolding split_lines
extended = cons {l = codes "- [ ] one"} (codes " <!-- t1 -->") (cons {l = codes "- [ ] two"} [] nil)

remap_caret-keeps_example :
    (remap_caret before after 14 ≤ length after)
    × (line_of after (remap_caret before after 14) ≡ line_of before 14)
    × (column_of after (remap_caret before after 14) ≡ column_of before 14)
remap_caret-keeps_example = remap_caret-keeps before after 14 (omega arith) extended
