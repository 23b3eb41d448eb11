-- ===== src/Peek/Laws.antt =====
-- What opening, selecting and closing previews leave of the history.
use konku.Common.{◌≡◌, sym, ap, ◌∙◌, Text, Option, none, some, List, [], ◌∷◌, if◌then◌else◌}
use mathlib.Core.Path.{subst}
use konku.Peek.{
  Background, Entry, Router, peeked_path, list_location, preview, or_peeking, path_over,
  or_location, close_by, open_peek, select, close,
}

module _ (router : Router) where
  open router use {History}

  -- A row after another is opened.
  unfoldable pub opens : List Text → History → History
  opens [] h = h
  opens (to ∷ tos) h = opens tos (open_peek router to none h)

  -- A preview is open over the list `l`, with the entries `es` behind it.
  abbrev IsPeeking : Background → List Entry → History → Type 0
  IsPeeking l es h = ((router.here h).background ≡ some l) × (router.behind h ≡ es)

  pub list_location_over :
      (e : Entry) (l : Background) → e.background ≡ some l → list_location e ≡ l
  unfolding list_location
  list_location_over e l b = ap (λ o. or_location o e.location) b

  list_location_alone : (e : Entry) → e.background ≡ none → list_location e ≡ e.location
  unfolding list_location
  list_location_alone e b = ap (λ o. or_location o e.location) b

  preview-IsPeeking :
      (to : Text) (e : Entry) (l : Background)
      → list_location e ≡ l
      → (preview to e).background ≡ some l
  unfolding preview
  preview-IsPeeking to e l b = ap some b

  -- An entry that shows a preview is replaced, one that shows none stays behind.
  pub replaced :
      (to : Text) (l : Background) (es : List Entry) (h : History)
      → list_location (router.here h) ≡ l
      → router.behind h ≡ es
      → IsPeeking l es (select router to h)
  unfolding select
  replaced to l es h b behind = (
    ap (λ e. e.background) (router.here_replace _ h) ∙ preview-IsPeeking to (router.here h) l b,
    router.behind_replace _ h ∙ behind,
  )

  peeked_path_over :
      (e : Entry) (l : Background)
      → e.background ≡ some l
      → peeked_path e ≡ some e.location.pathname
  unfolding peeked_path
  peeked_path_over e l b = ap (λ o. path_over o e.location.pathname) b

  peeked_path_alone : (e : Entry) → e.background ≡ none → peeked_path e ≡ none
  unfolding peeked_path
  peeked_path_alone e b = ap (λ o. path_over o e.location.pathname) b

  abbrev navigated : Text → History → Option Text → History
  navigated to h peeked =
      if or_peeking none peeked
      then router.replace (preview to (router.here h)) h
      else router.push (preview to (router.here h)) h

  open_peek_over :
      (to : Text) (l : Background) (h : History)
      → (router.here h).background ≡ some l
      → open_peek router to none h ≡ select router to h
  unfolding open_peek select
  open_peek_over to l h b = ap (navigated to h) (peeked_path_over (router.here h) l b)

  open_peek_alone :
      (to : Text) (h : History)
      → (router.here h).background ≡ none
      → IsPeeking
          (router.here h).location
          (router.here h ∷ router.behind h)
          (open_peek router to none h)
  unfolding open_peek
  open_peek_alone to h b =
      let at : open_peek router to none h ≡ router.push (preview to (router.here h)) h =
        ap (navigated to h) (peeked_path_alone (router.here h) b) in
      (
        ap (λ x. (router.here x).background) at
            ∙ ap (λ e. e.background) (router.here_push _ h)
            ∙ preview-IsPeeking to (router.here h) _ (list_location_alone (router.here h) b),
        ap router.behind at ∙ router.behind_push _ h,
      )

  opens-IsPeeking :
      (tos : List Text) (l : Background) (es : List Entry) (h : History)
      → IsPeeking l es h
      → IsPeeking l es (opens tos h)
  unfolding opens
  opens-IsPeeking [] l es h p = p
  opens-IsPeeking (to ∷ tos) l es h (b, behind) = opens-IsPeeking tos l es _ (
      subst (IsPeeking l es) (sym (open_peek_over to l h b))
        (replaced to l es h (list_location_over (router.here h) l b) behind))

  close_over :
      (l : Background) (e : Entry) (es : List Entry) (h : History)
      → IsPeeking l (e ∷ es) h
      → (router.here (close router h) ≡ e) × (router.behind (close router h) ≡ es)
  unfolding close
  close_over l e es h (b, behind) =
      let at : close router h ≡ router.back h = ap (λ o. close_by router o h) b in
      (
        ap router.here at ∙ router.here_back h e es behind,
        ap router.behind at ∙ router.behind_back h e es behind,
      )

  -- However many rows are opened one after the other, over a list with no preview, the list keeps
  -- its address on screen; and closing the last one is back at the list's entry, with the history
  -- behind it as it was.
  pub opens-close :
      (to : Text) (tos : List Text) (h : History)
      → (router.here h).background ≡ none
      → (list_location (router.here (opens (to ∷ tos) h)) ≡ (router.here h).location)
        × (router.here (close router (opens (to ∷ tos) h)) ≡ router.here h)
        × (router.behind (close router (opens (to ∷ tos) h)) ≡ router.behind h)
  unfolding opens
  opens-close to tos h b =
      let p =
        opens-IsPeeking tos (router.here h).location (router.here h ∷ router.behind h) _
          (open_peek_alone to h b) in
      let c = close_over _ _ _ _ p in (list_location_over _ _ p.0, c.0, c.1)

  -- When a list with no preview has opened one of its own accord, closing it, or one that the reader
  -- opened after it, leaves the list for the page that was on screen before it.
  pub select-close :
      (to : Text) (tos : List Text) (h : History) (e : Entry) (es : List Entry)
      → (router.here h).background ≡ none
      → router.behind h ≡ e ∷ es
      → (router.here (close router (opens tos (select router to h))) ≡ e)
        × (router.behind (close router (opens tos (select router to h))) ≡ es)
  select-close to tos h e es b behind = close_over _ e es _ (
      opens-IsPeeking tos (router.here h).location (e ∷ es) _
        (replaced to _ (e ∷ es) h (list_location_alone (router.here h) b) behind))
