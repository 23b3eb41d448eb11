-- ===== src/Review/Run/Return.antt =====
-- Going back to a run: `useRun` of web/src/features/review/setQueries.ts, whose data never goes stale by
-- itself, under the mutations of the other screens and of this one.
use konku.Common.{
  ◌≡◌, refl, ◌∙◌, Bool, true, false, not, Text, str_eq, str_eq_refl, Option, none, some, List, [],
  ◌∷◌, every, arith,
}
use konku.Auth.Cache.{QueryClient, is_prefix, same_key, same_part}
use konku.Queries.Keys.{set_keys, set_run, set_answer, review_answer, detail_key}
use konku.Queries.Effects.{Mutation, start_run, finish_run, Reply, on_success}
use konku.Queries.Laws.{family, in_family, beside, on_success-kept}
use konku.Review.Run.Opening.{IsOpening, start_index-IsOpening}
use konku.Review.Run.{RunQuestion, Sitting, screen, opened, Event, handle_all, come_back}

module _ {D : Type 0} (qc : QueryClient D) (questions : D → List RunQuestion) where
  open qc use {Cache}

  -- The screen of a run on what its query holds; without data the query fetches first.
  unfoldable pub resume : Option D → Sitting → Option Sitting
  resume none s = none
  resume (some run) s = some (come_back (questions run) s)

  -- What mutations that succeed one after the other do to the cache.
  unfoldable pub effects : List (Mutation × Reply qc) → Cache → Cache
  effects [] c = c
  effects ((m, r) ∷ ms) c = effects ms (on_success qc m r c)

  -- Every mutation but the start and the end of the run.
  abbrev pub spares : Text → Mutation × Reply qc → Bool
  spares id (start_run set_id body, r) = not (str_eq r.id id)
  spares id (finish_run run_id, r) = not (str_eq run_id id)
  spares id _ = true

  apart : (m : Mutation) (id : Text) → in_family (family m) (set_run id) ≡ false
  apart m id = unfold in_family family is_prefix set_run same_part str_eq detail_key in ground arith

  aside :
      (m : Mutation) (r : Reply qc) (id : Text)
      → spares id (m, r) ≡ true
      → beside qc m r (set_run id) ≡ false
  aside m r id h =
      unfold beside is_prefix same_key review_answer set_run set_answer same_part in ground arith

  effects-kept :
      (ms : List (Mutation × Reply qc)) (id : Text) (c : Cache)
      → every (spares id) ms ≡ true
      → (qc.read (set_run id) (effects ms c) ≡ qc.read (set_run id) c)
        × (qc.stale (set_run id) (effects ms c) ≡ qc.stale (set_run id) c)
  unfolding effects
  effects-kept [] id c h = (refl, refl)
  effects-kept ((m, r) ∷ ms) id c h =
      let (e, f) = effects-kept ms id (on_success qc m r c) (ground arith) in
      let (g, k) =
        on_success-kept qc m r c (set_run id) (apart m id) (aside m r id (ground arith)) in
      (e ∙ g, f ∙ k)

  started :
      (set_id body : Text) (r : Reply qc) (id : Text) (c : Cache)
      → r.id ≡ id
      → (qc.read (set_run id) (on_success qc (start_run set_id body) r c) ≡ some r.row)
        × (qc.stale (set_run id) (on_success qc (start_run set_id body) r c) ≡ false)
  unfolding on_success str_eq
  started set_id body r id c q =
      let same : same_key (set_run r.id) (set_run id) ≡ true =
        unfold same_key set_run same_part in rw (q, str_eq_refl id) refl in
      let other : is_prefix set_keys (set_run id) ≡ false =
        unfold is_prefix set_run same_part str_eq in refl in
      let put = qc.set_query_data (set_run r.id) r.row c in
      (
        qc.read_invalidate set_keys (set_run id) put
            ∙ qc.read_set (set_run r.id) (set_run id) r.row c
            ∙ rw same refl,
        qc.stale_invalidate set_keys (set_run id) put
            ∙ rw (other, qc.stale_set (set_run r.id) (set_run id) r.row c, same) refl,
      )

  -- Back on the screen by what the cache holds: at the first question of the run that has no answer
  -- there, on the screen with which it opens, and with what was recorded before.
  abbrev pub IsResumed : Option D → D → Sitting → Type 0
  IsResumed cached run s =
      (t : Sitting) × (resume cached s ≡ some t)
      × IsOpening (questions run) t.index
      × (screen t ≡ screen (opened (questions run)))
      × (t.recorded ≡ s.recorded)

  resume_lem :
      (cached : Option D) (run : D) (s : Sitting) → cached ≡ some run → IsResumed cached run s
  unfolding resume come_back opened screen
  resume_lem cached run s e =
      (come_back (questions run) s, rw e refl, start_index-IsOpening (questions run), refl, refl)

  -- Once a run is in the cache and fresh, and whatever is then done on its screen and whichever
  -- mutations of the notes, the cards, the review, the labels and the sessions succeed, its answers
  -- among them, but neither its start nor its end: leaving the screen and going back finds the run as
  -- it was, which is not marked to be fetched again, and starts at the first question that had no answer
  -- then, with the same screen, whatever has been recorded since. Starting it once more from its set
  -- puts the server's run in the cache, and going back then starts at the first question of that
  -- without an answer. Where every question has one, it is the first question.
  pub come_back_again :
      (id : Text) (run : D) (es : List Event) (ms : List (Mutation × Reply qc)) (c : Cache)
      (set_id body : Text) (r : Reply qc)
      → qc.read (set_run id) c ≡ some run
      → qc.stale (set_run id) c ≡ false
      → every (spares id) ms ≡ true
      → r.id ≡ id
      → let s = handle_all es (opened (questions run)) in
        let later = effects ms c in
        let again = on_success qc (start_run set_id body) r later in
        (IsResumed (qc.read (set_run id) later) run s × (qc.stale (set_run id) later ≡ false))
        × (IsResumed (qc.read (set_run id) again) r.row s × (qc.stale (set_run id) again ≡ false))
  come_back_again id run es ms c set_id body r e f h q =
      let s = handle_all es (opened (questions run)) in
      let later = effects ms c in
      let (kept, fresh) = effects-kept ms id c h in
      let (written, new) = started set_id body r id later q in
      (
        (resume_lem (qc.read (set_run id) later) run s (kept ∙ e), fresh ∙ f),
        (resume_lem _ r.row s written, new),
      )
