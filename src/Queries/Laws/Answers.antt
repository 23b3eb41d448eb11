-- ===== src/Queries/Laws/Answers.antt =====
-- No answer of a card stays in the cache behind its question.
use konku.Common.{◌≡◌, refl, ◌∙◌, Bool, false, Text, List, [], ◌∷◌, none, str_eq, arith}
use konku.Auth.Cache.{Key, same_part, same_key, is_prefix, QueryClient}
use konku.Queries.Keys.{note_keys, card_keys, review_answer, set_run, set_answer, detail_key}
use konku.Queries.Effects.{
  Mutation, create_note, save_note, delete_note, restore_note, delete_notes, restore_notes,
  create_card, update_card, delete_card, restore_card, delete_cards, restore_cards, rate,
  create_set, archive_set, delete_set, start_run, answer_question, finish_run, pin_cards,
  discard_run, create_domain, update_domain, archive_domain, delete_domain, create_category,
  update_category, archive_category, delete_category, log_session, Reply, on_success,
}
use konku.Queries.Laws.{is_prefix_refl}

module _ {D : Type 0} (qc : QueryClient D) where
  open qc use {Cache}

  -- A key under which no mutation writes data.
  record IsUnwritten (k : Key) : Type 0 where
    no_note : (id : Text) → same_key (detail_key note_keys id) k ≡ false
    no_card : (id : Text) → same_key (detail_key card_keys id) k ≡ false
    no_run : (id : Text) → same_key (set_run id) k ≡ false

  absent_set :
      (j k : Key) (d : D) (c : Cache)
      → same_key j k ≡ false
      → qc.read k c ≡ none
      → qc.read k (qc.set_query_data j d c) ≡ none
  absent_set j k d c e h = rw (qc.read_set j k d c, e) h

  absent_remove :
      (p : Key → Bool) (k : Key) (c : Cache)
      → qc.read k c ≡ none
      → qc.read k (qc.remove_queries p c) ≡ none
  absent_remove p k c h = rw (qc.read_remove p k c, h) (ground arith)

  absent_still :
      (m : Mutation) (r : Reply qc) (c : Cache) (k : Key)
      → IsUnwritten k
      → qc.read k c ≡ none
      → qc.read k (on_success qc m r c) ≡ none
  unfolding on_success
  absent_still (create_note body) r c k u h =
      qc.read_invalidate _ k _ ∙ absent_set _ k r.row c (u.no_note r.id) h
  absent_still (save_note id body) r c k u h =
      qc.read_invalidate _ k _ ∙ absent_set _ k r.row c (u.no_note r.id) h
  absent_still (delete_note id) r c k u h = qc.read_invalidate _ k c ∙ h
  absent_still (restore_note id) r c k u h = qc.read_invalidate _ k c ∙ h
  absent_still (delete_notes body) r c k u h = qc.read_invalidate _ k c ∙ h
  absent_still (restore_notes body) r c k u h = qc.read_invalidate _ k c ∙ h
  absent_still (create_card body) r c k u h = qc.read_invalidate _ k c ∙ h
  absent_still (update_card id body) r c k u h =
      qc.read_invalidate _ k _ ∙ absent_set _ k r.row c (u.no_card id) h
  absent_still (delete_card id) r c k u h = qc.read_invalidate _ k c ∙ h
  absent_still (restore_card id) r c k u h = qc.read_invalidate _ k c ∙ h
  absent_still (delete_cards body) r c k u h = qc.read_invalidate _ k c ∙ h
  absent_still (restore_cards body) r c k u h = qc.read_invalidate _ k c ∙ h
  absent_still (rate card_id body) r c k u h = qc.read_invalidate _ k _ ∙ absent_remove _ k c h
  absent_still (create_set body) r c k u h = qc.read_invalidate _ k c ∙ h
  absent_still (archive_set id archived) r c k u h = qc.read_invalidate _ k c ∙ h
  absent_still (delete_set id) r c k u h = qc.read_invalidate _ k c ∙ h
  absent_still (start_run set_id body) r c k u h =
      qc.read_invalidate _ k _ ∙ absent_set _ k r.row c (u.no_run r.id) h
  absent_still (answer_question run_id card_id body) r c k u h = absent_remove _ k c h
  absent_still (finish_run run_id) r c k u h =
      qc.read_invalidate _ k _ ∙ (qc.read_invalidate _ k c ∙ h)
  absent_still (pin_cards set_id body) r c k u h = qc.read_invalidate _ k c ∙ h
  absent_still (discard_run run_id) r c k u h = qc.read_invalidate _ k c ∙ h
  absent_still (create_domain body) r c k u h = qc.read_invalidate _ k c ∙ h
  absent_still (update_domain id body) r c k u h = qc.read_invalidate _ k c ∙ h
  absent_still (archive_domain id archived) r c k u h = qc.read_invalidate _ k c ∙ h
  absent_still (delete_domain id) r c k u h = qc.read_invalidate _ k c ∙ h
  absent_still (create_category body) r c k u h = qc.read_invalidate _ k c ∙ h
  absent_still (update_category id body) r c k u h = qc.read_invalidate _ k c ∙ h
  absent_still (archive_category id archived) r c k u h = qc.read_invalidate _ k c ∙ h
  absent_still (delete_category id) r c k u h = qc.read_invalidate _ k c ∙ h
  absent_still (log_session body) r c k u h = qc.read_invalidate _ k c ∙ h

  unfoldable pub on_successes : List (Mutation × Reply qc) → Cache → Cache
  on_successes [] c = c
  on_successes ((m, r) ∷ ms) c = on_successes ms (on_success qc m r c)

  absent_for_good :
      (ms : List (Mutation × Reply qc)) (c : Cache) (k : Key)
      → IsUnwritten k
      → qc.read k c ≡ none
      → qc.read k (on_successes ms c) ≡ none
  unfolding on_successes
  absent_for_good [] c k u h = h
  absent_for_good ((m, r) ∷ ms) c k u h =
      absent_for_good ms (on_success qc m r c) k u (absent_still m r c k u h)

  review_answer-IsUnwritten : (card_id : Text) → IsUnwritten (review_answer card_id)
  unfolding review_answer detail_key set_run same_key same_part str_eq
  review_answer-IsUnwritten card_id = record {
    no_note = λ id. refl;
    no_card = λ id. refl;
    no_run = λ id. refl;
  }

  set_answer-IsUnwritten : (run_id card_id : Text) → IsUnwritten (set_answer run_id card_id)
  unfolding set_answer detail_key set_run same_key same_part str_eq
  set_answer-IsUnwritten run_id card_id = record {
    no_note = λ id. refl;
    no_card = λ id. refl;
    no_run = λ id. ground arith;
  }

  -- A revealed answer does not outlive its question: once a card is rated, or a question of a run
  -- answered, the cache does not hold the answer, and no later mutation puts it there again.
  pub answer_forgotten :
      (ms : List (Mutation × Reply qc)) (run_id card_id body : Text) (r : Reply qc) (c : Cache)
      → (qc.read (review_answer card_id) (on_successes ((rate card_id body, r) ∷ ms) c) ≡ none)
        × (qc.read
              (set_answer run_id card_id)
              (on_successes ((answer_question run_id card_id body, r) ∷ ms) c)
            ≡ none)
  unfolding on_successes on_success
  answer_forgotten ms run_id card_id body r c = (
    absent_for_good ms _ _ (review_answer-IsUnwritten card_id) (
        qc.read_invalidate card_keys (review_answer card_id) _
        ∙ rw
            (
              qc.read_remove (is_prefix (review_answer card_id)) (review_answer card_id) c,
              is_prefix_refl (review_answer card_id),
            )
            refl),
    absent_for_good ms _ _ (set_answer-IsUnwritten run_id card_id) (
        rw
          (
            qc.read_remove (is_prefix (set_answer run_id card_id)) (set_answer run_id card_id) c,
            is_prefix_refl (set_answer run_id card_id),
          )
          refl),
  )
