-- ===== src/Queries/Laws.antt =====
-- What a mutation reaches in the cache, and what two filters share.
pub mod Filters
pub mod Answers
use konku.Common.{
  ◌≡◌, refl, ◌∙◌, Bool, true, false, ◌&&◌, ◌||◌, Text, List, [], ◌∷◌, ◌++◌, Option, none, some,
  if◌then◌else◌, str_eq, str_eq_refl, ◌==◌, arith,
}
use konku.Auth.Cache.{Part, name, number, flag, Key, same_part, same_key, is_prefix, QueryClient}
use konku.Queries.Keys.{
  note_keys, card_keys, review_due, review_answer, set_keys, set_run, set_answer, domain_keys,
  category_keys, session_keys, detail_key, review_keys,
}
use konku.Queries.Effects.{
  Mutation, create_note, save_note, delete_note, restore_note, delete_notes, restore_notes,
  create_card, update_card, delete_card, restore_card, delete_cards, restore_cards, rate,
  create_set, archive_set, delete_set, start_run, answer_question, finish_run, pin_cards,
  discard_run, create_domain, update_domain, archive_domain, delete_domain, create_category,
  update_category, archive_category, delete_category, log_session, Reply, on_success,
}

-- The resource that a mutation writes, as the queries of it begin. Answering a question of a run
-- writes no list.
unfoldable pub family : Mutation → Option Key
family (create_note body) = some note_keys
family (save_note id body) = some note_keys
family (delete_note id) = some note_keys
family (restore_note id) = some note_keys
family (delete_notes body) = some note_keys
family (restore_notes body) = some note_keys
family (create_card body) = some card_keys
family (update_card id body) = some card_keys
family (delete_card id) = some card_keys
family (restore_card id) = some card_keys
family (delete_cards body) = some card_keys
family (restore_cards body) = some card_keys
family (rate card_id body) = some card_keys
family (create_set body) = some set_keys
family (archive_set id archived) = some set_keys
family (delete_set id) = some set_keys
family (start_run set_id body) = some set_keys
family (answer_question run_id card_id body) = none
family (finish_run run_id) = some set_keys
family (pin_cards set_id body) = some (detail_key set_keys set_id)
family (discard_run run_id) = some set_keys
family (create_domain body) = some domain_keys
family (update_domain id body) = some domain_keys
family (archive_domain id archived) = some domain_keys
family (delete_domain id) = some domain_keys
family (create_category body) = some category_keys
family (update_category id body) = some category_keys
family (archive_category id archived) = some category_keys
family (delete_category id) = some category_keys
family (log_session body) = some session_keys

unfoldable pub in_family : Option Key → Key → Bool
in_family none k = false
in_family (some all) k = is_prefix all k

same_part_refl : (p : Part) → same_part p p ≡ true
unfolding same_part
same_part_refl (name s) = str_eq_refl s
same_part_refl (number n) = ground arith
same_part_refl (flag true) = refl
same_part_refl (flag false) = refl

pub is_prefix_refl : (k : Key) → is_prefix k k ≡ true
unfolding is_prefix
is_prefix_refl [] = refl
is_prefix_refl (p ∷ k) = rw (same_part_refl p) (is_prefix_refl k)

same_key-is_prefix : (all more k : Key) → is_prefix all k ≡ false → same_key (all ++ more) k ≡ false
unfolding is_prefix same_key
same_key-is_prefix [] more k h = ground arith
same_key-is_prefix (a ∷ all) more [] h = refl
same_key-is_prefix (a ∷ all) more (b ∷ k) h = ground (arith, same_key-is_prefix all more k)

module _ {D : Type 0} (qc : QueryClient D) where
  open qc use {Cache}

  reached :
      (all k : Key) (c : Cache)
      → is_prefix all k ≡ true
      → qc.stale k (qc.invalidate_queries all c) ≡ true
  reached all k c h = rw (qc.stale_invalidate all k c, h) refl

  -- After a mutation every query of the resource that it wrote will be fetched again, whatever its
  -- filters; that is so of every mutation that writes a list.
  pub on_success-stale :
      (m : Mutation) (r : Reply qc) (c : Cache) (k : Key)
      → in_family (family m) k ≡ true
      → qc.stale k (on_success qc m r c) ≡ true
  unfolding on_success family in_family
  on_success-stale (create_note body) r c k h = reached _ k _ h
  on_success-stale (save_note id body) r c k h = reached _ k _ h
  on_success-stale (delete_note id) r c k h = reached _ k _ h
  on_success-stale (restore_note id) r c k h = reached _ k _ h
  on_success-stale (delete_notes body) r c k h = reached _ k _ h
  on_success-stale (restore_notes body) r c k h = reached _ k _ h
  on_success-stale (create_card body) r c k h = reached _ k _ h
  on_success-stale (update_card id body) r c k h = reached _ k _ h
  on_success-stale (delete_card id) r c k h = reached _ k _ h
  on_success-stale (restore_card id) r c k h = reached _ k _ h
  on_success-stale (delete_cards body) r c k h = reached _ k _ h
  on_success-stale (restore_cards body) r c k h = reached _ k _ h
  on_success-stale (rate card_id body) r c k h = reached _ k _ h
  on_success-stale (create_set body) r c k h = reached _ k _ h
  on_success-stale (archive_set id archived) r c k h = reached _ k _ h
  on_success-stale (delete_set id) r c k h = reached _ k _ h
  on_success-stale (start_run set_id body) r c k h = reached _ k _ h
  on_success-stale (answer_question run_id card_id body) r c k h = ground arith
  on_success-stale (finish_run run_id) r c k h = reached _ k _ h
  on_success-stale (pin_cards set_id body) r c k h = reached _ k _ h
  on_success-stale (discard_run run_id) r c k h = reached _ k _ h
  on_success-stale (create_domain body) r c k h = reached _ k _ h
  on_success-stale (update_domain id body) r c k h = reached _ k _ h
  on_success-stale (archive_domain id archived) r c k h = reached _ k _ h
  on_success-stale (delete_domain id) r c k h = reached _ k _ h
  on_success-stale (create_category body) r c k h = reached _ k _ h
  on_success-stale (update_category id body) r c k h = reached _ k _ h
  on_success-stale (archive_category id archived) r c k h = reached _ k _ h
  on_success-stale (delete_category id) r c k h = reached _ k _ h
  on_success-stale (log_session body) r c k h = reached _ k _ h

  -- What a mutation may touch beside the queries of its resource.
  unfoldable pub beside : Mutation → Reply qc → Key → Bool
  beside (rate card_id body) r k = is_prefix (review_answer card_id) k
  beside (start_run set_id body) r k = same_key (set_run r.id) k
  beside (answer_question run_id card_id body) r k = is_prefix (set_answer run_id card_id) k
  beside (finish_run run_id) r k = is_prefix (set_run run_id) k
  beside _ r k = false

  -- A query that a mutation neither writes nor names keeps its data and its freshness.
  abbrev Kept : Cache → Cache → Key → Type 0
  Kept b c k = (qc.read k c ≡ qc.read k b) × (qc.stale k c ≡ qc.stale k b)

  Kept-invalidate :
      (all k : Key) (b c : Cache)
      → is_prefix all k ≡ false
      → Kept b c k
      → Kept b (qc.invalidate_queries all c) k
  Kept-invalidate all k b c h (e, f) =
      (qc.read_invalidate all k c ∙ e, rw (qc.stale_invalidate all k c, h) f)

  Kept-set :
      (j k : Key) (d : D) (c : Cache) → same_key j k ≡ false → Kept c (qc.set_query_data j d c) k
  Kept-set j k d c h = (rw (qc.read_set j k d c, h) refl, rw (qc.stale_set j k d c, h) refl)

  Kept-remove :
      (j k : Key) (c : Cache) → is_prefix j k ≡ false → Kept c (qc.remove_queries (is_prefix j) c) k
  Kept-remove j k c h = (
    rw (qc.read_remove (is_prefix j) k c, h) refl,
    rw (qc.stale_remove (is_prefix j) k c, h) refl,
  )

  Kept-row :
      (all more k : Key) (d : D) (c : Cache)
      → is_prefix all k ≡ false
      → Kept c (qc.invalidate_queries all (qc.set_query_data (all ++ more) d c)) k
  Kept-row all more k d c h =
      Kept-invalidate all k c _ h (Kept-set (all ++ more) k d c (same_key-is_prefix all more k h))

  -- A query that is neither of the resource that a mutation writes nor named by the mutation keeps
  -- its data, and is fetched again only if it was to be.
  pub on_success-kept :
      (m : Mutation) (r : Reply qc) (c : Cache) (k : Key)
      → in_family (family m) k ≡ false
      → beside m r k ≡ false
      → (qc.read k (on_success qc m r c) ≡ qc.read k c)
        × (qc.stale k (on_success qc m r c) ≡ qc.stale k c)
  unfolding on_success family in_family beside detail_key
  on_success-kept (create_note body) r c k h b = Kept-row note_keys _ k r.row c h
  on_success-kept (save_note id body) r c k h b = Kept-row note_keys _ k r.row c h
  on_success-kept (delete_note id) r c k h b = Kept-invalidate _ k c c h (refl, refl)
  on_success-kept (restore_note id) r c k h b = Kept-invalidate _ k c c h (refl, refl)
  on_success-kept (delete_notes body) r c k h b = Kept-invalidate _ k c c h (refl, refl)
  on_success-kept (restore_notes body) r c k h b = Kept-invalidate _ k c c h (refl, refl)
  on_success-kept (create_card body) r c k h b = Kept-invalidate _ k c c h (refl, refl)
  on_success-kept (update_card id body) r c k h b = Kept-row card_keys _ k r.row c h
  on_success-kept (delete_card id) r c k h b = Kept-invalidate _ k c c h (refl, refl)
  on_success-kept (restore_card id) r c k h b = Kept-invalidate _ k c c h (refl, refl)
  on_success-kept (delete_cards body) r c k h b = Kept-invalidate _ k c c h (refl, refl)
  on_success-kept (restore_cards body) r c k h b = Kept-invalidate _ k c c h (refl, refl)
  on_success-kept (rate card_id body) r c k h b =
      Kept-invalidate card_keys k c _ h (Kept-remove (review_answer card_id) k c b)
  on_success-kept (create_set body) r c k h b = Kept-invalidate _ k c c h (refl, refl)
  on_success-kept (archive_set id archived) r c k h b = Kept-invalidate _ k c c h (refl, refl)
  on_success-kept (delete_set id) r c k h b = Kept-invalidate _ k c c h (refl, refl)
  on_success-kept (start_run set_id body) r c k h b =
      Kept-invalidate set_keys k c _ h (Kept-set (set_run r.id) k r.row c b)
  on_success-kept (answer_question run_id card_id body) r c k h b =
      Kept-remove (set_answer run_id card_id) k c b
  on_success-kept (finish_run run_id) r c k h b =
      Kept-invalidate set_keys k c _ h (Kept-invalidate (set_run run_id) k c c b (refl, refl))
  on_success-kept (pin_cards set_id body) r c k h b = Kept-invalidate _ k c c h (refl, refl)
  on_success-kept (discard_run run_id) r c k h b = Kept-invalidate _ k c c h (refl, refl)
  on_success-kept (create_domain body) r c k h b = Kept-invalidate _ k c c h (refl, refl)
  on_success-kept (update_domain id body) r c k h b = Kept-invalidate _ k c c h (refl, refl)
  on_success-kept (archive_domain id archived) r c k h b = Kept-invalidate _ k c c h (refl, refl)
  on_success-kept (delete_domain id) r c k h b = Kept-invalidate _ k c c h (refl, refl)
  on_success-kept (create_category body) r c k h b = Kept-invalidate _ k c c h (refl, refl)
  on_success-kept (update_category id body) r c k h b = Kept-invalidate _ k c c h (refl, refl)
  on_success-kept (archive_category id archived) r c k h b = Kept-invalidate _ k c c h (refl, refl)
  on_success-kept (delete_category id) r c k h b = Kept-invalidate _ k c c h (refl, refl)
  on_success-kept (log_session body) r c k h b = Kept-invalidate _ k c c h (refl, refl)

  -- None of the mutations of the notes, the cards, the review, the domains, the categories and the
  -- sessions of the timer has the list of due cards fetched again or changed, not even those that
  -- create, edit, delete or restore cards. Those of the account, some of which empty the cache, and
  -- of its settings are not among them.
  pub due_kept :
      (m : Mutation) (r : Reply qc) (c : Cache)
      → (qc.read review_due (on_success qc m r c) ≡ qc.read review_due c)
        × (qc.stale review_due (on_success qc m r c) ≡ qc.stale review_due c)
  due_kept m r c = on_success-kept m r c review_due (apart m) (aside m r)
    where
      apart : (m : Mutation) → in_family (family m) review_due ≡ false
      apart m =
          unfold in_family family is_prefix review_due same_part str_eq detail_key in ground arith

      aside : (m : Mutation) (r : Reply qc) → beside m r review_due ≡ false
      aside m r =
          unfold beside is_prefix same_key review_due review_answer set_run set_answer same_part
            str_eq in
          ground arith
