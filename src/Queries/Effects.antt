-- ===== src/Queries/Effects.antt =====
-- The mutations of the notes, the cards, the review, the domains, the categories and the timer's
-- sessions: the request that each sends, and what its `onSuccess` does to the cache. Those of the
-- account are Auth/SignOut's, and the one of the preferences is Settings'. A body is the text that `JSON.stringify` makes of it.
use konku.Common.{Bool, Text, codes, ◌++◌, if◌then◌else◌}
use konku.Auth.Cache.{is_prefix, QueryClient}
use konku.Client.{post, patch, put, del, absent, json, Fetch, api}
use konku.Queries.Keys.{
  note_keys, card_keys, review_answer, set_keys, set_run, set_answer, domain_keys, category_keys,
  session_keys, detail_key,
}

pub data Mutation : Type 0 where
  create_note : Text → Mutation
  save_note : Text → Text → Mutation
  delete_note restore_note delete_notes restore_notes : Text → Mutation
  create_card : Text → Mutation
  update_card : Text → Text → Mutation
  delete_card restore_card delete_cards restore_cards : Text → Mutation
  rate : Text → Text → Mutation
  create_set : Text → Mutation
  archive_set : Text → Bool → Mutation
  delete_set : Text → Mutation
  start_run : Text → Text → Mutation
  answer_question : Text → Text → Text → Mutation
  finish_run : Text → Mutation
  pin_cards : Text → Text → Mutation
  discard_run : Text → Mutation
  create_domain : Text → Mutation
  update_domain : Text → Text → Mutation
  archive_domain : Text → Bool → Mutation
  delete_domain : Text → Mutation
  create_category : Text → Mutation
  update_category : Text → Text → Mutation
  archive_category : Text → Bool → Mutation
  delete_category : Text → Mutation
  log_session : Text → Mutation

-- `v.archived ? 'archive' : 'unarchive'`.
abbrev archive_word : Bool → Text
archive_word archived = if archived then codes "archive" else codes "unarchive"

unfoldable pub request_of : Mutation → Fetch
request_of (create_note body) = api post (codes "/notes") (json body)
request_of (save_note id body) = api patch (codes "/notes/" ++ id) (json body)
request_of (delete_note id) = api del (codes "/notes/" ++ id) absent
request_of (restore_note id) = api post (codes "/notes/" ++ id ++ codes "/restore") absent
request_of (delete_notes body) = api post (codes "/notes/bulk-delete") (json body)
request_of (restore_notes body) = api post (codes "/notes/bulk-restore") (json body)
request_of (create_card body) = api post (codes "/cards") (json body)
request_of (update_card id body) = api patch (codes "/cards/" ++ id) (json body)
request_of (delete_card id) = api del (codes "/cards/" ++ id) absent
request_of (restore_card id) = api post (codes "/cards/" ++ id ++ codes "/restore") absent
request_of (delete_cards body) = api post (codes "/cards/bulk-delete") (json body)
request_of (restore_cards body) = api post (codes "/cards/bulk-restore") (json body)
request_of (rate card_id body) = api post (codes "/review/due/" ++ card_id) (json body)
request_of (create_set body) = api post (codes "/review/sets") (json body)
request_of (archive_set id archived) =
    api post (codes "/review/sets/" ++ id ++ codes "/" ++ archive_word archived) absent
request_of (delete_set id) = api del (codes "/review/sets/" ++ id) absent
request_of (start_run set_id body) =
    api post (codes "/review/sets/" ++ set_id ++ codes "/runs") (json body)
request_of (answer_question run_id card_id body) =
    api post (codes "/review/runs/" ++ run_id ++ codes "/" ++ card_id) (json body)
request_of (finish_run run_id) =
    api post (codes "/review/runs/" ++ run_id ++ codes "/finish") absent
request_of (pin_cards set_id body) =
    api put (codes "/review/sets/" ++ set_id ++ codes "/cards") (json body)
request_of (discard_run run_id) = api del (codes "/review/runs/" ++ run_id) absent
request_of (create_domain body) = api post (codes "/domains") (json body)
request_of (update_domain id body) = api patch (codes "/domains/" ++ id) (json body)
request_of (archive_domain id archived) =
    api post (codes "/domains/" ++ id ++ codes "/" ++ archive_word archived) absent
request_of (delete_domain id) = api del (codes "/domains/" ++ id) absent
request_of (create_category body) = api post (codes "/categories") (json body)
request_of (update_category id body) = api patch (codes "/categories/" ++ id) (json body)
request_of (archive_category id archived) =
    api post (codes "/categories/" ++ id ++ codes "/" ++ archive_word archived) absent
request_of (delete_category id) = api del (codes "/categories/" ++ id) absent
request_of (log_session body) = api post (codes "/sessions") (json body)

module _ {D : Type 0} (qc : QueryClient D) where
  open qc use {Cache}

  -- The row that the server answers, and its id.
  pub record Reply : Type 0 where
    pub id : Text
    pub row : D

  unfoldable pub on_success : Mutation → Reply → Cache → Cache
  on_success (create_note body) r c =
      qc.invalidate_queries note_keys (qc.set_query_data (detail_key note_keys r.id) r.row c)
  on_success (save_note id body) r c =
      qc.invalidate_queries note_keys (qc.set_query_data (detail_key note_keys r.id) r.row c)
  on_success (delete_note id) r c = qc.invalidate_queries note_keys c
  on_success (restore_note id) r c = qc.invalidate_queries note_keys c
  on_success (delete_notes body) r c = qc.invalidate_queries note_keys c
  on_success (restore_notes body) r c = qc.invalidate_queries note_keys c
  on_success (create_card body) r c = qc.invalidate_queries card_keys c
  on_success (update_card id body) r c =
      qc.invalidate_queries card_keys (qc.set_query_data (detail_key card_keys id) r.row c)
  on_success (delete_card id) r c = qc.invalidate_queries card_keys c
  on_success (restore_card id) r c = qc.invalidate_queries card_keys c
  on_success (delete_cards body) r c = qc.invalidate_queries card_keys c
  on_success (restore_cards body) r c = qc.invalidate_queries card_keys c
  on_success (rate card_id body) r c =
      qc.invalidate_queries card_keys (qc.remove_queries (is_prefix (review_answer card_id)) c)
  on_success (create_set body) r c = qc.invalidate_queries set_keys c
  on_success (archive_set id archived) r c = qc.invalidate_queries set_keys c
  on_success (delete_set id) r c = qc.invalidate_queries set_keys c
  on_success (start_run set_id body) r c =
      qc.invalidate_queries set_keys (qc.set_query_data (set_run r.id) r.row c)
  on_success (answer_question run_id card_id body) r c =
      qc.remove_queries (is_prefix (set_answer run_id card_id)) c
  on_success (finish_run run_id) r c =
      qc.invalidate_queries set_keys (qc.invalidate_queries (set_run run_id) c)
  on_success (pin_cards set_id body) r c = qc.invalidate_queries (detail_key set_keys set_id) c
  on_success (discard_run run_id) r c = qc.invalidate_queries set_keys c
  on_success (create_domain body) r c = qc.invalidate_queries domain_keys c
  on_success (update_domain id body) r c = qc.invalidate_queries domain_keys c
  on_success (archive_domain id archived) r c = qc.invalidate_queries domain_keys c
  on_success (delete_domain id) r c = qc.invalidate_queries domain_keys c
  on_success (create_category body) r c = qc.invalidate_queries category_keys c
  on_success (update_category id body) r c = qc.invalidate_queries category_keys c
  on_success (archive_category id archived) r c = qc.invalidate_queries category_keys c
  on_success (delete_category id) r c = qc.invalidate_queries category_keys c
  on_success (log_session body) r c = qc.invalidate_queries session_keys c
