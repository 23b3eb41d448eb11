-- ===== src/Flush/Laws.antt =====
-- One departure sends one body once.
use konku.Common.{
  ◌≡◌, refl, sym, Bool, true, false, [], ◌∷◌, ◌++◌, Option, none, some, str_eq_refl, if◌then◌else◌,
  append-nil, append_assoc, arith,
}
use konku.Flush.{
  PendingWrite, saved, Flush, payload, send, flush, hidden, shown, page_hide, on_event, on_events,
}

-- A second departure event with the same write pending sends nothing.
flush_again : (w : Option PendingWrite) (s : Flush) → flush w (flush w s) ≡ flush w s
unfolding flush
flush_again none s = refl
flush_again (some w) s = ground (arith, str_eq_refl (payload w))

-- Closing a tab, with nothing sent on this departure yet: the browser fires "hidden" and then
-- `pagehide`, even twice. With no handler of its own an editor's write leaves exactly once, and
-- with one the ordinary save leaves first and the write follows once, as a backstop; nothing
-- leaves for an editor with nothing to write but that save.
pub departure :
    (has_handler : Bool) (w : Option PendingWrite) (s : Flush)
    → s.last ≡ none
    → (on_events has_handler ((hidden, w) ∷ (page_hide, w) ∷ (page_hide, w) ∷ []) s).out
      ≡ s.out
        ++ ((if has_handler then saved ∷ [] else [])
            ++ (elim w [ none ↦ [] | some v ↦ send v ∷ [] ]))
unfolding on_events on_event flush
departure true none s e = ground arith
departure false none s e = sym (append-nil s.out)
departure true (some w) s e =
    ground (arith, str_eq_refl (payload w), append_assoc s.out (saved ∷ []) (send w ∷ []))
departure false (some w) s e = ground (arith, str_eq_refl (payload w))

-- Back on screen, the same write may leave again.
return_sends_again :
    (w : PendingWrite) (s : Flush)
    → (on_events false ((hidden, some w) ∷ (shown, none) ∷ (hidden, some w) ∷ []) s).out
      ≡ (flush (some w) s).out ++ send w ∷ []
unfolding on_events on_event flush
return_sends_again w s = ground arith
