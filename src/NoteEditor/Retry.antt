-- ===== src/NoteEditor/Retry.antt =====
-- A failed save is tried again until one lands.
use konku.Common.{
  ℕ, zero, suc, ◌≤◌, min, ◌≡◌, refl, ◌∙◌, ap, true, false, List, [], ◌∷◌, ◌++◌, none, append_assoc,
  arith,
}
use konku.NoteEditor.{
  Note, Editor, dirty, retry_delay, Event, retried, refused, answered, handle, handle_all,
}
use konku.NoteEditor.Laws.{differs_self}

-- The wait before a retry is between two seconds and a minute, and never shorter than the one
-- before it.
retry_delay_bounds :
    (n : ℕ)
    → (2000 ≤ retry_delay n) × (retry_delay n ≤ 60000) × (retry_delay n ≤ retry_delay (suc n))
unfolding retry_delay
retry_delay_bounds zero = omega arith
retry_delay_bounds (suc zero) = omega arith
retry_delay_bounds (suc (suc zero)) = omega arith
retry_delay_bounds (suc (suc (suc zero))) = omega arith
retry_delay_bounds (suc (suc (suc (suc n)))) =
    let e : min (suc (suc (suc (suc n)))) 4 ≡ 4 = omega arith in
    let f : min (suc (suc (suc (suc (suc n))))) 4 ≡ 4 = omega arith in rw (e, f) (omega arith)

-- `n` retries that fail, and one that the server answers with what was sent.
unfoldable pub tries : ℕ → Note → List Event
tries zero screen = retried ∷ answered screen ∷ []
tries (suc n) screen = retried ∷ refused ∷ tries n screen

pub copies : ℕ → Note → List Note
copies zero n = []
copies (suc k) n = n ∷ copies k n

abbrev after_failure : Editor → Editor
after_failure e = record e {
  attempt = suc e.attempt;
  in_flight = none;
  failed = true;
  sent = e.sent ++ e.screen ∷ [];
}

failed_round :
    (e : Editor)
    → e.failed ≡ true
    → dirty e ≡ true
    → handle refused (handle retried e) ≡ after_failure e
unfolding handle
failed_round e f d = simp (f, d)

last_round :
    (e : Editor)
    → e.failed ≡ true
    → dirty e ≡ true
    → handle (answered e.screen) (handle retried e) ≡ record e {
      saved = e.screen;
      attempt = 0;
      in_flight = none;
      failed = false;
      sent = e.sent ++ e.screen ∷ [];
    }
unfolding handle
last_round e f d = simp (f, d)

tries_save :
    (n : ℕ) (e : Editor)
    → e.failed ≡ true
    → dirty e ≡ true
    → handle_all (tries n e.screen) e ≡ record e {
      saved = e.screen;
      attempt = 0;
      in_flight = none;
      failed = false;
      sent = e.sent ++ copies (suc n) e.screen;
    }
unfolding handle_all tries copies
tries_save zero e f d = last_round e f d
tries_save (suc n) e f d =
    ap (λ s. handle_all (tries n e.screen) s) (failed_round e f d)
    ∙ (tries_save n (after_failure e) refl (still e ∙ d)
        ∙ rw (append_assoc e.sent (e.screen ∷ []) (copies (suc n) e.screen)))
  where
    still : (e : Editor) → dirty (after_failure e) ≡ dirty e
    still e = unfold dirty in refl

-- After a failed save of a loaded editor with unsaved text that nobody touches, each retry sends
-- the text on screen, however many of them fail; the first that the server answers with that text
-- leaves the editor clean and the failures forgotten.
pub tries_lem :
    (n : ℕ) (e : Editor)
    → e.loaded ≡ true
    → e.failed ≡ true
    → dirty e ≡ true
    → (dirty (handle_all (tries n e.screen) e) ≡ false)
      × ((handle_all (tries n e.screen) e).saved ≡ e.screen)
      × ((handle_all (tries n e.screen) e).screen ≡ e.screen)
      × ((handle_all (tries n e.screen) e).attempt ≡ 0)
      × ((handle_all (tries n e.screen) e).sent ≡ e.sent ++ copies (suc n) e.screen)
tries_lem n e l f d =
    rw (tries_save n e f d) (unfold dirty in rw (l, differs_self e.screen), refl, refl, refl, refl)
