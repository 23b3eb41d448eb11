-- ===== src/NoteEditor/Laws.antt =====
-- What the editor sends, and what "dirty" means.
use konku.Common.{
  ◌≡◌, refl, ap, true, false, ◌&&◌, not, Text, [], ◌∷◌, ◌++◌, Option, none, some, str_eq_iff,
  str_eq_refl, if◌then◌else◌, arith,
}
use konku.Common.Sets.{has, IsDistinct}
use konku.Common.SameIds.{same_ids_members, same_ids_refl}
use konku.Flush.{patch}
use konku.NoteEditor.{
  Note, Editor, same_domain, differs, dirty, do_save, save_if_dirty, leave, pending, edited,
  answered, handle,
}

same_domain_sound : (a b : Option Text) → same_domain a b ≡ true → a ≡ b
unfolding same_domain
same_domain_sound none none h = refl
same_domain_sound (some a) (some b) h = ap some ((str_eq_iff a b).0 h)
same_domain_sound none (some b) h = cc
same_domain_sound (some a) none h = cc

pub same_domain_refl : (a : Option Text) → same_domain a a ≡ true
unfolding same_domain
same_domain_refl none = refl
same_domain_refl (some a) = str_eq_refl a

pub differs_self : (n : Note) → differs n n ≡ false
unfolding differs
differs_self n = rw (
  str_eq_refl n.title,
  str_eq_refl n.content_md,
  same_domain_refl n.domain_id,
  same_ids_refl n.category_ids,
)

-- A loaded editor that is not dirty shows what the server holds: the title, the text, the domain,
-- and the same categories, whatever their order, if the screen names none of them twice.
pub clean_means_saved :
    (e : Editor) (c : Text)
    → e.loaded ≡ true
    → dirty e ≡ false
    → IsDistinct e.screen.category_ids
    → (e.screen.title ≡ e.saved.title)
      × (e.screen.content_md ≡ e.saved.content_md)
      × (e.screen.domain_id ≡ e.saved.domain_id)
      × (has c e.saved.category_ids ≡ has c e.screen.category_ids)
unfolding dirty differs
clean_means_saved e c l d h = (
  (str_eq_iff e.screen.title e.saved.title).0 (ground arith),
  (str_eq_iff e.screen.content_md e.saved.content_md).0 (ground arith),
  same_domain_sound e.screen.domain_id e.saved.domain_id (ground arith),
  same_ids_members c e.screen.category_ids e.saved.category_ids h (ground arith),
)

-- Leaving the screen or hiding the tab sends the text on screen exactly when it is unsaved and the
-- note was not deleted here, and the keepalive write of `pagehide` then holds that same text.
pub leave_lem :
    (stringify : Note → Text) (path : Text) (e : Editor)
    → ((leave e).sent ≡ (if not e.removed && dirty e then e.sent ++ e.screen ∷ [] else e.sent))
      × (pending stringify path e ≡ (
          if not e.removed && dirty e
          then some (record { path = path; method = patch; body = stringify e.screen })
          else none))
unfolding leave save_if_dirty do_save pending
leave_lem stringify path e = (ground arith, ground arith)

-- When the server answers with what was sent: an editor that was left alone is clean again, and
-- one that was edited meanwhile is dirty exactly if its text differs from what was sent, keeps its
-- text, and counts no failed attempts.
respond_edited :
    (e : Editor) (fields : Note)
    → e.loaded ≡ true
    → let after = handle (answered e.screen) (handle (edited fields) (do_save e)) in
      (dirty after ≡ differs fields e.screen)
      × (after.screen ≡ fields)
      × (after.attempt ≡ 0)
      × (dirty (handle (answered e.screen) (do_save e)) ≡ false)
unfolding dirty handle do_save
respond_edited e fields l = (ground arith, refl, refl, rw (l, differs_self e.screen))
