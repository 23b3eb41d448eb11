-- ===== src/Examples/Editors.antt =====
-- The two editors at concrete inputs.
use konku.Common.{◌≡◌, refl, true, false, codes, List, [], ◌∷◌, ◌++◌, none, All, str_eq}
use konku.Common.Sets.{has}
use konku.Common.SameIds.{same_ids}
use konku.Common.Trim.{trim, trim_start, trim_end, is_space}
use konku.NoteEditor.{
  Note, no_note, dirty, same_domain, differs, leave, pending, opened, do_save, handle, handle_all,
  answered, edited,
}
use konku.NoteEditor.Retry.{tries, copies, tries_lem}
use konku.CardEditor
use konku.CardEditor.Laws
use konku.CardEditor.Duplicate.{pressed_then_left}

abbrev plan : Note
plan = record {
  title = codes "Plan";
  content_md = codes "- [ ] read";
  domain_id = none;
  category_ids = codes "a" ∷ codes "b" ∷ [];
}

-- The categories in another order.
abbrev rest : konku.NoteEditor.Editor
rest = record opened {
  loaded = true;
  screen = plan;
  saved = record plan { category_ids = codes "b" ∷ codes "a" ∷ [] };
}

abbrev stuck : konku.NoteEditor.Editor
stuck = record opened { loaded = true; screen = plan; failed = true; attempt = 1 }

tries_lem_example :
    (dirty (handle_all (tries 3 plan) stuck) ≡ false)
    × ((handle_all (tries 3 plan) stuck).saved ≡ plan)
    × ((handle_all (tries 3 plan) stuck).screen ≡ plan)
    × ((handle_all (tries 3 plan) stuck).attempt ≡ 0)
    × ((handle_all (tries 3 plan) stuck).sent ≡ stuck.sent ++ copies 4 plan)
unfolding dirty differs same_domain same_ids has str_eq
tries_lem_example = tries_lem 3 stuck refl refl refl

abbrev card : CardEditor.Card
card = record {
  front = codes " capital of France ";
  back = codes "Paris";
  domain_id = none;
  category_ids = [];
}

abbrev steps : List CardEditor.Laws.Event
steps =
    CardEditor.Laws.edited card
    ∷ CardEditor.Laws.hidden
    ∷ CardEditor.Laws.answered (codes "c1") card
    ∷ CardEditor.Laws.left
    ∷ []

sent-IsWhole_example :
    All CardEditor.Laws.IsWhole (CardEditor.Laws.handle_all steps (CardEditor.opened none)).sent
sent-IsWhole_example = CardEditor.Laws.sent-IsWhole steps none

abbrev fresh : CardEditor.Editor
fresh = record {
  route = none;
  screen = card;
  saved = CardEditor.no_card;
  loaded = true;
  removed = false;
  in_flight = none;
  sent = [];
}

pressed_then_left_example :
    ((CardEditor.Laws.handle_all (CardEditor.Laws.pressed ∷ CardEditor.Laws.left ∷ []) fresh).sent
      ≡ CardEditor.create (CardEditor.input fresh)
        ∷ CardEditor.create (CardEditor.input fresh)
        ∷ [])
    × ((CardEditor.Laws.handle_all
          (CardEditor.Laws.pressed ∷ CardEditor.Laws.hidden ∷ [])
          fresh).sent
        ≡ CardEditor.create (CardEditor.input fresh)
          ∷ CardEditor.create (CardEditor.input fresh)
          ∷ [])
unfolding CardEditor.valid CardEditor.dirty CardEditor.differs CardEditor.input trim trim_start
    trim_end is_space str_eq
pressed_then_left_example = pressed_then_left fresh refl refl refl refl refl
