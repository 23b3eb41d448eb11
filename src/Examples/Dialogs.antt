-- ===== src/Examples/Dialogs.antt =====
-- The capture dialog and the category picker.
use konku.Common.{◌≡◌, refl, false, codes, str_eq, [], ◌∷◌, ◌++◌, none, some}
use konku.Common.Trim.{trim, trim_end, trim_start, is_space}
use konku.Common.Sets.{has}
use konku.Timer.{initial, done}
use konku.Capture
use konku.Capture.{Capture, saved, keyed}
use konku.Capture.Laws.{replicate, note_of, saved_or_keyed}
use konku.Picker
use konku.Picker.{Picker, committed, answered}
use konku.Picker.Laws.{pressed, committed-answered}

abbrev capture : Capture
capture = record {
  timer = record initial { status = done };
  text = codes " a thought ";
  pending = false;
  sent = [];
}

saved_or_keyed_example :
    ((Capture.handle_all (replicate 2 saved) capture).sent ≡ capture.sent ++ note_of capture ∷ [])
    × ((Capture.handle_all (replicate 2 keyed) capture).sent
        ≡ capture.sent ++ replicate 2 (note_of capture))
unfolding trim trim_end trim_start is_space
saved_or_keyed_example = saved_or_keyed 1 capture refl refl refl

-- A field in which nothing has a label yet.
abbrev picker : Picker
picker = record {
  categories = [];
  selected = codes "k1" ∷ [];
  query = codes "new";
  flight = none;
  asked = [];
}

committed-answered_example :
    let q =
      Picker.handle_all
        (λ t. t)
        (committed ∷ pressed (λ t. t) (codes "k2" ∷ []) ++ answered (some (codes "k3")) ∷ [])
        picker in
    (q.selected ≡ picker.selected ++ codes "k3" ∷ [])
    × (q.asked ≡ codes "new" ∷ [])
    × (q.query ≡ [])
    × (q.flight ≡ none)
unfolding trim trim_end trim_start is_space Picker.exact has str_eq
committed-answered_example =
    committed-answered (λ t. t) picker (codes "k2" ∷ []) (codes "k3") refl refl refl refl
