-- ===== src/CardEditor.antt =====
-- The card editor: web/src/features/cards/CardEditorPage.tsx. `route` is the id in the URL, `none`
-- on the new-card screen. The requests handed to the network are kept in the order of sending.
pub mod Laws
pub mod Duplicate
use konku.Common.{
  ℕ, Bool, true, false, ◌&&◌, ◌||◌, not, Text, List, [], ◌∷◌, ◌++◌, Option, none, some, str_eq,
  truthy, if◌then◌else◌,
}
use konku.Common.SameIds.{same_ids}
use konku.Common.Trim.{trim}
use konku.Flush.{PendingWrite, patch}
use konku.NoteEditor.{same_domain}

-- `CardInput`, and what the editor holds of a card.
pub record Card : Type 0 where
  pub front : Text
  pub back : Text
  pub domain_id : Option Text
  pub category_ids : List Text

abbrev pub no_card : Card
no_card = record { front = []; back = []; domain_id = none; category_ids = [] }

-- `POST /cards` and `PATCH /cards/:id`.
pub data Request : Type 0 where
  create : Card → Request
  update : Text → Card → Request

-- A mutation in flight, with `andGo` for a creation.
pub data Flight : Type 0 where
  creation : Bool → Flight
  change : Flight

pub record Editor : Type 0 where
  pub route : Option Text
  pub screen : Card
  pub saved : Card
  pub loaded : Bool
  pub removed : Bool
  pub in_flight : Option Flight
  pub sent : List Request

abbrev is_none : Option Text → Bool
is_none none = true
is_none (some id) = false

-- A new card has nothing to wait for.
unfoldable pub opened : Option Text → Editor
opened route = record {
  route = route;
  screen = no_card;
  saved = no_card;
  loaded = is_none route;
  removed = false;
  in_flight = none;
  sent = [];
}

-- What a save sends: both sides trimmed.
unfoldable pub input : Editor → Card
input e = record (e.screen) { front = trim e.screen.front; back = trim e.screen.back }

unfoldable pub valid : Editor → Bool
valid e = truthy (trim e.screen.front) && truthy (trim e.screen.back)

unfoldable pub differs : Card → Card → Bool
differs a b =
    not (str_eq a.front b.front)
    || not (str_eq a.back b.back)
    || (not (same_domain a.domain_id b.domain_id) || not (same_ids a.category_ids b.category_ids))

unfoldable pub dirty : Editor → Bool
dirty e = e.loaded && differs (input e) e.saved

persist_by : Option Text → Bool → Editor → Editor
persist_by none and_go e = record e {
  in_flight = some (creation and_go);
  sent = e.sent ++ create (input e) ∷ [];
}
persist_by (some id) and_go e = record e {
  in_flight = some change;
  sent = e.sent ++ update id (input e) ∷ [];
}

unfoldable pub persist : Bool → Editor → Editor
unfolding persist_by
persist and_go e = persist_by e.route and_go e

unfoldable pub arrive : Card → Editor → Editor
arrive card e = if e.loaded then e else record e { screen = card; saved = card; loaded = true }

press_by : Option Flight → Editor → Editor
press_by none e = if valid e && dirty e then persist true e else e
press_by (some f) e = e

-- The save button, disabled while invalid, clean or pending.
unfoldable pub press_save : Editor → Editor
unfolding press_by
press_save e = press_by e.in_flight e

-- The cleanup of the screen, and the tab going to the background.
unfoldable pub leave : Editor → Editor
leave e = if e.removed then e else if dirty e && valid e then persist false e else e

unfoldable pub hide : Editor → Editor
hide e = if e.removed || not (dirty e) || not (valid e) then e else persist true e

pending_by : Option Text → (Card → Text) → (Text → Text) → Editor → Option PendingWrite
pending_by none stringify path e = none
pending_by (some id) stringify path e =
    if e.removed || not (dirty e) || not (valid e)
    then none
    else some (record { path = path id; method = patch; body = stringify (input e) })

-- `pending` of the keepalive path; `stringify` is JSON's and `path` puts the id in the URL.
unfoldable pub pending : (Card → Text) → (Text → Text) → Editor → Option PendingWrite
unfolding pending_by
pending stringify path e = pending_by e.route stringify path e

respond_by : Option Flight → Text → Card → Editor → Editor
respond_by none id card e = e
respond_by (some (creation true)) id card e = record e {
  route = some id;
  saved = card;
  in_flight = none;
}
respond_by (some (creation false)) id card e = record e { saved = card; in_flight = none }
respond_by (some change) id card e = record e { saved = card; in_flight = none }

-- `onSuccess`: the row is adopted, and a creation that was asked to goes to the card's own URL.
unfoldable pub respond : Text → Card → Editor → Editor
unfolding respond_by
respond id card e = respond_by e.in_flight id card e

unfoldable pub fail : Editor → Editor
fail e = record e { in_flight = none }

unfoldable pub remove : Editor → Editor
remove e = record e { removed = true }
