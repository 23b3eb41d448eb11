-- ===== src/Settings/Removal.antt =====
-- The dialog that deletes the account: web/src/features/settings/DeleteAccount.tsx over
-- `useDeleteAccount` of web/src/features/auth/useAuth.ts. Closing it lets go of the request that is in
-- flight, whose success still signs out, since that is the mutation's own callback. A sign-out takes
-- the screen away.
pub mod Laws
use konku.Common.{
  ℕ, Bool, true, false, not, Text, truthy, Option, none, some, List, [], ◌∷◌, ◌++◌, length, exists,
  filter, ◌==◌, if◌then◌else◌,
}

pub data Event : Type 0 where
  opened : Event
  -- Escape or a press outside, and the button, which is off while a request is in flight.
  dismissed cancelled : Event
  typed : (value : Text) → Event
  submitted : Event
  -- The answer to a request, by its place among those sent.
  answered : (request : ℕ) → (error : Option Text) → Event

-- `pending` is the request that the dialog waits for.
pub record Dialog : Type 0 where
  pub is_open : Bool
  pub password : Text
  pub pending : Option ℕ
  pub error : Option Text
  pub sent : List Text
  pub in_flight : List ℕ
  pub signed_out : Bool

abbrev pub mounted : Dialog
mounted = record {
  is_open = false;
  password = [];
  pending = none;
  error = none;
  sent = [];
  in_flight = [];
  signed_out = false;
}

-- `onOpenChange(false)`.
unfoldable pub close : Dialog → Dialog
close d = record d { is_open = false; password = []; pending = none; error = none }

abbrev pub waits_for : ℕ → Option ℕ → Bool
waits_for n none = false
waits_for n (some m) = m == n

abbrev pub is_pending : Option ℕ → Bool
is_pending none = false
is_pending (some m) = true

abbrev pub flies : ℕ → List ℕ → Bool
flies n in_flight = exists (λ m. m == n) in_flight

unfoldable pub mutate : Dialog → Dialog
mutate d = record d {
  pending = some (length d.sent);
  error = none;
  sent = d.sent ++ d.password ∷ [];
  in_flight = length d.sent ∷ d.in_flight;
}

-- The button is off while a request is in flight, and the field is required.
unfoldable pub on_submit : Dialog → Dialog
on_submit d = if is_pending d.pending then d else if truthy d.password then mutate d else d

unfoldable pub on_open : Event → Dialog → Dialog
on_open dismissed d = close d
on_open cancelled d = if is_pending d.pending then d else close d
on_open (typed value) d = record d { password = value }
on_open submitted d = on_submit d
on_open _ d = d

abbrev pub on_closed : Event → Dialog → Dialog
on_closed opened d = record d { is_open = true }
on_closed _ d = d

unfoldable pub settle : ℕ → Option Text → Dialog → Dialog
settle n none d = record d { in_flight = filter (λ m. not (m == n)) d.in_flight; signed_out = true }
settle n (some message) d =
    let e = record d { in_flight = filter (λ m. not (m == n)) d.in_flight } in
    if waits_for n d.pending then record e { pending = none; error = some message } else e

abbrev pub on_screen : Event → Dialog → Dialog
on_screen e d = if d.is_open then on_open e d else on_closed e d

unfoldable pub handle : Event → Dialog → Dialog
handle (answered n error) d = if flies n d.in_flight then settle n error d else d
handle e d = if d.signed_out then d else on_screen e d

unfoldable pub handle_all : List Event → Dialog → Dialog
handle_all [] d = d
handle_all (e ∷ es) d = handle_all es (handle e d)
