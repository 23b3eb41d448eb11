-- ===== src/Gate.antt =====
-- Which screen the app is: web/src/App.tsx, over the answer of `useMe` in
-- web/src/features/auth/useAuth.ts. TanStack's `useQuery` is a `MeQuery`, and the router's matching of
-- a route's path is a parameter.
pub mod Laws
use konku.Common.{
  ℕ, ◌≡◌, Bool, true, false, Text, codes, str_eq, Option, none, some, List, [], ◌∷◌, ◌==◌,
  if◌then◌else◌,
}
use konku.Client.{Outcome, value, nothing, failed, unreadable}
use konku.Peek.{Background, Entry, peeked_path, list_location}

-- The fields of `User` that the gate reads.
pub record User : Type 0 where
  pub email : Text
  pub email_verified : Bool

-- What the query function comes to: it returns the user or null, or it throws.
pub data Result : Type 0 where
  returned : Option User → Result
  thrown : Result

-- The query function of `useMe`; a body of no content makes it return `undefined`, which the query
-- takes for an error.
unfoldable pub me_result : Outcome User → Result
me_result (value user) = returned (some user)
me_result nothing = thrown
me_result (failed e) = if e.status == 401 then returned none else thrown
me_result unreadable = thrown

-- What `useQuery` gives, `answer` its `data`; after an error the last answer may still be there.
pub record Me : Type 0 where
  pub is_pending : Bool
  pub error : Bool
  pub answer : Option (Option User)

pub record MeQuery : Type 1 where
  pub State : Type 0
  pub me : State → Me
  pub settle : Result → State → State
  pub me_returned :
      (u : Option User) (s : State)
      → me (settle (returned u) s) ≡ record { is_pending = false; error = false; answer = some u }
  pub me_thrown :
      (s : State)
      → me (settle thrown s) ≡ record { is_pending = false; error = true; answer = (me s).answer }

pub data Screen : Type 0 where
  loading unreachable verify reset_password privacy terms signup forgot login : Screen
  verify_pending : Text → Screen
  -- The shell, with the location that its routes are matched by and the path of the preview.
  app : Background → Option Text → Screen

abbrev pub user_of : Option (Option User) → Option User
user_of none = none
user_of (some u) = u

-- The screens that a path has in every state of the session.
unfoldable pub public_screen : Text → Option Screen
public_screen path =
    if str_eq path (codes "/verify")
    then some verify
    else if str_eq path (codes "/reset-password")
    then some reset_password
    else if str_eq path (codes "/privacy")
    then some privacy
    else if str_eq path (codes "/terms")
    then some terms
    else none

module _ (matches : Text → Text → Bool) where
  unfoldable pub guest_screen : Text → Screen
  guest_screen path =
      if matches (codes "/signup") path
      then signup
      else if matches (codes "/forgot") path
      then forgot
      else login

  abbrev pub session_screen : Option User → Entry → Screen
  session_screen none e = guest_screen e.location.pathname
  session_screen (some user) e =
      if user.email_verified
      then app (list_location e) (peeked_path e)
      else verify_pending user.email

  abbrev pub past_public : Option Screen → Option User → Entry → Screen
  past_public (some screen) user e = screen
  past_public none user e = session_screen user e

  unfoldable pub gate : Me → Entry → Screen
  gate me e =
      if me.is_pending
      then loading
      else if me.error
      then unreachable
      else past_public (public_screen e.location.pathname) (user_of me.answer) e
