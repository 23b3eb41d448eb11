-- ===== src/Gate/Laws.antt =====
-- Who sees which screen.
use konku.Common.{
  ◌≡◌, refl, ap, ◌∙◌, inl, inr, Bool, true, false, ◌&&◌, not, Text, codes, str_eq, List, [], ◌∷◌,
  Option, none, some, ◌==◌, if◌then◌else◌, arith, Bool-cases,
}
use konku.Client.{Response, receive}
use konku.Client.Laws.{receive_error}
use konku.Auth.Cache.{QueryClient}
use konku.Auth.SignOut.{
  me_query_key, Browser, Success, ends_session, on_success, on_success-SignedOut,
}
use konku.Peek.{Entry}
use konku.Gate.{
  User, Result, returned, thrown, me_result, Me, MeQuery, Screen, unreachable, app, verify,
  reset_password, privacy, terms, signup, forgot, login, user_of, public_screen, guest_screen,
  past_public, gate,
}

abbrev pub is_app : Screen → Bool
is_app (app location peeked) = true
is_app _ = false

abbrev pub is_verified : Option User → Bool
is_verified none = false
is_verified (some user) = user.email_verified

public_not_app : (path : Text) (s : Screen) → public_screen path ≡ some s → is_app s ≡ false
unfolding public_screen
public_not_app path s e = ground (arith, e)

abbrev is_none : Option Screen → Bool
is_none none = true
is_none (some s) = false

me_result_error :
    (unexpected : Text) (res : Response User)
    → res.ok ≡ false
    → me_result (receive unexpected res) ≡ (if res.status == 401 then returned none else thrown)
unfolding me_result
me_result_error unexpected res h =
    let error = receive_error unexpected res h in
    ap me_result error.1 ∙ ap (λ n. if n == 401 then returned none else thrown) error.2

-- The first screen whose test passes.
abbrev first : List (Bool × Screen) → Screen → Screen
first [] last = last
first ((true, s) ∷ rest) last = s
first ((false, s) ∷ rest) last = first rest last

module _ (matches : Text → Text → Bool) where
  guest_not_app : (path : Text) → is_app (guest_screen matches path) ≡ false
  unfolding guest_screen
  guest_not_app path = ground arith

  past_public_app :
      (s : Option Screen) (user : Option User) (e : Entry)
      → public_screen e.location.pathname ≡ s
      → is_app (past_public matches s user e) ≡ (is_none s && is_verified user)
  past_public_app (some s) user e h = public_not_app e.location.pathname s h
  past_public_app none none e h = guest_not_app e.location.pathname
  past_public_app none (some user) e h = ground arith

  -- The app is shown exactly to a user who is signed in with a verified address, once the session is
  -- known without an error, and away from the paths that have a screen of their own.
  pub is_app-gate :
      (me : Me) (e : Entry)
      → is_app (gate matches me e) ≡ (
          not me.is_pending
          && (not me.error
              && (is_none (public_screen e.location.pathname) && is_verified (user_of me.answer))))
  unfolding gate
  is_app-gate me e =
      ground (arith, past_public_app (public_screen e.location.pathname) (user_of me.answer) e refl)

  -- Once a mutation has ended the session of this browser, no address shows the app, whatever the
  -- query of the session says besides the user that the cache holds.
  pub ended_not_app :
      (qc : QueryClient (Option User)) (s : Success qc) (b : Browser qc) (me : Me) (e : Entry)
      → ends_session qc s ≡ true
      → me.answer ≡ qc.read me_query_key (on_success qc s b).cache
      → is_app (gate matches me e) ≡ false
  ended_not_app qc s b me e h r =
      is_app-gate me e ∙ rw (r, (on_success-SignedOut qc s b h).0) (ground arith)

  -- What a guest sees: the first of these that the address is, and otherwise the login.
  abbrev pub guest_view : Text → Screen
  guest_view path =
      first
        ((str_eq path (codes "/verify"), verify)
          ∷ (str_eq path (codes "/reset-password"), reset_password)
          ∷ (str_eq path (codes "/privacy"), privacy)
          ∷ (str_eq path (codes "/terms"), terms)
          ∷ (matches (codes "/signup") path, signup)
          ∷ (matches (codes "/forgot") path, forgot)
          ∷ [])
        login

  guest_view_lem :
      (path : Text) (e : Entry)
      → e.location.pathname ≡ path
      → past_public matches (public_screen path) none e ≡ guest_view path
  unfolding public_screen guest_screen
  guest_view_lem path e h = ground (arith, h)

  -- What the network's answer to `/auth/me` shows when it is not ok, at any address: a 401 is an
  -- answer, which shows the link from a mail or the document whose path this is, or else the sign-up
  -- or the forgotten password where the router matches their paths, and the login anywhere else; any
  -- other status shows that the server cannot be reached, and never the screens of a guest.
  pub gate_error :
      (query : MeQuery) (state : query.State) (unexpected : Text) (res : Response User) (e : Entry)
      → res.ok ≡ false
      → gate matches (query.me (query.settle (me_result (receive unexpected res)) state)) e
        ≡ (if res.status == 401 then guest_view e.location.pathname else unreachable)
  gate_error query state unexpected res e h =
      let shown : Result → Screen = λ r. gate matches (query.me (query.settle r state)) e in
      ap shown (me_result_error unexpected res h) ∙ elim (Bool-cases (res.status == 401)) [
        | inl f ↦ rw f (
            ap (λ me. gate matches me e) (query.me_returned none state)
            ∙ (unfold gate in guest_view_lem e.location.pathname e refl))
        | inr f ↦ rw f (ap (λ me. gate matches me e) (query.me_thrown state) ∙ unfold gate in refl)
      ]
