-- ===== src/Auth/Requests.antt =====
-- What the account screens ask the server for: the query and mutation functions of
-- web/src/features/auth/useAuth.ts. A body is the text that `JSON.stringify` makes of it.
use konku.Common.{Text, codes, ◌++◌, ◌∷◌, []}
use konku.Auth.Cache.{name, Key, QueryClient}
use konku.Auth.SignOut.{me_query_key}
use konku.Client.{get, post, del, absent, json, Fetch, api}

pub data Request : Type 0 where
  me config sessions logout revoke_others : Request
  login signup verify forgot reset_password change_password resend_verification : Text → Request
  revoke delete_account : Text → Request

unfoldable pub request_of : Request → Fetch
request_of me = api get (codes "/auth/me") absent
request_of config = api get (codes "/auth/config") absent
request_of sessions = api get (codes "/auth/sessions") absent
request_of (login creds) = api post (codes "/auth/login") (json creds)
request_of (signup account) = api post (codes "/auth/signup") (json account)
request_of (verify token) = api post (codes "/auth/verify") (json token)
request_of (forgot email) = api post (codes "/auth/forgot") (json email)
request_of (reset_password vars) = api post (codes "/auth/reset") (json vars)
request_of (change_password vars) = api post (codes "/auth/password") (json vars)
request_of (resend_verification email) = api post (codes "/auth/resend-verification") (json email)
request_of (revoke id) = api del (codes "/auth/sessions/" ++ id) absent
request_of revoke_others = api del (codes "/auth/sessions") absent
request_of (delete_account password) = api del (codes "/account") (json password)
request_of logout = api post (codes "/auth/logout") absent

-- The key under which the outcome of one link is kept.
unfoldable pub verify_query_key : Text → Key
verify_query_key token = name (codes "auth") ∷ name (codes "verify") ∷ name token ∷ []

-- Whoever is signed in is read again once a link is spent.
unfoldable pub verified : {D : Type 0} (qc : QueryClient D) → qc.Cache → qc.Cache
verified qc c = qc.invalidate_queries me_query_key c
