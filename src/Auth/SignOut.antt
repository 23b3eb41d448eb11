-- ===== src/Auth/SignOut.antt =====
-- How a session ends on the client: `reportSignedOut` and the mutations that call it, in
-- web/src/features/auth/useAuth.ts.
use konku.Common.{
  Bool, true, false, ◌&&◌, ◌||◌, not, ◌≡◌, refl, Text, codes, [], ◌∷◌, Option, none, some, str_eq,
  starts_with, ap, ◌∙◌, if◌then◌else◌, arith,
}
use konku.Auth.Cache.{name, Key, same_part, number, flag, same_key, is_prefix, QueryClient}
use konku.Storage.{Store, clear_account_storage, is_swept}
use konku.Common.Sets.{has, str_eq_sym}
use konku.Storage.Laws.{read, read-clear_account_storage}

abbrev pub me_query_key : Key
me_query_key = name (codes "auth") ∷ name (codes "me") ∷ []

abbrev pub auth_config_query_key : Key
auth_config_query_key = name (codes "auth") ∷ name (codes "config") ∷ []

abbrev pub auth_sessions_query_key : Key
auth_sessions_query_key = name (codes "auth") ∷ name (codes "sessions") ∷ []

-- `queryKey[i] === text`; a key that is too short has `undefined` there.
unfoldable pub part_is : Text → Key → Bool
part_is t [] = false
part_is t (name s ∷ k) = str_eq s t
part_is t (p ∷ k) = false

abbrev rest_of : Key → Key
rest_of [] = []
rest_of (p ∷ k) = k

-- The predicate of `removeQueries`.
unfoldable pub is_dropped : Key → Bool
unfolding part_is
is_dropped k = not (
    part_is (codes "auth") k
    && (part_is (codes "me") (rest_of k) || part_is (codes "config") (rest_of k)))

-- The keys of an account: those of the app but the theme and the language.
abbrev pub is_accounts : Text → Bool
is_accounts key =
    (starts_with (codes "konku.") key || starts_with (codes "konku:") key)
    && not (str_eq key (codes "konku.theme") || str_eq key (codes "konku.locale"))

is_swept-is_accounts : (key : Text) → is_swept key ≡ is_accounts key
unfolding is_swept has
is_swept-is_accounts key =
    ground (arith, str_eq_sym key (codes "konku.theme"), str_eq_sym key (codes "konku.locale"))

-- The queries that are kept are those under the two keys.
dropped_lem :
    (k : Key) → is_dropped k ≡ not (is_prefix me_query_key k || is_prefix auth_config_query_key k)
unfolding is_dropped part_is is_prefix same_part
dropped_lem [] = refl
dropped_lem (name s ∷ []) = ground (arith, str_eq_sym s (codes "auth"))
dropped_lem (name s ∷ name t ∷ k) =
    ground
      (arith, str_eq_sym s (codes "auth"), str_eq_sym t (codes "me"), str_eq_sym t (codes "config"))
dropped_lem (name s ∷ number t ∷ k) = ground (arith, str_eq_sym s (codes "auth"))
dropped_lem (name s ∷ flag t ∷ k) = ground (arith, str_eq_sym s (codes "auth"))
dropped_lem (number s ∷ k) = refl
dropped_lem (flag s ∷ k) = refl

module _ {D : Type 0} (qc : QueryClient (Option D)) where
  open qc use {Cache}

  -- The cache and the store of the browser.
  pub record Browser : Type 0 where
    pub cache : Cache
    pub store : Store

  unfoldable pub report_signed_out : Browser → Browser
  report_signed_out b = record {
    cache = qc.remove_queries is_dropped (qc.set_query_data me_query_key none b.cache);
    store = clear_account_storage b.store;
  }

  -- What the mutations do on success: signing in, signing out, a new password from a reset link or
  -- from inside, ending one session (`true` for the present one) or all others, deleting the
  -- account.
  pub data Success : Type 0 where
    login : D → Success
    logout reset_password change_password revoke_others delete_account : Success
    revoke : Bool → Success

  unfoldable pub on_success : Success → Browser → Browser
  on_success (login user) b = record b {
    cache = qc.set_query_data me_query_key (some user) b.cache;
  }
  on_success logout b = report_signed_out b
  on_success reset_password b = report_signed_out b
  on_success change_password b = record b {
    cache = qc.invalidate_queries auth_sessions_query_key b.cache;
  }
  on_success revoke_others b = record b {
    cache = qc.invalidate_queries auth_sessions_query_key b.cache;
  }
  on_success delete_account b = report_signed_out b
  on_success (revoke current) b =
      if current
      then report_signed_out b
      else record b { cache = qc.invalidate_queries auth_sessions_query_key b.cache }

  -- A mutation that ends the session of this browser.
  abbrev pub ends_session : Success → Bool
  ends_session (login user) = false
  ends_session logout = true
  ends_session reset_password = true
  ends_session change_password = false
  ends_session revoke_others = false
  ends_session delete_account = true
  ends_session (revoke current) = current

  -- What being signed out is, of the browser before (`b`) and after (`c`): nobody is signed in, what
  -- the instance allows is still known, no query is left in the cache but those under these two keys,
  -- and the store holds no key of the account.
  abbrev pub SignedOut : Browser → Browser → Type 0
  SignedOut b c =
      (qc.read me_query_key c.cache ≡ some none)
      × (qc.read auth_config_query_key c.cache ≡ qc.read auth_config_query_key b.cache)
      × ((k : Key)
          → qc.read k c.cache ≡ (
              if is_prefix me_query_key k || is_prefix auth_config_query_key k
              then if same_key me_query_key k then some none else qc.read k b.cache
              else none))
      × ((key : Text) → read key c.store ≡ (if is_accounts key then none else read key b.store))

  report_signed_out_lem : (b : Browser) → SignedOut b (report_signed_out b)
  unfolding report_signed_out
  report_signed_out_lem b = (
    rw (qc.read_remove is_dropped me_query_key (qc.set_query_data me_query_key none b.cache)) (
        rw (qc.read_set me_query_key me_query_key none b.cache)
          (unfold is_dropped same_key same_part part_is str_eq in refl)),
    rw
        (qc.read_remove is_dropped auth_config_query_key
          (qc.set_query_data me_query_key none b.cache))
        (rw (qc.read_set me_query_key auth_config_query_key none b.cache)
          (unfold is_dropped same_key same_part part_is str_eq in refl)),
    λ k.
        qc.read_remove is_dropped k (qc.set_query_data me_query_key none b.cache)
        ∙ rw (dropped_lem k, qc.read_set me_query_key k none b.cache) (ground arith),
    λ key.
        read-clear_account_storage key b.store
        ∙ ap (λ swept. if swept then none else read key b.store) (is_swept-is_accounts key),
  )

  -- After any mutation that ends this browser's session nobody is signed in, what the instance
  -- allows is still known, no query is left in the cache but those under the keys of these two, not
  -- even the list of the account's sessions, and the store has lost exactly the app's keys but the
  -- theme and the language.
  pub on_success-SignedOut :
      (s : Success) (b : Browser) → ends_session s ≡ true → SignedOut b (on_success s b)
  unfolding on_success
  on_success-SignedOut (login user) b h = ground arith
  on_success-SignedOut logout b h = report_signed_out_lem b
  on_success-SignedOut reset_password b h = report_signed_out_lem b
  on_success-SignedOut change_password b h = ground arith
  on_success-SignedOut revoke_others b h = ground arith
  on_success-SignedOut delete_account b h = report_signed_out_lem b
  on_success-SignedOut (revoke true) b h = report_signed_out_lem b
  on_success-SignedOut (revoke false) b h = ground arith
