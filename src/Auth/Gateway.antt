-- ===== src/Auth/Gateway.antt =====
-- auth/gateway.py: who a request comes from. The settings, the parser of cookies and the codec of tokens
-- are the record `Settings`; sessions are in the dictionary of `Auth.Session.Memory`.
pub mod Mapped
use future_bi.Base.{ℕ, String, Bool, true, false, Option, none, some, List, [], if◌then◌else◌}
use future_bi.Base.Dict.{Dict, lookup}
use future_bi.Base.Text.{codes, is_prefix, drop_chars, strip, is_nonempty}
use future_bi.Auth.Identity.{
  User, IdentityStore, Authenticated, accepted, denied, crashed, bad_token, missing_token,
  missing_subject, bad_session, missing_credentials, require_user, ◌>>=◌,
}
use future_bi.Auth.Tokens.{Codec, Claim, Decoded, decode_token}
use future_bi.Auth.Session.{Session}
use future_bi.Auth.Session.Memory as Memory

pub record Settings : Type 0 where
  pub is_enabled : Bool
  pub default_user : String
  pub default_principal : String
  pub default_display : String
  pub secret : String
  pub issuer : String
  pub audience : String
  pub codec : Codec
  -- the value of the cookie `session`, as `SimpleCookie` finds it
  pub session_cookie : String → Option String

pub data AuthType : Type 0 where
  jwt session default : AuthType

pub record AuthContext : Type 0 where
  pub username : String
  pub principal : String
  pub display_name : String
  pub roles : List String
  pub auth_type : AuthType
  pub session_id : Option String

unfoldable pub context_of : User → AuthType → Option String → AuthContext
context_of u t session_id = record {
  username = u.username;
  principal = u.principal;
  display_name = u.display_name;
  roles = u.roles;
  auth_type = t;
  session_id = session_id;
}

-- the token of an `Authorization` header
unfoldable pub bearer : String → String
bearer header =
    if is_prefix (codes "Bearer ") (codes header) then strip (drop_chars 7 header) else header

-- `claims.get("sub")`, if it is a text that is not empty
unfoldable pub subject_of : Option Claim → Option String
subject_of (some (Claim.text s)) = if is_nonempty s then some s else none
subject_of _ = none

unfoldable pub context_for :
    IdentityStore → AuthType → Option String → String → Authenticated AuthContext
context_for users t session_id username = do
  u ← require_user users username
  accepted (context_of u t session_id)

unfoldable pub with_claims : IdentityStore → Decoded → Authenticated AuthContext
with_claims users (Decoded.rejected why) = denied bad_token
with_claims users Decoded.crashed = crashed
with_claims users (Decoded.claims d) = elim (subject_of (lookup "sub" d)) [
  | none ↦ denied missing_subject
  | some who ↦ context_for users AuthType.jwt none who
]

unfoldable pub authenticate_jwt : Settings → IdentityStore → ℕ → String → Authenticated AuthContext
authenticate_jwt s users now header =
    if is_nonempty (bearer header)
    then with_claims users (decode_token s.codec (bearer header) s.secret s.issuer s.audience now)
    else denied missing_token

unfoldable pub with_session : IdentityStore → Option Session → Authenticated AuthContext
with_session users none = denied bad_session
with_session users (some found) =
    context_for users AuthType.session (some found.session_id) found.username

-- the session store with what the request gets
unfoldable pub authenticate_session :
    IdentityStore → Memory.Store → ℕ → String → Memory.Store × Authenticated AuthContext
authenticate_session users sessions now id =
    let (sessions', found) = Memory.get sessions now id in (sessions', with_session users found)

-- the first of two texts that is there and not empty
unfoldable pub or_text : Option String → Option String → Option String
or_text none t = t
or_text (some s) t = if is_nonempty s then some s else t

unfoldable pub cookie_session_id : Settings → Option String → Option String
cookie_session_id s none = none
cookie_session_id s (some header) = if is_nonempty header then s.session_cookie header else none

unfoldable pub session_id_of : Settings → (String → Option String) → Option String
session_id_of s headers =
    or_text (or_text (headers "X-Session-ID") (cookie_session_id s (headers "Cookie"))) none

unfoldable pub authorization : (String → Option String) → String
authorization headers = elim (headers "Authorization") [ none ↦ "" | some h ↦ h ]

unfoldable pub authenticate_enabled :
    Settings
    → IdentityStore
    → Memory.Store
    → ℕ
    → (String → Option String)
    → Memory.Store × Authenticated AuthContext
authenticate_enabled s users sessions now headers =
    if is_nonempty (authorization headers)
    then (sessions, authenticate_jwt s users now (authorization headers))
    else elim (session_id_of s headers) [
      | none ↦ (sessions, denied missing_credentials)
      | some id ↦ authenticate_session users sessions now id
    ]

unfoldable pub default_context : Settings → AuthContext
default_context s = record {
  username = s.default_user;
  principal = s.default_principal;
  display_name = s.default_display;
  roles = [];
  auth_type = AuthType.default;
  session_id = none;
}

unfoldable pub authenticate :
    Settings
    → IdentityStore
    → Memory.Store
    → ℕ
    → (String → Option String)
    → Memory.Store × Authenticated AuthContext
authenticate s users sessions now headers =
    if s.is_enabled
    then authenticate_enabled s users sessions now headers
    else (sessions, accepted (default_context s))
