-- ===== src/Auth/Gateway/Mapped.antt =====
-- The principal of a request is the one that the store of users gives to a user who is enabled.
use future_bi.Base.{
  ℕ, String, true, false, ◌≡◌, ◌⊎◌, refl, inl, inr, Option, none, some, arith, Bool-cases,
  Option-cases,
}
use future_bi.Base.Dict.{Dict, lookup}
use future_bi.Base.Text.{is_nonempty}
use future_bi.Auth.Identity.{User, IdentityStore, accepted, require_user}
use future_bi.Auth.Tokens.{Claim, Decoded, decode_token}
use future_bi.Auth.Tokens.Sound.{IsSigned, decode_token-IsSigned}
use future_bi.Auth.Session.{Session}
use future_bi.Auth.Session.Memory as Memory
use future_bi.Auth.Gateway.{
  Settings, AuthType, AuthContext, context_of, bearer, subject_of, context_for, with_claims,
  authenticate_jwt, with_session, authenticate_session, session_id_of, authorization,
  authenticate_enabled, authenticate,
}

-- the context is that of a user who is there and enabled
pub record IsMapped (users : IdentityStore) (name : String) (ctx : AuthContext) : Type 0 where
  pub user : User
  pub known : lookup name users ≡ some user
  pub enabled : user.is_enabled ≡ true
  pub username : ctx.username ≡ user.username
  pub principal : ctx.principal ≡ user.principal
  pub roles : ctx.roles ≡ user.roles

context_for-IsMapped :
    (users : IdentityStore) (t : AuthType) (id : Option String) (name : String) (ctx : AuthContext)
    → context_for users t id name ≡ accepted ctx
    → IsMapped users name ctx
unfolding context_for require_user context_of
context_for-IsMapped users t id name ctx h = elim (Option-cases (lookup name users)) [
  | inl missing ↦ absurd (ground arith)
  | inr (u, there) ↦ record {
    user = u;
    known = there;
    enabled = ground arith;
    username = ground arith;
    principal = ground arith;
    roles = ground arith;
  }
]

-- a request with a token that the server signed, for the user that the token names
pub record ByToken (s : Settings) (users : IdentityStore) (now : ℕ)
    (headers : String → Option String) (ctx : AuthContext) : Type 0 where
  pub claims : Dict Claim
  pub name : String
  pub signed :
      IsSigned s.codec (bearer (authorization headers)) s.secret s.issuer s.audience now claims
  pub subject : subject_of (lookup "sub" claims) ≡ some name
  pub mapped : IsMapped users name ctx

-- a request with the id of a session that has not expired, for the user of the session
pub record BySession (s : Settings) (users : IdentityStore) (sessions : Memory.Store) (now : ℕ)
    (headers : String → Option String) (ctx : AuthContext) : Type 0 where
  pub id : String
  pub found : Session
  pub named : session_id_of s headers ≡ some id
  pub live : (Memory.get sessions now id).1 ≡ some found
  pub mapped : IsMapped users found.username ctx

with_claims-ByToken :
    (s : Settings) (users : IdentityStore) (now : ℕ) (headers : String → Option String)
    (ctx : AuthContext) (decoded : Decoded)
    → decode_token s.codec (bearer (authorization headers)) s.secret s.issuer s.audience now
      ≡ decoded
    → with_claims users decoded ≡ accepted ctx
    → ByToken s users now headers ctx
unfolding with_claims
with_claims-ByToken s users now headers ctx (Decoded.rejected why) e h = absurd (ground arith)
with_claims-ByToken s users now headers ctx Decoded.crashed e h = absurd (ground arith)
with_claims-ByToken s users now headers ctx (Decoded.claims d) e h =
    elim (Option-cases (subject_of (lookup "sub" d))) [
      | inl missing ↦ absurd (ground (arith, missing))
      | inr (name, there) ↦ record {
        claims = d;
        name = name;
        signed =
            decode_token-IsSigned s.codec (bearer (authorization headers)) s.secret s.issuer
              s.audience now d e;
        subject = there;
        mapped =
            context_for-IsMapped users AuthType.jwt none name ctx (rw (there, with_claims) at h);
      }
    ]

with_session-BySession :
    (s : Settings) (users : IdentityStore) (sessions : Memory.Store) (now : ℕ)
    (headers : String → Option String) (ctx : AuthContext) (id : String) (found : Option Session)
    → session_id_of s headers ≡ some id
    → (Memory.get sessions now id).1 ≡ found
    → with_session users found ≡ accepted ctx
    → BySession s users sessions now headers ctx
unfolding with_session
with_session-BySession s users sessions now headers ctx id none named e h = absurd (ground arith)
with_session-BySession s users sessions now headers ctx id (some found) named e h = record {
  id = id;
  found = found;
  named = named;
  live = e;
  mapped = context_for-IsMapped users AuthType.session (some found.session_id) found.username ctx h;
}

authenticate_enabled-Proven :
    (s : Settings) (users : IdentityStore) (sessions : Memory.Store) (now : ℕ)
    (headers : String → Option String) (ctx : AuthContext)
    → (authenticate_enabled s users sessions now headers).1 ≡ accepted ctx
    → ByToken s users now headers ctx
      ⊎ ((is_nonempty (authorization headers) ≡ false) × BySession s users sessions now headers ctx)
unfolding authenticate_enabled authenticate_jwt authenticate_session
authenticate_enabled-Proven s users sessions now headers ctx h =
    elim (Bool-cases (is_nonempty (authorization headers))) [
      | inl given ↦ elim (Bool-cases (is_nonempty (bearer (authorization headers)))) [
        | inr empty ↦ absurd (ground (arith, given, empty))
        | inl token ↦
            inl (with_claims-ByToken s users now headers ctx _ refl (rw token at rw given at h))
      ]
      | inr absent ↦ elim (Option-cases (session_id_of s headers)) [
        | inl nobody ↦ absurd (ground (arith, absent, nobody))
        | inr (id, named) ↦ inr (
          absent,
          with_session-BySession s users sessions now headers ctx id _ named refl
              (rw (named, authenticate_enabled) at rw absent at h),
        )
      ]
    ]

-- With authentication on, a request is accepted only by a token that the server signed, or, without an
-- authorization header, by the id of a live session; and then as the user that the token or the session
-- names, who is enabled, with the principal and the roles that the store of users has for him.
pub authenticate-Proven :
    (s : Settings) (users : IdentityStore) (sessions : Memory.Store) (now : ℕ)
    (headers : String → Option String) (ctx : AuthContext)
    → s.is_enabled ≡ true
    → (authenticate s users sessions now headers).1 ≡ accepted ctx
    → ByToken s users now headers ctx
      ⊎ ((is_nonempty (authorization headers) ≡ false) × BySession s users sessions now headers ctx)
unfolding authenticate
authenticate-Proven s users sessions now headers ctx on h =
    authenticate_enabled-Proven s users sessions now headers ctx (ground (arith, on))
