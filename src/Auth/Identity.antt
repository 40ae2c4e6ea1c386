-- ===== src/Auth/Identity.antt =====
-- auth/identity.py: the store of users. PBKDF2, the reading of hexadecimal and numbers, and the
-- comparison of digests are the record `Hashing`.
use Prim.Native.Char.{Char, code}
use future_bi.Base.{
  ℕ, String, Bool, false, Option, none, some, List, [], ◌∷◌, ◌++◌, ◌==◌, str_eq, if◌then◌else◌,
}
use future_bi.Base.Dict.{Dict, lookup}
use future_bi.Base.Text.{chars, of_chars, is_nonempty}

pub record User : Type 0 where
  pub username : String
  pub display_name : String
  pub principal : String
  pub roles : List String
  pub password_hash : String
  pub is_enabled : Bool

-- `AuthenticationError`, by what it complains of
pub data AuthFault : Type 0 where
  unknown_user : String → AuthFault
  disabled_user : String → AuthFault
  wrong_password missing_token missing_subject bad_session missing_credentials : AuthFault
  bad_token : AuthFault

pub data Authenticated (A : Type 0) : Type 0 where
  accepted : A → Authenticated A
  denied : AuthFault → Authenticated A
  -- another exception, which nothing here catches
  crashed : Authenticated A

infixl 5 ◌>>=◌
abbrev pub ◌>>=◌ : {A B : Type 0} → Authenticated A → (A → Authenticated B) → Authenticated B
accepted a >>= f = f a
denied e >>= f = denied e
crashed >>= f = crashed

-- `bytes` of the source are texts here
pub record Hashing : Type 0 where
  pub pbkdf2 : String → String → ℕ → String
  pub to_hex : String → String
  pub from_hex : String → Option String
  pub to_int : String → Option ℕ
  pub compare_digest : String → String → Bool

unfoldable pub cut_at : ℕ → List Char → List Char → List String
cut_at sep [] word = of_chars word ∷ []
cut_at sep (c ∷ l) word =
    let here = cut_at sep l [] in
    let on = cut_at sep l (word ++ c ∷ []) in if code c == sep then of_chars word ∷ here else on

-- `s.split(sep)`, for a separator of one character
unfoldable pub split : ℕ → String → List String
unfolding cut_at
split sep s = cut_at sep (chars s) []

verify_parts : Hashing → String → Option ℕ → Option String → Option String → Bool
verify_parts h password (some iterations) (some salt) (some expected) =
    h.compare_digest (h.pbkdf2 password salt iterations) expected
verify_parts h password _ _ _ = false

-- the hash of the time of the fixed salt
verify_legacy : Hashing → String → String → Bool
verify_legacy h password hash =
    h.compare_digest (h.to_hex (h.pbkdf2 password "futurebi-salt-v1" 200000)) hash

verify_split : Hashing → String → String → List String → Bool
verify_split h password hash (prefix ∷ iterations ∷ salt ∷ expected ∷ []) =
    if str_eq prefix "pbkdf2_sha256"
    then verify_parts h password (h.to_int iterations) (h.from_hex salt) (h.from_hex expected)
    else verify_legacy h password hash
verify_split h password hash _ = verify_legacy h password hash

unfoldable pub verify_password : Hashing → String → String → Bool
unfolding verify_split verify_parts verify_legacy
verify_password h password hash =
    if is_nonempty hash then verify_split h password hash (split b'$' hash) else false

abbrev pub IdentityStore : Type 0
IdentityStore = Dict User

unfoldable pub require_user : IdentityStore → String → Authenticated User
require_user store username = elim (lookup username store) [
  | none ↦ denied (unknown_user username)
  | some u ↦ if u.is_enabled then accepted u else denied (disabled_user username)
]

unfoldable pub authenticate : Hashing → IdentityStore → String → String → Authenticated User
authenticate h store username password = do
  u ← require_user store username
  if verify_password h password u.password_hash then accepted u else denied wrong_password

unfoldable pub principal_for : IdentityStore → String → Authenticated String
principal_for store username = do u ← require_user store username; accepted u.principal
