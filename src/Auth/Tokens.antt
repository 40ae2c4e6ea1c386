-- ===== src/Auth/Tokens.antt =====
-- auth/tokens.py: tokens of three parts. Base64, HMAC, JSON and the comparison of digests are the record
-- `Codec`; texts stand for bytes. A claim is a text, a number or something else; negative numbers, which
-- the checks treat alike, are among the latter.
pub mod RoundTrip
pub mod Sound
use Prim.Native.String.{◌++◌ as append}
use future_bi.Base.{
  ℕ, ◌+◌, String, Bool, true, false, Option, none, some, List, [], ◌∷◌, all, ltb, leb, str_eq,
  if◌then◌else◌,
}
use future_bi.Base.Dict.{Dict, lookup, insert}
use future_bi.Base.Text.{codes}
use future_bi.Auth.Identity.{split}

pub data Claim : Type 0 where
  text : String → Claim
  int : ℕ → Claim
  other : Claim

-- the code of the standard library that the tokens rest on
pub record Codec : Type 0 where
  pub b64_encode : String → String
  pub b64_decode : String → Option String
  pub hmac : String → String → String
  pub dumps : Dict Claim → String
  -- `none` for what does not parse, `some none` for what is no object
  pub loads : String → Option (Option (Dict Claim))
  pub compare_digest : String → String → Bool

pub data TokenFault : Type 0 where
  bad_format bad_signature bad_base64 bad_json not_object : TokenFault
  expired wrong_issuer wrong_audience not_yet_valid : TokenFault

pub data Decoded : Type 0 where
  claims : Dict Claim → Decoded
  rejected : TokenFault → Decoded
  -- `UnicodeEncodeError`, which is no `TokenError`
  crashed : Decoded

-- `_sign`
unfoldable pub sign : Codec → String → String → String → String
sign c header payload secret = c.b64_encode (c.hmac secret (append header (append "." payload)))

-- `payload.update(extra)`
unfoldable pub update_all : Dict Claim → Dict Claim → Dict Claim
update_all d [] = d
update_all d ((k, v) ∷ e) = update_all (insert k v d) e

abbrev pub token_header : Dict Claim
token_header = ("alg", text "HS256") ∷ ("typ", text "JWT") ∷ []

-- the claims of a token; `jti` is what `uuid4` made
unfoldable pub payload_of : String → String → String → ℕ → ℕ → String → Dict Claim → Dict Claim
payload_of subject issuer audience ttl_seconds now jti extra =
    update_all
      (("sub", text subject)
        ∷ ("iss", text issuer)
        ∷ ("aud", text audience)
        ∷ ("iat", int now)
        ∷ ("nbf", int now)
        ∷ ("exp", int (now + ttl_seconds))
        ∷ ("jti", text jti)
        ∷ [])
      extra

unfoldable pub token_of : Codec → String → Dict Claim → String
token_of c secret payload =
    let header : String = c.b64_encode (c.dumps token_header) in
    let body : String = c.b64_encode (c.dumps payload) in
    append header (append "." (append body (append "." (sign c header body secret))))

unfoldable pub create_token :
    Codec → String → String → String → String → ℕ → ℕ → String → Dict Claim → String
create_token c subject secret issuer audience ttl_seconds now jti extra =
    token_of c secret (payload_of subject issuer audience ttl_seconds now jti extra)

unfoldable pub is_text : String → Option Claim → Bool
is_text s (some (text t)) = str_eq t s
is_text s _ = false

-- a number that lies after `now`
unfoldable pub is_after : ℕ → Option Claim → Bool
is_after now (some (int n)) = ltb now n
is_after now _ = false

-- the checks of the claims, in their order
unfoldable pub check_claims : Dict Claim → String → String → ℕ → Decoded
check_claims d issuer audience now =
    if is_after now (lookup "exp" d)
    then if is_text issuer (lookup "iss" d)
      then if is_text audience (lookup "aud" d)
        then if is_after now (lookup "nbf" d) then rejected not_yet_valid else claims d
        else rejected wrong_audience
      else rejected wrong_issuer
    else rejected expired

unfoldable pub read_claims : Codec → String → String → String → ℕ → Decoded
read_claims c payload issuer audience now = elim (c.b64_decode payload) [
  | none ↦ rejected bad_base64
  | some s ↦ elim (c.loads s) [
    | none ↦ rejected bad_json
    | some none ↦ rejected not_object
    | some (some d) ↦ check_claims d issuer audience now
  ]
]

-- whether `s.encode("ascii")` succeeds
unfoldable pub is_ascii : String → Bool
is_ascii s = all (λ n. ltb n 128) (codes s)

unfoldable pub decode_parts : Codec → String → String → String → ℕ → List String → Decoded
decode_parts c secret issuer audience now (header ∷ payload ∷ signature ∷ []) =
    if is_ascii signature
    then if c.compare_digest signature (sign c header payload secret)
      then read_claims c payload issuer audience now
      else rejected bad_signature
    else crashed
decode_parts c secret issuer audience now _ = rejected bad_format

unfoldable pub decode_token : Codec → String → String → String → String → ℕ → Decoded
decode_token c token secret issuer audience now =
    decode_parts c secret issuer audience now (split b'.' token)
