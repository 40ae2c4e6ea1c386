-- ===== src/Auth/Tokens/Sound.antt =====
-- What a token has when it is let through.
use future_bi.Base.{
  ℕ, String, true, false, ◌≡◌, refl, sym, ap, ◌∙◌, inl, inr, some, List, [], ◌∷◌, arith,
  Option-cases,
}
use future_bi.Base.Dict.{Dict, lookup}
use future_bi.Auth.Identity.{split}
use future_bi.Auth.Tokens.{
  Codec, Claim, claims, sign, is_text, is_after, check_claims, read_claims, decode_parts,
  decode_token,
}

check_claims_sound :
    (d d' : Dict Claim) (issuer audience : String) (now : ℕ)
    → check_claims d issuer audience now ≡ claims d'
    → (d ≡ d')
      × (is_after now (lookup "exp" d) ≡ true)
      × (is_text issuer (lookup "iss" d) ≡ true)
      × (is_text audience (lookup "aud" d) ≡ true)
      × (is_after now (lookup "nbf" d) ≡ false)
unfolding check_claims
check_claims_sound d d' issuer audience now h = ground arith

read_claims_sound :
    (c : Codec) (payload issuer audience : String) (now : ℕ) (d : Dict Claim)
    → read_claims c payload issuer audience now ≡ claims d
    → (s : String) × (c.b64_decode payload ≡ some s)
      × (c.loads s ≡ some (some d))
      × (check_claims d issuer audience now ≡ claims d)
unfolding read_claims
read_claims_sound c payload issuer audience now d h = elim (Option-cases (c.b64_decode payload)) [
  | inl bad ↦ absurd (ground (arith, bad))
  | inr (s, decoded) ↦ elim (Option-cases (c.loads s)) [
    | inl bad ↦ absurd (ground (arith, bad, decoded))
    | inr (o, parsed) ↦ elim (Option-cases o) [
      | inl bad ↦ absurd (ground (arith, bad, parsed, decoded))
      | inr (d', object) ↦
          let checked : check_claims d' issuer audience now ≡ claims d =
            ground (arith, object, parsed, decoded) in
          let same = (check_claims_sound d' d issuer audience now checked).0 in
          (
            s,
            decoded,
            parsed ∙ ap some (object ∙ ap some same),
            rw (sym same) (checked ∙ ap claims (sym same)),
          )
    ]
  ]
]

-- what stands behind the claims of an accepted token
pub record IsSigned (c : Codec) (token secret issuer audience : String) (now : ℕ) (d : Dict Claim)
    : Type 0 where
  pub header : String
  pub payload : String
  pub signature : String
  pub parts : split b'.' token ≡ header ∷ payload ∷ signature ∷ []
  pub signed : c.compare_digest signature (sign c header payload secret) ≡ true
  pub body : String
  pub decoded : c.b64_decode payload ≡ some body
  pub parsed : c.loads body ≡ some (some d)
  pub live : is_after now (lookup "exp" d) ≡ true
  pub issued : is_text issuer (lookup "iss" d) ≡ true
  pub addressed : is_text audience (lookup "aud" d) ≡ true
  pub started : is_after now (lookup "nbf" d) ≡ false

parts-IsSigned :
    (c : Codec) (token secret issuer audience : String) (now : ℕ) (l : List String) (d : Dict Claim)
    → split b'.' token ≡ l
    → decode_parts c secret issuer audience now l ≡ claims d
    → IsSigned c token secret issuer audience now d
unfolding decode_parts
parts-IsSigned c token secret issuer audience now (header ∷ payload ∷ signature ∷ []) d cut h =
    let read : read_claims c payload issuer audience now ≡ claims d = ground arith in
    let (body, decoded, parsed, checked) = read_claims_sound c payload issuer audience now d read in
    let (_, live, issued, addressed, started) =
      check_claims_sound d d issuer audience now checked in
    record {
      header = header;
      payload = payload;
      signature = signature;
      parts = cut;
      signed = ground arith;
      body = body;
      decoded = decoded;
      parsed = parsed;
      live = live;
      issued = issued;
      addressed = addressed;
      started = started;
    }
parts-IsSigned c token secret issuer audience now l d cut h = absurd (ground arith)

-- A token is let through only if it has three parts of which the last is the signature of the first two
-- under the secret, and its claims, read from the second, expire after now, name the issuer and the
-- audience, and do not begin after now.
pub decode_token-IsSigned :
    (c : Codec) (token secret issuer audience : String) (now : ℕ) (d : Dict Claim)
    → decode_token c token secret issuer audience now ≡ claims d
    → IsSigned c token secret issuer audience now d
unfolding decode_token
decode_token-IsSigned c token secret issuer audience now d h =
    parts-IsSigned c token secret issuer audience now (split b'.' token) d refl h
