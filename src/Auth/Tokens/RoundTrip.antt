-- ===== src/Auth/Tokens/RoundTrip.antt =====
-- A token that was made is read back while it is valid.
use Prim.Native.Char.{Char, code}
use Prim.Native.String.{◌++◌ as append}
use mathlib.Core.List.{append-nil, append_assoc}
use future_bi.Base.{
  ℕ, ◌+◌, ◌≤◌, String, Bool, true, not, ◌≡◌, refl, ap, ◌∙◌, some, List, [], ◌∷◌, ◌++◌, arith, all,
  ltb, ◌==◌, eq_refl, if◌then◌else◌,
}
use future_bi.Base.Dict.{Dict, lookup}
use future_bi.Base.Text.{chars, of_chars, chars-append, of_chars-chars}
use future_bi.Auth.Identity.{split, cut_at}
use future_bi.Auth.Tokens.{
  Codec, Claim, claims, rejected, expired, sign, is_text, is_after, is_ascii, check_claims,
  read_claims, decode_parts, decode_token, token_of, payload_of, update_all, create_token,
  token_header,
}

-- no dot in a text
abbrev pub has_no_dot : String → Bool
has_no_dot s = all (λ c. not (code c == b'.')) (chars s)

cut_at-word :
    (l word : List Char)
    → all (λ c. not (code c == b'.')) l ≡ true
    → cut_at b'.' l word ≡ of_chars (word ++ l) ∷ []
unfolding cut_at
cut_at-word [] word h = rw (append-nil word) refl
cut_at-word (c ∷ l) word h =
    ground (arith, cut_at-word l (word ++ c ∷ []), append_assoc word (c ∷ []) l)

cut_at-dot :
    (l word rest : List Char)
    → all (λ c. not (code c == b'.')) l ≡ true
    → cut_at b'.' (l ++ "." ∷ rest) word ≡ of_chars (word ++ l) ∷ cut_at b'.' rest []
unfolding cut_at
cut_at-dot [] word rest h = rw (append-nil word) refl
cut_at-dot (c ∷ l) word rest h =
    ground (arith, cut_at-dot l (word ++ c ∷ []) rest, append_assoc word (c ∷ []) l)

-- the characters of a part, a dot and the rest
chars-dot : (s t : String) → chars (append s (append "." t)) ≡ chars s ++ "." ∷ chars t
chars-dot s t = chars-append s (append "." t) ∙ ap (λ l. chars s ++ l) (chars-append "." t)

split_parts :
    (a b c : String)
    → has_no_dot a ≡ true
    → has_no_dot b ≡ true
    → has_no_dot c ≡ true
    → split b'.' (append a (append "." (append b (append "." c)))) ≡ a ∷ b ∷ c ∷ []
unfolding split
split_parts a b c ha hb hc = rw (chars-dot a (append b (append "." c))) (
    rw (cut_at-dot (chars a) [] (chars (append b (append "." c))) ha) (
      rw (chars-dot b c) (
        rw (cut_at-dot (chars b) [] (chars c) hb) (
          rw (cut_at-word (chars c) [] hc)
            (rw (of_chars-chars a, of_chars-chars b, of_chars-chars c) refl)))))

-- the codec at the payload of a token: what is encoded is ASCII without dots and comes back, and so does
-- what is dumped; a text compares equal to itself
pub record Encodes (c : Codec) (payload : Dict Claim) : Type 0 where
  pub b64 : c.b64_decode (c.b64_encode (c.dumps payload)) ≡ some (c.dumps payload)
  pub json : c.loads (c.dumps payload) ≡ some (some payload)
  pub dotless : (s : String) → has_no_dot (c.b64_encode s) ≡ true
  pub ascii : (s : String) → is_ascii (c.b64_encode s) ≡ true
  pub same : (s : String) → c.compare_digest s s ≡ true

decode-token_of :
    (c : Codec) (secret issuer audience : String) (now : ℕ) (payload : Dict Claim)
    → Encodes c payload
    → decode_token c (token_of c secret payload) secret issuer audience now
      ≡ check_claims payload issuer audience now
unfolding decode_token token_of decode_parts read_claims sign
decode-token_of c secret issuer audience now payload h =
    let header = c.b64_encode (c.dumps token_header) in
    let body = c.b64_encode (c.dumps payload) in
    let signature = sign c header body secret in
    rw (split_parts header body signature (h.dotless _) (h.dotless _) (h.dotless _))
      (rw (h.ascii _) (rw (h.same signature) (rw (h.b64, read_claims) (rw h.json refl))))

-- A token without additional claims is read back by the server that made it from then on until it
-- expires, and refused as expired ever after.
pub decode-create :
    (c : Codec) (subject secret issuer audience : String) (ttl_seconds now later : ℕ) (jti : String)
    → Encodes c (payload_of subject issuer audience ttl_seconds now jti [])
    → now ≤ later
    → decode_token c
        (create_token c subject secret issuer audience ttl_seconds now jti [])
        secret
        issuer
        audience
        later
      ≡ (if ltb later (now + ttl_seconds)
          then claims (payload_of subject issuer audience ttl_seconds now jti [])
          else rejected expired)
unfolding create_token
decode-create c subject secret issuer audience ttl_seconds now later jti h past =
    decode-token_of c secret issuer audience later _ h
    ∙ (unfold check_claims payload_of update_all lookup is_after is_text in
        ground (arith, eq_refl issuer, eq_refl audience))
