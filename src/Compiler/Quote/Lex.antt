-- ===== src/Compiler/Quote/Lex.antt =====
-- A quoted name or text is one token to a reader of SQL: the quote that ends it is the one that the
-- compiler wrote.
use Prim.Native.Char.{Char, code}
use text.Mathlib.TextEquality.{Char-path}
use future_bi.Base.{
  String, ◌≡◌, refl, sym, inl, inr, Bool, true, false, Option, none, some, List, [], ◌∷◌, ◌++◌,
  ◌==◌, arith, Bool-cases, if◌then◌else◌,
}
use future_bi.Base.Text.{chars-of_chars, chars, of_chars}
use mathlib.Core.List.{append_assoc}
use future_bi.Semantic.Schema.{Scalar}
use future_bi.Semantic.Catalog.{Dtype}
use future_bi.Compiler.Fault.{ok}
use future_bi.Compiler.Quote.{double, between, quote_ident, text_literal, literal, Floats}

-- What SQL reads after an opening quote: up to the next quote that is not doubled, and what is left.
abbrev cons : Char → Option (List Char × List Char) → Option (List Char × List Char)
cons c none = none
cons c (some (l, rest)) = some (c ∷ l, rest)

-- The flag says that a quote was just seen.
unfoldable pub read : Char → Bool → List Char → Option (List Char × List Char)
read q false [] = none
read q true [] = some ([], [])
read q false (c ∷ l) =
    let closing = read q true l in
    let inner = read q false l in if code c == code q then closing else cons c inner
read q true (c ∷ l) =
    let inner = read q false l in if code c == code q then cons q inner else some ([], c ∷ l)

-- what follows a token does not begin with another quote
abbrev pub IsApart : Char → List Char → Type 0
IsApart q [] = Unit
IsApart q (c ∷ l) = (code c == code q) ≡ false

code_self : (q : Char) → (code q == code q) ≡ true
code_self q = ground arith

read-double :
    (q : Char) (l rest : List Char)
    → IsApart q rest
    → read q false (double q l ++ q ∷ rest) ≡ some (l, rest)
unfolding double read
read-double q [] [] apart = ground (arith, code_self q)
read-double q [] (c ∷ rest) apart = ground (arith, code_self q)
read-double q (c ∷ l) rest apart = elim (Bool-cases (code c == code q)) [
  | inl same ↦
      let here : q ≡ c = sym (Char-path c q (ground arith)) in
      rw same (rw (code_self q) (rw (read-double q l rest apart) (rw here refl)))
  | inr other ↦ rw other (rw (read, other) (rw (read-double q l rest apart) refl))
]

read-between :
    (q : Char) (s : String) (rest : List Char)
    → IsApart q rest
    → (body : List Char) × (chars (of_chars (between q (chars s))) ≡ q ∷ body)
      × (read q false (body ++ rest) ≡ some (chars s, rest))
read-between q s rest apart = (
  double q (chars s) ++ q ∷ [],
  chars-of_chars (between q (chars s)),
  rw (append_assoc (double q (chars s)) (q ∷ []) rest) (read-double q (chars s) rest apart),
)

-- An identifier that the compiler quotes is one token to a reader of SQL, whatever the name: after the
-- opening quote the reader gets the name back, and stops where the compiler stopped, if what follows
-- does not begin with another quote.
pub read-quote_ident :
    (name : String) (rest : List Char)
    → IsApart "\"" rest
    → (body : List Char) × (chars (quote_ident name) ≡ "\"" ∷ body)
      × (read "\"" false (body ++ rest) ≡ some (chars name, rest))
unfolding quote_ident
read-quote_ident name rest apart = read-between "\"" name rest apart

-- The literal of a text for a column of texts compiles, and is one token to a reader of SQL, whatever
-- the text: after the opening quote the reader gets the text back, and stops where the compiler
-- stopped, if what follows does not begin with another quote.
pub read-literal :
    {F : Type 0} (floats : Floats F) (s : String) (rest : List Char)
    → IsApart "'" rest
    → (body : List Char) × (token : String) × (literal floats (Scalar.text s) Dtype.str ≡ ok token)
      × (chars token ≡ "'" ∷ body)
      × (read "'" false (body ++ rest) ≡ some (chars s, rest))
unfolding literal text_literal
read-literal floats s rest apart =
    let (body, made, got) = read-between "'" s rest apart in (body, text_literal s, refl, made, got)
