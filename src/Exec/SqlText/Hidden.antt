-- ===== src/Exec/SqlText/Hidden.antt =====
-- What the text without comments and literals leaves out.
use Prim.Native.Char.{Char, code as code_point}
use future_bi.Base.{
  String, Bool, true, not, ◌&&◌, ◌≡◌, refl, ap, sym, ◌∙◌, List, [], ◌∷◌, ◌++◌, all, arith, ◌==◌,
}
use future_bi.Base.Text.{chars, of_chars, chars-of_chars}
use future_bi.Exec.SqlText.{
  Mode, Place, strip_from, blank_from, strip_sql_comments, sql_code_without_literals, code_of,
}

-- neither a quote nor the first character of a comment's mark
abbrev pub is_plain : Char → Bool
is_plain c = not (code_point c == b'-') && not (code_point c == b'/') && not (code_point c == b'\'')

abbrev pub is_inline : Char → Bool
is_inline c = not (code_point c == 10)

-- the end of the text, or of its line
abbrev pub ends_line : List Char → Bool
ends_line [] = true
ends_line (c ∷ l) = code_point c == 10

strip-plain :
    (pre rest : List Char)
    → all is_plain pre ≡ true
    → strip_from Mode.code (pre ++ rest) ≡ pre ++ strip_from Mode.code rest
unfolding strip_from
strip-plain [] rest h = refl
strip-plain (c ∷ pre) rest h = ground (arith, strip-plain pre rest)

strip-inline :
    (tail rest : List Char)
    → all is_inline tail ≡ true
    → strip_from Mode.line (tail ++ rest) ≡ strip_from Mode.line rest
unfolding strip_from
strip-inline [] rest h = refl
strip-inline (c ∷ tail) rest h = ground (arith, strip-inline tail rest)

strip-ends_line :
    (rest : List Char)
    → ends_line rest ≡ true
    → strip_from Mode.line rest ≡ strip_from Mode.code rest
unfolding strip_from
strip-ends_line [] h = refl
strip-ends_line (c ∷ rest) h = ground arith

-- what is left of a literal with two dashes in it
strip-literal :
    (lit tail rest : List Char)
    → all is_plain lit ≡ true
    → all is_inline tail ≡ true
    → ends_line rest ≡ true
    → strip_from Mode.code ("'" ∷ (lit ++ "-" ∷ "-" ∷ (tail ++ rest)))
      ≡ "'" ∷ (lit ++ strip_from Mode.code rest)
unfolding strip_from
strip-literal lit tail rest h k e =
    rw (strip-plain lit ("-" ∷ "-" ∷ (tail ++ rest)) h)
      (rw (strip-inline tail rest k) (rw (strip-ends_line rest e) refl))

blank-plain :
    (pre rest : List Char)
    → all is_plain pre ≡ true
    → blank_from Place.outside (pre ++ rest) ≡ pre ++ blank_from Place.outside rest
unfolding blank_from
blank-plain [] rest h = refl
blank-plain (c ∷ pre) rest h = ground (arith, blank-plain pre rest)

blank-literal :
    (lit rest : List Char)
    → all is_plain lit ≡ true
    → blank_from Place.literal (lit ++ rest) ≡ blank_from Place.literal rest
unfolding blank_from
blank-literal [] rest h = refl
blank-literal (c ∷ lit) rest h = ground (arith, blank-literal lit rest)

code_of_chars :
    (l : List Char)
    → code_of (of_chars l) ≡ of_chars (blank_from Place.outside (strip_from Mode.code l))
unfolding code_of strip_sql_comments sql_code_without_literals
code_of_chars l = rw (chars-of_chars l) (rw (chars-of_chars (strip_from Mode.code l)) refl)

code_of-literal :
    (pre lit tail rest : List Char)
    → all is_plain pre ≡ true
    → all is_plain lit ≡ true
    → all is_inline tail ≡ true
    → ends_line rest ≡ true
    → code_of (of_chars (pre ++ "'" ∷ (lit ++ "-" ∷ "-" ∷ (tail ++ rest))))
      ≡ of_chars (pre ++ blank_from Place.literal (strip_from Mode.code rest))
unfolding blank_from
code_of-literal pre lit tail rest h l k e =
    code_of_chars (pre ++ "'" ∷ (lit ++ "-" ∷ "-" ∷ (tail ++ rest)))
    ∙ rw (strip-plain pre ("'" ∷ (lit ++ "-" ∷ "-" ∷ (tail ++ rest))) h) (
        rw (strip-literal lit tail rest l k e) (
          rw (blank-plain pre ("'" ∷ (lit ++ strip_from Mode.code rest)) h)
            (rw (blank-literal lit (strip_from Mode.code rest) l) refl)))

code_of-unclosed :
    (pre rest : List Char)
    → all is_plain pre ≡ true
    → code_of (of_chars (pre ++ "'" ∷ rest))
      ≡ of_chars (pre ++ blank_from Place.literal (strip_from Mode.code rest))
unfolding blank_from strip_from
code_of-unclosed pre rest h =
    code_of_chars (pre ++ "'" ∷ rest)
    ∙ rw (strip-plain pre ("'" ∷ rest) h)
        (rw (blank-plain pre ("'" ∷ strip_from Mode.code rest) h) refl)

-- The comments are taken out before the literals. So, where the text up to its first quote has no dash and
-- no slash, and the literal that the quote opens has two dashes after a part without dash, slash or
-- quote, the text that the checks of the form, the semicolon, the keywords and the calls look at is the
-- one that is left when everything from the quote's next character to the end of the line is cut out:
-- the close of the literal and whatever follows on that line are not seen. Where the line is the last,
-- that is the text before the quote, with one space for the literal.
pub code_of-hidden :
    (pre lit tail rest : List Char)
    → all is_plain pre ≡ true
    → all is_plain lit ≡ true
    → all is_inline tail ≡ true
    → ends_line rest ≡ true
    → (code_of (of_chars (pre ++ "'" ∷ (lit ++ "-" ∷ "-" ∷ (tail ++ rest))))
        ≡ code_of (of_chars (pre ++ "'" ∷ rest)))
      × (rest ≡ []
          → code_of (of_chars (pre ++ "'" ∷ (lit ++ "-" ∷ "-" ∷ (tail ++ rest))))
            ≡ of_chars (pre ++ " " ∷ []))
unfolding blank_from strip_from
code_of-hidden pre lit tail rest h l k e =
    let seen = code_of-literal pre lit tail rest h l k e in
    (
      seen ∙ sym (code_of-unclosed pre rest h),
      λ last.
          seen ∙ ap (λ r. of_chars (pre ++ blank_from Place.literal (strip_from Mode.code r))) last,
    )

abbrev pub is_no_quote : Char → Bool
is_no_quote c = not (code_point c == b'\'')

blank-no_quote : (p : Place) (l : List Char) → all is_no_quote (blank_from p l) ≡ true
unfolding blank_from
blank-no_quote Place.outside [] = refl
blank-no_quote Place.literal [] = refl
blank-no_quote Place.doubled [] = refl
blank-no_quote Place.outside (c ∷ l) =
    ground (arith, blank-no_quote Place.outside l, blank-no_quote Place.literal l)
blank-no_quote Place.literal (c ∷ l) = ground (
  arith,
  blank-no_quote Place.outside l,
  blank-no_quote Place.literal l,
  blank-no_quote Place.doubled l,
)
blank-no_quote Place.doubled (c ∷ l) = blank-no_quote Place.literal l

-- No quote is left in the text that the checks look at.
code_of-no_quote : (s : String) → all is_no_quote (chars (code_of s)) ≡ true
unfolding code_of sql_code_without_literals
code_of-no_quote s =
    rw (chars-of_chars (blank_from Place.outside (chars (strip_sql_comments s))))
      (blank-no_quote Place.outside (chars (strip_sql_comments s)))
