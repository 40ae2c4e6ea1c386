-- ===== src/Compiler/Quote.antt =====
-- compiler/sql_compiler.py, `_quote_ident` and `_literal`: identifiers and literals. What Python prints for a float
-- is a parameter.
pub mod Lex
use Prim.Native.Char.{Char, code}
use Prim.Native.String.{◌++◌ as append}
use future_bi.Base.{
  ℕ, String, Bool, true, false, Option, none, some, List, [], ◌∷◌, ◌++◌, ◌==◌, ltb, if◌then◌else◌,
}
use future_bi.Base.Text.{chars, of_chars, show}
use future_bi.Semantic.Schema.{Date, Scalar}
use future_bi.Semantic.Catalog.{Dtype}
use future_bi.Compiler.Fault.{Compiled, ok, fail, ◌>>=◌, bad_type, bad_float}

-- Python's floats: `repr`, `isnan or isinf`, and `float` of an `int`, which an overflow makes fail
pub record Floats (F : Type 0) : Type 0 where
  pub repr : F → String
  pub is_special : F → Bool
  pub of_int : Bool → ℕ → Option F

-- `s.replace(q, qq)`
unfoldable pub double : Char → List Char → List Char
double q [] = []
double q (c ∷ l) = let rest = double q l in if code c == code q then q ∷ q ∷ rest else c ∷ rest

abbrev pub between : Char → List Char → List Char
between q l = q ∷ (double q l ++ q ∷ [])

-- `'"' + str(name).replace('"', '""') + '"'`
unfoldable pub quote_ident : String → String
quote_ident name = of_chars (between "\"" (chars name))

unfoldable pub text_literal : String → String
text_literal s = of_chars (between "'" (chars s))

-- `str(n)` of an `int`, `-` for a negative one
abbrev pub show_int : Bool → ℕ → String
show_int negative n = if negative then append "-" (show n) else show n

two_digits : ℕ → String
two_digits n = if ltb n 10 then append "0" (show n) else show n

-- `strftime("%Y-%m-%d %H:%M:%S")` of a date at midnight, from the year 1000 on
unfoldable pub show_date : Date → String
unfolding two_digits
show_date d =
    append (show d.year) (
      append "-" (append (two_digits d.month) (append "-" (append (two_digits d.day) " 00:00:00"))))

module _ {F : Type 0} (floats : Floats F) where
  float_literal : Option F → Compiled String
  float_literal none = fail bad_float
  float_literal (some v) = if floats.is_special v then fail bad_float else ok (floats.repr v)

  -- `_check_scalar_type` and `_literal`: a value of the wrong type is refused
  unfoldable pub literal : Scalar F → Dtype → Compiled String
  unfolding float_literal
  literal (Scalar.text s) Dtype.str = ok (text_literal s)
  literal (Scalar.text s) Dtype.timestamp = ok (append "TIMESTAMP '" (append s "'"))
  literal (Scalar.int negative n) Dtype.int = ok (show_int negative n)
  literal (Scalar.int negative n) Dtype.float = float_literal (floats.of_int negative n)
  literal (Scalar.float v) Dtype.float = float_literal (some v)
  literal (Scalar.bool true) Dtype.bool = ok "TRUE"
  literal (Scalar.bool false) Dtype.bool = ok "FALSE"
  literal _ _ = fail bad_type
