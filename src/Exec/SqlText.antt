-- ===== src/Exec/SqlText.antt =====
-- exec/guards.py, what the checks of a statement look at: its text without comments and literals. The
-- index of each loop is a mode of one recursion over the characters.
pub mod Hidden
use Prim.Native.Char.{Char, code as code_point}
use future_bi.Base.{String, Bool, true, false, ◌&&◌, List, [], ◌∷◌, ◌==◌, if◌then◌else◌}
use future_bi.Base.Text.{chars, of_chars}

-- where the loop of `_strip_sql_comments` stands; an `opening` or `closing` skips the second character
-- of a mark
pub data Mode : Type 0 where
  code line_opening line block_opening block block_closing : Mode

abbrev pub starts_with : Char → List Char → Bool
starts_with d [] = false
starts_with d (c ∷ l) = code_point c == code_point d

unfoldable pub strip_from : Mode → List Char → List Char
strip_from m [] = []
strip_from Mode.code (c ∷ l) =
    let to_line = strip_from Mode.line_opening l in
    let to_block = strip_from Mode.block_opening l in
    let on = c ∷ strip_from Mode.code l in
    if (code_point c == b'-') && starts_with "-" l
    then to_line
    else if (code_point c == b'/') && starts_with "*" l
    then to_block
    else on
strip_from Mode.line_opening (c ∷ l) = strip_from Mode.line l
strip_from Mode.line (c ∷ l) =
    let out = c ∷ strip_from Mode.code l in
    let on = strip_from Mode.line l in if code_point c == 10 then out else on
strip_from Mode.block_opening (c ∷ l) = strip_from Mode.block l
strip_from Mode.block (c ∷ l) =
    let out = strip_from Mode.block_closing l in
    let on = strip_from Mode.block l in
    if (code_point c == b'*') && starts_with "/" l then out else on
strip_from Mode.block_closing (c ∷ l) = strip_from Mode.code l

unfoldable pub strip_sql_comments : String → String
strip_sql_comments s = of_chars (strip_from Mode.code (chars s))

-- where the loop of `_sql_code_without_literals` stands; `doubled` skips the second of two quotes
pub data Place : Type 0 where
  outside literal doubled : Place

unfoldable pub blank_from : Place → List Char → List Char
blank_from Place.outside [] = []
blank_from _ [] = " " ∷ []
blank_from Place.outside (c ∷ l) =
    let opened = blank_from Place.literal l in
    let on = c ∷ blank_from Place.outside l in if code_point c == b'\'' then opened else on
blank_from Place.literal (c ∷ l) =
    let twice = blank_from Place.doubled l in
    let closed = " " ∷ blank_from Place.outside l in
    let on = blank_from Place.literal l in
    if code_point c == b'\'' then if starts_with "'" l then twice else closed else on
blank_from Place.doubled (c ∷ l) = blank_from Place.literal l

unfoldable pub sql_code_without_literals : String → String
sql_code_without_literals s = of_chars (blank_from Place.outside (chars s))

-- what the checks of the form, the keywords and the calls look at
unfoldable pub code_of : String → String
code_of s = sql_code_without_literals (strip_sql_comments s)
