-- ===== src/Base/Text.antt =====
-- Python's `str`: `in`, `strip`, slices from the end, truth. `lower` is that of ASCII letters, which
-- decides `word in text.lower()` for every word whose letters are ASCII or have no case.
use Prim.Native.Char.{Char, code}
use Prim.Native.Nat.{ℕ, zero, suc, ◌+◌, ◌-◌, ◌/◌, ◌%◌}
use Prim.Native.String.{String, count, ◌++◌ as append}
use mathlib.Core.Bool.{Bool, true, false, not, ◌&&◌, ◌||◌}
use mathlib.Core.List.{List, [], ◌∷◌, ◌++◌, map, reverse}
use mathlib.Core.Path.{◌≡◌, refl, ap}
use text.Mathlib.TextLemmas.{nil-append, cons-append}
use text.Mathlib.Text.{◌==◌ as str_eq}
use future_bi.Base.Tests.{ltb, leb, ◌==◌, if◌then◌else◌}
use future_bi.Base.Lists.{any}

abbrev pub chars : String → List Char
chars String.[] = []
chars (String.◌∷◌ c s) = c ∷ chars s

abbrev pub of_chars : List Char → String
of_chars [] = String.[]
of_chars (c ∷ l) = String.◌∷◌ c (of_chars l)

pub chars-of_chars : (l : List Char) → chars (of_chars l) ≡ l
chars-of_chars [] = refl
chars-of_chars (c ∷ l) = ap (λ k. c ∷ k) (chars-of_chars l)

pub chars-append : (s t : String) → chars (append s t) ≡ chars s ++ chars t
chars-append String.[] t = rw (nil-append t) refl
chars-append (String.◌∷◌ c s) t = rw (cons-append c s t) (ap (λ l. c ∷ l) (chars-append s t))

pub of_chars-chars : (s : String) → of_chars (chars s) ≡ s
of_chars-chars String.[] = refl
of_chars-chars (String.◌∷◌ c s) = ap (String.◌∷◌ c) (of_chars-chars s)

abbrev pub codes : String → List ℕ
codes s = map code (chars s)

-- `bool(s)`
abbrev pub is_nonempty : String → Bool
is_nonempty s = not (str_eq s "")

-- `str.isspace` of one character
is_space : ℕ → Bool
is_space c =
    (leb 9 c && leb c 13)
    || (leb 28 c && leb c 32)
    || (c == 133)
    || (c == 160)
    || (c == 5760)
    || (leb 8192 c && leb c 8202)
    || (c == 8232)
    || (c == 8233)
    || (c == 8239)
    || (c == 8287)
    || (c == 12288)

drop_spaces : List Char → List Char
drop_spaces [] = []
drop_spaces (c ∷ l) = if is_space (code c) then drop_spaces l else c ∷ l

-- `s.strip()`
unfoldable pub strip : String → String
unfolding is_space drop_spaces
strip s = of_chars (reverse (drop_spaces (reverse (drop_spaces (chars s)))))

unfoldable pub lower_code : ℕ → ℕ
lower_code c = if leb 65 c && leb c 90 then c + 32 else c

unfoldable pub is_prefix : List ℕ → List ℕ → Bool
is_prefix [] l = true
is_prefix (c ∷ w) [] = false
is_prefix (c ∷ w) (d ∷ l) = (c == d) && is_prefix w l

-- `w in l`, over code points
unfoldable pub has_infix : List ℕ → List ℕ → Bool
unfolding is_prefix
has_infix w [] = is_prefix w []
has_infix w (d ∷ l) = is_prefix w (d ∷ l) || has_infix w l

-- `any(w in s for w in words)`
unfoldable pub mentions : List String → String → Bool
unfolding has_infix
mentions words s = any (λ w. has_infix (codes w) (codes s)) words

-- `any(w in s.lower() for w in words)`
unfoldable pub mentions_lower : List String → String → Bool
unfolding has_infix lower_code
mentions_lower words s = any (λ w. has_infix (codes w) (map lower_code (codes s))) words

unfoldable pub drop_chars : ℕ → String → String
drop_chars zero s = s
drop_chars (suc n) String.[] = String.[]
drop_chars (suc n) (String.◌∷◌ c s) = drop_chars n s

-- `s[-n:]`, for a positive `n`
unfoldable pub last_chars : ℕ → String → String
unfolding drop_chars
last_chars n s = drop_chars (count s - n) s

digit : ℕ → String
digit zero = "0"
digit (suc zero) = "1"
digit (suc (suc zero)) = "2"
digit (suc (suc (suc zero))) = "3"
digit (suc (suc (suc (suc zero)))) = "4"
digit (suc (suc (suc (suc (suc zero))))) = "5"
digit (suc (suc (suc (suc (suc (suc zero)))))) = "6"
digit (suc (suc (suc (suc (suc (suc (suc zero))))))) = "7"
digit (suc (suc (suc (suc (suc (suc (suc (suc zero)))))))) = "8"
digit _ = "9"

digits : ℕ → ℕ → String
digits zero n = digit n
digits (suc fuel) n =
    let front = digits fuel (n / 10) in if ltb n 10 then digit n else append front (digit (n % 10))

-- `str(n)`; `n` divisions by ten leave a digit
unfoldable pub show : ℕ → String
unfolding digit digits
show n = digits n n

-- `sep.join(texts)`
unfoldable pub join : String → List String → String
join sep [] = ""
join sep (s ∷ []) = s
join sep (s ∷ t ∷ l) = append s (append sep (join sep (t ∷ l)))

remove_text : String → List String → List String
remove_text s [] = []
remove_text s (t ∷ l) = let rest = remove_text s l in if str_eq t s then rest else t ∷ rest

-- `dict.fromkeys(texts)`: the first occurrences, in order
unfoldable pub unique : List String → List String
unfolding remove_text
unique [] = []
unique (s ∷ l) = s ∷ remove_text s (unique l)
