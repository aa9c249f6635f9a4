-- ===== src/Python/Text.antt =====
-- Python's `str` as the native `String`: `strip`, `split`, slices, and `int(text)`.
-- A `String` is a sequence of Unicode scalar values, as a Python text without surrogates is.
use Prim.Native.String.{[], ◌∷◌, ◌++◌}
use mathlib.Core.List.{List}
use irish_rail_nabber.Prelude.{
  ℕ, zero, suc, ◌+◌, ◌*◌, Bool, true, false, ◌&&◌, ◌||◌, Option, none, some, String, Char, code,
  leb, nat_beq, if◌then◌else◌, option_bind,
}
use irish_rail_nabber.Prelude.Int.{ℤ, pos, negsuc}

-- `str.isspace` of one character, for the characters that `str.strip` removes.
unfoldable pub is_space : ℕ → Bool
is_space c =
    (leb 9 c && leb c 13)
    || (leb 28 c && leb c 32)
    || nat_beq c 133
    || nat_beq c 160
    || nat_beq c 5760
    || (leb 8192 c && leb c 8202)
    || nat_beq c 8232
    || nat_beq c 8233
    || nat_beq c 8239
    || nat_beq c 8287
    || nat_beq c 12288

-- `not text`
abbrev pub is_empty : String → Bool
is_empty [] = true
is_empty (c ∷ s) = false

unfoldable pub lstrip : String → String
unfolding is_space
lstrip [] = []
lstrip (c ∷ s) = if is_space (code c) then lstrip s else c ∷ s

abbrev pub put_kept : Bool → Char → String → String
put_kept true c [] = []
put_kept _ c s = c ∷ s

unfoldable pub rstrip : String → String
unfolding is_space
rstrip [] = []
rstrip (c ∷ s) = put_kept (is_space (code c)) c (rstrip s)

-- `text.strip()`
unfoldable pub strip : String → String
unfolding lstrip rstrip
strip s = rstrip (lstrip s)

abbrev pub put_char : Char → List String → List String
put_char c List.[] = List.◌∷◌ (c ∷ []) List.[]
put_char c (List.◌∷◌ p ps) = List.◌∷◌ (c ∷ p) ps

-- `text.split(sep)` for a separator of one character.
unfoldable pub split_on : ℕ → String → List String
split_on sep [] = List.◌∷◌ [] List.[]
split_on sep (c ∷ s) =
    let rest = split_on sep s in if nat_beq (code c) sep then List.◌∷◌ [] rest else put_char c rest

-- `len(text)`
abbrev pub text_length : String → ℕ
text_length [] = 0
text_length (c ∷ s) = suc (text_length s)

-- `text[:n]`
abbrev pub text_take : ℕ → String → String
text_take zero s = []
text_take (suc n) [] = []
text_take (suc n) (c ∷ s) = c ∷ text_take n s

-- `text[n:]`
abbrev pub text_drop : ℕ → String → String
text_drop zero s = s
text_drop (suc n) [] = []
text_drop (suc n) (c ∷ s) = text_drop n s

abbrev pub all_chars : (Char → Bool) → String → Bool
all_chars p [] = true
all_chars p (c ∷ s) = p c && all_chars p s

-- `"".join(c for c in text if p(c))`
abbrev pub keep_chars : (Char → Bool) → String → String
keep_chars p [] = []
keep_chars p (c ∷ s) = let rest = keep_chars p s in if p c then c ∷ rest else rest

-- `text.replace("Z", "+00:00")`
abbrev pub replace_z : String → String
replace_z [] = []
replace_z (c ∷ s) =
    let rest = replace_z s in if nat_beq (code c) b'Z' then "+00:00" ++ rest else c ∷ rest

-- The digits of a text of which `str.isdigit` holds, read by `int`. `digit c` is the decimal value
-- of `c`; a digit without one, such as a superscript, makes `int` raise `ValueError`.
unfoldable pub int_digits : (Char → Option ℕ) → ℕ → String → Option ℕ
int_digits digit acc [] = some acc
int_digits digit acc (c ∷ s) = option_bind (digit c) λ d. int_digits digit (acc * 10 + d) s

-- The digits of any text: single underscores may stand between digits. `after` says whether the
-- character before was a digit.
unfoldable pub int_body : (Char → Option ℕ) → Bool → ℕ → String → Option ℕ
int_body digit after acc [] = if after then some acc else none
int_body digit after acc (c ∷ s) =
    let skip = int_body digit false acc s in
    let next = option_bind (digit c) (λ d. int_body digit true (acc * 10 + d) s) in
    if nat_beq (code c) b'_' then (if after then skip else none) else next

abbrev pub negate : ℕ → ℤ
negate zero = pos 0
negate (suc n) = negsuc n

abbrev pub signed : (Char → Option ℕ) → String → Option ℤ
signed digit [] = none
signed digit (c ∷ s) =
    if nat_beq (code c) b'-'
    then option_bind (int_body digit false 0 s) (λ n. some (negate n))
    else if nat_beq (code c) b'+'
    then option_bind (int_body digit false 0 s) (λ n. some (pos n))
    else option_bind (int_body digit false 0 (c ∷ s)) (λ n. some (pos n))

-- `int(text)`; `none` is `ValueError`.
unfoldable pub int_of_text : (Char → Option ℕ) → String → Option ℤ
unfolding strip int_body
int_of_text digit s = signed digit (strip s)
