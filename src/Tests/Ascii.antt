-- ===== src/Tests/Ascii.antt =====
-- An interpreter for the tests: ASCII letters and digits, whole numbers in place of floats, seconds in
-- place of instants, and a digest that writes the fields out.
use Prim.Native.String.{[], ◌∷◌, ◌++◌}
use mathlib.Core.List.{List}
use irish_rail_nabber.Prelude.{
  ℕ, ◌-◌, ◌/◌, String, Char, code, Bool, true, false, not, ◌&&◌, ◌||◌, Option, none, some, leb,
  nat_beq, if◌then◌else◌,
}
use irish_rail_nabber.Prelude.Int.{ℤ, pos, negsuc, ltb_ℤ, scale_ℤ}
use irish_rail_nabber.Python.Text.{int_of_text, text_length}
use irish_rail_nabber.Python.Runtime.{
  Runtime, Json, Scalar, absent, str, num, real, day, moment, instant,
}

-- The character at the place in `to` that `c` has in `from`.
abbrev translate : String → String → Char → Char
translate [] to c = c
translate (f ∷ from) [] c = c
translate (f ∷ from) (t ∷ to) c = if nat_beq (code f) (code c) then t else translate from to c

abbrev map_chars : (Char → Char) → String → String
map_chars f [] = []
map_chars f (c ∷ s) = f c ∷ map_chars f s

abbrev lower_letters : String
lower_letters = "abcdefghijklmnopqrstuvwxyz"

abbrev upper_letters : String
upper_letters = "ABCDEFGHIJKLMNOPQRSTUVWXYZ"

abbrev pub ascii_digit : Char → Option ℕ
ascii_digit c = if leb b'0' (code c) && leb (code c) b'9' then some (code c - b'0') else none

abbrev pub is_ascii_digit : Char → Bool
is_ascii_digit c = leb b'0' (code c) && leb (code c) b'9'

abbrev is_letter : Char → Bool
is_letter c = (leb b'a' (code c) && leb (code c) b'z') || (leb b'A' (code c) && leb (code c) b'Z')

abbrev leq : ℤ → ℤ → Bool
leq a b = not (ltb_ℤ b a)

-- A few numbers as texts are all that the tests write.
abbrev small_text : ℤ → String
small_text (pos n) = if nat_beq n 1 then "1" else if nat_beq n 2 then "2" else "many"
small_text (negsuc n) = "negative"

abbrev scalar_text : Scalar ℤ ℤ → String
scalar_text absent = "null"
scalar_text (str s) = s
scalar_text (num n) = small_text n
scalar_text (real x) = small_text x
scalar_text (day d) = "day"
scalar_text (moment t) = small_text t

abbrev write_fields : List (String × Scalar ℤ ℤ) → String
write_fields List.[] = ""
write_fields (List.◌∷◌ (k, v) fs) = k ++ ":" ++ scalar_text v ++ "," ++ write_fields fs

-- The interpreter, with the value that it decodes from a response.
abbrev pub ascii : Option (Json ℤ) → Runtime
ascii response = record {
  Float = ℤ;
  DateTime = ℤ;
  is_alnum = λ c. is_letter c || is_ascii_digit c;
  is_digit = is_ascii_digit;
  digit = ascii_digit;
  lower = map_chars (translate upper_letters lower_letters);
  upper = map_chars (translate lower_letters upper_letters);
  int_text = small_text;
  float_text = small_text;
  repr = λ j. "...";
  float_of_text = int_of_text ascii_digit;
  float_of_int = some;
  int_of_float = some;
  float_is_zero = λ x. elim x [ pos n ↦ nat_beq n 0 | negsuc n ↦ false ];
  is_finite = λ x. true;
  is_between = λ low x high. leq low x && leq x high;
  is_negative = λ x. ltb_ℤ x (pos 0);
  is_integer = λ x. true;
  percent = scale_ℤ 100;
  timestamp_of_int = instant;
  timestamp_of_float = instant;
  utc_of_iso = λ s. none;
  date_of_iso = λ s. none;
  json_loads = λ s. response;
  hacon_time = λ s. some (pos (text_length s));
  md5 = λ s. s;
  xml_elements = λ s. none;
  hour_bucket = λ t. t / 3600000000;
  payload_digest = write_fields;
}
