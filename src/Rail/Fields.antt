-- ===== src/Rail/Fields.antt =====
-- The readers of one XML element in daemon.py, from `parse_xml` to `stable_hash`. An element is the list
-- of its children's tags and texts: the code reads no deeper.
use mathlib.Core.List.{List, [], ◌∷◌}
use Prim.Native.String.{◌++◌}
use irish_rail_nabber.Prelude.{
  ℕ, zero, ◌+◌, ◌-◌, String, Bool, true, false, not, ◌&&◌, Option, none, some, nat_beq, code,
  if◌then◌else◌, string_eq, ◌==◌, option_bind,
}
use irish_rail_nabber.Prelude.Dict.{lookup}
use irish_rail_nabber.Prelude.Int.{ℤ, pos, negsuc}
use irish_rail_nabber.Python.Text.{is_empty, strip, text_length, text_drop, int_of_text}
use irish_rail_nabber.Python.Replace.{starts_with, replace_matches, replace_text}
use irish_rail_nabber.Python.Runtime.{Runtime}

abbrev pub Element : Type 0
Element = List (String × Option String)

abbrev child_text : Option (Option String) → String → String
child_text none default = default
child_text (some none) default = default
child_text (some (some s)) default = strip s

-- `extract_text` of an element; `None` gives the default.
unfoldable pub extract_text : Option Element → String → String → String
unfolding strip
extract_text none tag default = default
extract_text (some element) tag default = child_text (lookup tag element) default

abbrev pub text_of : Element → String → String
text_of element tag = extract_text (some element) tag ""

-- `text or None`
abbrev pub some_text : String → Option String
some_text s = if is_empty s then none else some s

-- `text or other`
abbrev pub text_or : String → String → String
text_or s other = if is_empty s then other else s

unfoldable pub to_time_or_none : String → Option String
unfolding strip
to_time_or_none val = some_text (strip val)

unfoldable pub to_bool : String → Bool
unfolding strip
to_bool val = if is_empty val then false else strip val == "1"

-- A match of `_TIMESTAMP_RE` at the start of a text: an opening tag, no `<`, a closing tag.
abbrev tag_length : List String → String → Option ℕ
tag_length [] s = none
tag_length (tag ∷ tags) s = if starts_with tag s then some (text_length tag) else tag_length tags s

abbrev pub plain_length : String → ℕ
plain_length String.[] = 0
plain_length (String.◌∷◌ c s) =
    let rest = plain_length s in if nat_beq (code c) b'<' then 0 else rest + 1

abbrev opening_tags : List String
opening_tags = "<Servertime>" ∷ "<Querytime>" ∷ []

abbrev closing_tags : List String
closing_tags = "</Servertime>" ∷ "</Querytime>" ∷ []

unfoldable pub match_timestamp : String → Option ℕ
match_timestamp s = option_bind (tag_length opening_tags s) λ opened.
    let inner = plain_length (text_drop opened s) in
    option_bind (tag_length closing_tags (text_drop inner (text_drop opened s)))
      λ closed. some (opened + inner + closed - 1)

-- `_TIMESTAMP_RE.sub("", xml)`
unfoldable pub without_timestamps : String → String
unfolding replace_matches match_timestamp
without_timestamps xml = replace_matches match_timestamp "" zero xml

-- A value that is hashed, or bound to a statement.
pub data Value : Type 0 where
  absent : Value
  text : String → Value
  number : ℤ → Value
  flag : Bool → Value

abbrev pub text_value : Option String → Value
text_value none = absent
text_value (some s) = text s

abbrev pub number_value : Option ℤ → Value
number_value none = absent
number_value (some n) = number n

module _ (R : Runtime) where
  -- `parse_xml`, down to the elements under the root.
  unfoldable pub parse_xml : String → Option (List Element)
  unfolding replace_text
  parse_xml xml = R.xml_elements (replace_text "xmlns=" "xmlnamespace=" xml)

  unfoldable pub to_int_or_none : String → Option ℤ
  unfolding strip int_of_text
  to_int_or_none val = option_bind (some_text (strip val)) (int_of_text R.digit)

  -- `_parse_float_or_none`
  unfoldable pub parse_float_or_none : String → Option R.Float
  unfolding strip
  parse_float_or_none val = option_bind (some_text (strip val)) R.float_of_text

  unfoldable pub is_valid_irish_coordinate : Option R.Float → Option R.Float → Bool
  is_valid_irish_coordinate (some lat) (some lon) =
      not (R.float_is_zero lat && R.float_is_zero lon)
      && (R.is_between (pos 51) lat (pos 56) && R.is_between (negsuc 10) lon (negsuc 4))
  is_valid_irish_coordinate _ _ = false

  unfoldable pub to_irish_coordinate_pair : String → String → Option R.Float × Option R.Float
  unfolding is_valid_irish_coordinate parse_float_or_none
  to_irish_coordinate_pair lat_val lon_val =
      let lat = parse_float_or_none lat_val in
      let lon = parse_float_or_none lon_val in
      if is_valid_irish_coordinate lat lon then (lat, lon) else (none, none)

  unfoldable pub parse_hacon_datetime : String → Option R.DateTime
  unfolding strip
  parse_hacon_datetime val =
      option_bind (some_text (strip val))
        λ v. if starts_with "01/01/1900" v then none else R.hacon_time v

  -- `str(value)`
  abbrev pub value_text : Value → String
  value_text absent = "None"
  value_text (text s) = s
  value_text (number n) = R.int_text n
  value_text (flag true) = "True"
  value_text (flag false) = "False"

  -- The texts one after the other, as they go into the digest.
  unfoldable pub joined : List Value → String
  joined [] = ""
  joined (v ∷ vs) = value_text v ++ joined vs

  unfoldable pub stable_hash : List Value → String
  unfolding joined
  stable_hash args = R.md5 (joined args)
