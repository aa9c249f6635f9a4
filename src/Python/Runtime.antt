-- ===== src/Python/Runtime.antt =====
-- What the code takes from the interpreter without defining it: floats, instants, Unicode tables,
-- ISO 8601 parsing and digests. The model is a function of a `Runtime`.
use irish_rail_nabber.Prelude.{ℕ, String, Char, Bool, Option, List}
use irish_rail_nabber.Prelude.Int.{ℤ}
use irish_rail_nabber.Python.Date.{Date}

-- A JSON value, as `json.loads` returns it. The lists and the objects stand in the block.
mutual
  pub data Json (F : Type 0) : Type 0 where
    null : Json F
    bool : Bool → Json F
    int : ℤ → Json F
    float : F → Json F
    text : String → Json F
    array : Items F → Json F
    object : Fields F → Json F

  pub data Items (F : Type 0) : Type 0 where
    nil : Items F
    cons : Json F → Items F → Items F

  pub data Fields (F : Type 0) : Type 0 where
    end : Fields F
    field : String → Json F → Fields F → Fields F

-- A value of a dictionary that is hashed: `None`, a text, a number, a date or an instant.
pub data Scalar (F D : Type 0) : Type 0 where
  absent : Scalar F D
  str : String → Scalar F D
  num : ℤ → Scalar F D
  real : F → Scalar F D
  day : Date → Scalar F D
  moment : D → Scalar F D

-- How `datetime.fromtimestamp` ends.
pub data Stamp (D : Type 0) : Type 0 where
  instant : D → Stamp D
  value_error : Stamp D
  overflow_error : Stamp D

pub record Runtime : Type 1 where
  -- `float` and `datetime` (aware, in UTC)
  pub Float : Type 0
  pub DateTime : Type 0
  -- `str.isalnum`, `str.isdigit` of one character, and its decimal value
  pub is_alnum : Char → Bool
  pub is_digit : Char → Bool
  pub digit : Char → Option ℕ
  -- `str.lower`, `str.upper`
  pub lower : String → String
  pub upper : String → String
  -- `str(value)` of numbers, and of arrays and objects
  pub int_text : ℤ → String
  pub float_text : Float → String
  pub repr : Json Float → String
  -- `float(text)`, `float(n)`, `int(x)`; `none` where they raise
  pub float_of_text : String → Option Float
  pub float_of_int : ℤ → Option Float
  pub int_of_float : Float → Option ℤ
  pub float_is_zero : Float → Bool
  -- `math.isfinite(x)`, `low <= x <= high` and `x < 0`
  pub is_finite : Float → Bool
  pub is_between : ℤ → Float → ℤ → Bool
  pub is_negative : Float → Bool
  -- `x.is_integer()`, and `x * 100`
  pub is_integer : Float → Bool
  pub percent : Float → Float
  -- `datetime.fromtimestamp(x, tz=UTC)`
  pub timestamp_of_int : ℤ → Stamp DateTime
  pub timestamp_of_float : Float → Stamp DateTime
  -- `datetime.fromisoformat`, read as UTC where it names no zone, and taken to UTC
  pub utc_of_iso : String → Option DateTime
  -- `date.fromisoformat`
  pub date_of_iso : String → Option Date
  -- `json.loads`; `none` where it raises
  pub json_loads : String → Option (Json Float)
  -- `datetime.strptime(text, "%d/%m/%Y %H:%M:%S")`
  pub hacon_time : String → Option DateTime
  -- the MD5 digest of a text, in hexadecimal
  pub md5 : String → String
  -- `ET.fromstring`: the tags and texts of the children of each element under the root; `none` where
  -- it raises
  pub xml_elements : String → Option (List (List (String × Option String)))
  -- `time_bucket(INTERVAL '1 hour', t)` of the database, on microseconds since the epoch
  pub hour_bucket : ℕ → ℕ
  -- the SHA-256 digest of `json.dumps` with sorted keys
  pub payload_digest : List (String × Scalar Float DateTime) → String
