-- ===== src/Rail/Movements.antt =====
-- `_fetch_train_movements` of daemon.py. A table is the list of its rows, the newest first.
pub mod Backed
pub mod Newest
pub mod All
use mathlib.Core.List.{List, [], ◌∷◌, ◌++◌}
use irish_rail_nabber.Prelude.{
  ℕ, zero, suc, String, Bool, true, false, Option, none, some, if◌then◌else◌, string_eq, pair_eq,
  ◌==◌, or_else, option_bind, length,
}
use irish_rail_nabber.Prelude.Dict.{Dict, lookup, insert}
use irish_rail_nabber.Prelude.Dict.Keys.{update_all}
use irish_rail_nabber.Prelude.Int.{ℤ, pos, negsuc, int_eq}
use irish_rail_nabber.Python.Text.{is_empty, strip, int_of_text}
use irish_rail_nabber.Python.Runtime.{Runtime}
use irish_rail_nabber.Rail.Fields.{
  Element, extract_text, text_of, text_or, some_text, to_time_or_none, to_bool, Value, text, number,
  flag, text_value, parse_xml, stable_hash,
}

-- A train, a date, a station and the place in the journey.
abbrev pub MovementKey : Type 0
MovementKey = String × (String × (String × ℤ))

-- A row of `train_movements`.
pub record Movement : Type 0 where
  pub train_code : String
  pub train_date : String
  pub location_code : String
  pub location_full_name : Option String
  pub location_order : ℤ
  pub location_type : String
  pub train_origin : String
  pub train_destination : String
  pub scheduled_arrival : Option String
  pub scheduled_departure : Option String
  pub expected_arrival : Option String
  pub expected_departure : Option String
  pub actual_arrival : Option String
  pub actual_departure : Option String
  pub auto_arrival : Bool
  pub auto_departure : Bool
  pub stop_type : Option String

abbrev pub movement_key : Movement → MovementKey
movement_key m = (m.train_code, (m.train_date, (m.location_code, m.location_order)))

abbrev pub movement_values : Movement → List Value
movement_values m =
    text m.train_code
    ∷ text m.train_date
    ∷ text m.location_code
    ∷ text_value m.location_full_name
    ∷ number m.location_order
    ∷ text m.location_type
    ∷ text m.train_origin
    ∷ text m.train_destination
    ∷ text_value m.scheduled_arrival
    ∷ text_value m.scheduled_departure
    ∷ text_value m.expected_arrival
    ∷ text_value m.expected_departure
    ∷ text_value m.actual_arrival
    ∷ text_value m.actual_departure
    ∷ flag m.auto_arrival
    ∷ flag m.auto_departure
    ∷ text_value m.stop_type
    ∷ []

-- `None` in place of "" and "-".
abbrev stop_type_of : String → Option String
stop_type_of s = option_bind (some_text s) λ t. if t == "-" then none else some t

-- `previous == fingerprint`
abbrev pub is_same : Option String → String → Bool
is_same none fingerprint = false
is_same (some previous) fingerprint = previous == fingerprint

-- What the connection does: the rows that the table takes, and whether the transaction commits. A row
-- that is refused raises.
pub record Session : Type 0 where
  pub accepts : Movement → Bool
  pub commits : Bool

-- `prev_movement_hashes` and the table.
pub record MovementState : Type 0 where
  pub hashes : Dict MovementKey String
  pub table : List Movement

-- `pending_hashes`, and the rows of the transaction.
pub record Pending : Type 0 where
  pub pending_hashes : Dict MovementKey String
  pub rows : List Movement

abbrev pub nothing_pending : Pending
nothing_pending = record { pending_hashes = []; rows = [] }

-- `pending_hashes.get(cache_key, self.prev_movement_hashes.get(cache_key))`
abbrev pub previous_hash : Dict MovementKey String → Pending → MovementKey → Option String
previous_hash hashes p k = or_else (lookup k p.pending_hashes) (lookup k hashes)

module _ (R : Runtime) where
  abbrev movement_at : String → Element → Option ℤ → Option Movement
  movement_at train_date e none = none
  movement_at train_date e (some order) =
      if is_empty (text_of e "TrainCode")
      then none
      else some (record {
        train_code = strip (text_of e "TrainCode");
        train_date = strip (text_or (text_of e "TrainDate") train_date);
        location_code = R.upper (strip (text_of e "LocationCode"));
        location_full_name = some_text (text_of e "LocationFullName");
        location_order = order;
        location_type = text_of e "LocationType";
        train_origin = text_of e "TrainOrigin";
        train_destination = text_of e "TrainDestination";
        scheduled_arrival = to_time_or_none (text_of e "ScheduledArrival");
        scheduled_departure = to_time_or_none (text_of e "ScheduledDeparture");
        expected_arrival = to_time_or_none (text_of e "ExpectedArrival");
        expected_departure = to_time_or_none (text_of e "ExpectedDeparture");
        actual_arrival = to_time_or_none (text_of e "Arrival");
        actual_departure = to_time_or_none (text_of e "Departure");
        auto_arrival = to_bool (text_of e "AutoArrival");
        auto_departure = to_bool (text_of e "AutoDepart");
        stop_type = stop_type_of (text_of e "StopType");
      })

  -- The values of an element; `none` where it is passed over: it names no train, or its place is no
  -- number.
  unfoldable pub parse_movement : String → Element → Option Movement
  unfolding int_of_text strip
  parse_movement train_date e =
      movement_at train_date e
        (int_of_text R.digit (text_or (extract_text (some e) "LocationOrder" "0") "0"))

  abbrev keep_movement : Option Movement → List Movement → List Movement
  keep_movement none ms = ms
  keep_movement (some m) ms = m ∷ ms

  unfoldable pub parse_movements : String → List Element → List Movement
  unfolding parse_movement
  parse_movements train_date [] = []
  parse_movements train_date (e ∷ es) =
      keep_movement (parse_movement train_date e) (parse_movements train_date es)

  unfoldable pub movement_hash : Movement → String
  unfolding stable_hash
  movement_hash m = stable_hash R (movement_values m)

  -- One round of the loop; `none` where the row is refused.
  unfoldable pub insert_movement :
      Session → Dict MovementKey String → Movement → Pending → Option Pending
  insert_movement session hashes m p =
      if is_same (previous_hash hashes p (movement_key m)) (movement_hash m)
      then some p
      else if session.accepts m
      then some (record {
        pending_hashes = insert (movement_key m) (movement_hash m) p.pending_hashes;
        rows = m ∷ p.rows;
      })
      else none

  unfoldable pub insert_movements :
      Session → Dict MovementKey String → List Movement → Pending → Option Pending
  unfolding insert_movement
  insert_movements session hashes [] p = some p
  insert_movements session hashes (m ∷ ms) p =
      option_bind (insert_movement session hashes m p) (insert_movements session hashes ms)

  abbrev count_or_unchanged : ℕ → ℤ
  count_or_unchanged zero = negsuc 0
  count_or_unchanged (suc n) = pos (suc n)

  -- The hashes are published only after the commit.
  unfoldable pub publish : Session → Option Pending → MovementState → ℤ × MovementState
  publish session none s = (pos 0, s)
  publish session (some p) s =
      if session.commits
      then (
        count_or_unchanged (length p.rows),
        record { hashes = update_all s.hashes p.pending_hashes; table = p.rows ++ s.table },
      )
      else (pos 0, s)

  -- The elements of a response; `none` without one, or where it is no XML.
  abbrev pub elements_of : Option String → Option (List Element)
  elements_of none = none
  elements_of (some xml) = if is_empty xml then none else parse_xml R xml

  abbrev pub insert_elements :
      Session → Option (List Element) → String → MovementState → ℤ × MovementState
  insert_elements session none train_date s = (pos 0, s)
  insert_elements session (some es) train_date s =
      publish session
        (insert_movements session s.hashes (parse_movements train_date es) nothing_pending) s

  -- `_fetch_train_movements`, with the response.
  unfoldable pub fetch_train_movements :
      Session → Option String → String → MovementState → ℤ × MovementState
  unfolding parse_xml parse_movements insert_movements publish
  fetch_train_movements session response train_date s =
      insert_elements session (elements_of response) train_date s
