-- ===== src/Bus/Enums.antt =====
-- The tables of the enumerations of bus_daemon.py: the number and the name that it stands for.
use mathlib.Core.List.{[], ◌∷◌}
use irish_rail_nabber.Prelude.{String, string_eq, get_or}
use irish_rail_nabber.Prelude.Dict.{Dict, lookup}

-- `table.get(name, name)`
abbrev pub named : Dict String String → String → String
named table name = get_or (lookup name table) name

abbrev pub trip_relationships : Dict String String
trip_relationships =
    ("0", "SCHEDULED")
    ∷ ("1", "ADDED")
    ∷ ("2", "UNSCHEDULED")
    ∷ ("3", "CANCELED")
    ∷ ("5", "REPLACEMENT")
    ∷ ("6", "DUPLICATED")
    ∷ ("7", "DELETED")
    ∷ []

abbrev pub stop_relationships : Dict String String
stop_relationships =
    ("0", "SCHEDULED") ∷ ("1", "SKIPPED") ∷ ("2", "NO_DATA") ∷ ("3", "UNSCHEDULED") ∷ []

abbrev pub stop_statuses : Dict String String
stop_statuses = ("0", "INCOMING_AT") ∷ ("1", "STOPPED_AT") ∷ ("2", "IN_TRANSIT_TO") ∷ []

abbrev pub congestion_levels : Dict String String
congestion_levels =
    ("0", "UNKNOWN_CONGESTION_LEVEL")
    ∷ ("1", "RUNNING_SMOOTHLY")
    ∷ ("2", "STOP_AND_GO")
    ∷ ("3", "CONGESTION")
    ∷ ("4", "SEVERE_CONGESTION")
    ∷ []

abbrev pub occupancy_statuses : Dict String String
occupancy_statuses =
    ("0", "EMPTY")
    ∷ ("1", "MANY_SEATS_AVAILABLE")
    ∷ ("2", "FEW_SEATS_AVAILABLE")
    ∷ ("3", "STANDING_ROOM_ONLY")
    ∷ ("4", "CRUSHED_STANDING_ROOM_ONLY")
    ∷ ("5", "FULL")
    ∷ ("6", "NOT_ACCEPTING_PASSENGERS")
    ∷ ("7", "NO_DATA_AVAILABLE")
    ∷ ("8", "NOT_BOARDABLE")
    ∷ []
