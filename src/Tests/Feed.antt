-- ===== src/Tests/Feed.antt =====
-- An interpreter and responses for the tests of the rail daemon.
use mathlib.Core.List.{List, [], ◌∷◌}
use irish_rail_nabber.Prelude.{
  String, true, false, Option, none, some, string_eq, ◌==◌, if◌then◌else◌,
}
use irish_rail_nabber.Python.Runtime.{Runtime}
use irish_rail_nabber.Rail.Fields.{Element}
use irish_rail_nabber.Rail.Movements.{Session}
use irish_rail_nabber.Rail.Writes.{Connection}
use irish_rail_nabber.Tests.Ascii.{ascii}

abbrev pub train : String → String → String → Element
train code date latitude =
    ("TrainCode", some code)
    ∷ ("TrainDate", some date)
    ∷ ("TrainLatitude", some latitude)
    ∷ ("TrainLongitude", some "-8")
    ∷ []

abbrev pub stop : String → String → Element
stop order arrival =
    ("TrainCode", some "A1")
    ∷ ("LocationCode", some "cork")
    ∷ ("LocationOrder", some order)
    ∷ ("Arrival", some arrival)
    ∷ []

abbrev pub board : String → String → Element
board code status =
    ("Traincode", some code) ∷ ("Traindate", some "1 May") ∷ ("Status", some status) ∷ []

abbrev pub station : String → String → Element
station code latitude =
    ("StationCode", some code)
    ∷ ("StationLatitude", some latitude)
    ∷ ("StationLongitude", some "-8")
    ∷ []

-- The elements that each response stands for.
abbrev pub elements : String → Option (List Element)
elements xml =
    if xml == "broken"
    then none
    else if xml == "stops"
    then some (stop "1" "" ∷ stop "2" "10:00" ∷ stop "1" "09:00" ∷ stop "x" "" ∷ [])
    else if xml == "boards"
    then some (board "A1" "late" ∷ board "" "" ∷ board "A2" "early" ∷ [])
    else if xml == "stations"
    then some (station "cork" "52" ∷ station "mayo" "0" ∷ station "kent" "20" ∷ [])
    else if xml == "again"
    then some (train "A2" "2 May" "53" ∷ train "A1" "1 May" "52" ∷ [])
    else some (train "A1" "1 May" "52" ∷ train "A2" "1 May" "53" ∷ [])

-- A digest is the text itself.
abbrev pub R : Runtime
R = record (ascii none) { xml_elements = elements }

-- A database that takes everything, one that refuses every row, and one whose commit fails.
abbrev pub willing : {A : Type 0} → Connection A
willing = record { opens = true; accepts = λ a. true; commits = true }

abbrev pub refusing : {A : Type 0} → Connection A
refusing = record { opens = true; accepts = λ a. false; commits = true }

abbrev pub broken : {A : Type 0} → Connection A
broken = record { opens = true; accepts = λ a. true; commits = false }

abbrev pub willing_session : Session
willing_session = record { accepts = λ m. true; commits = true }

abbrev pub broken_session : Session
broken_session = record { accepts = λ m. true; commits = false }
