-- ===== src/Rail/Stations/Places.antt =====
-- The coordinates of the stations that `fetch_stations` of daemon.py stores.
use mathlib.Core.Path.{subst}
use mathlib.Core.List.{List, [], ◌∷◌}
use irish_rail_nabber.Prelude.{
  String, ◌≡◌, refl, Bool, true, false, not, ◌&&◌, Option, none, some, ◌⊎◌, inl, inr, if◌then◌else◌,
  string_eq, ◌==◌, Bool-cases, Option-cases, All, some-eq, get_or,
}
use irish_rail_nabber.Prelude.Dict.{Dict, lookup, insert}
use irish_rail_nabber.Prelude.Dict.Keys.{All-insert}
use irish_rail_nabber.Python.Text.{is_empty, strip}
use irish_rail_nabber.Python.Runtime.{Runtime}
use irish_rail_nabber.Rail.Fields.{
  Element, extract_text, text_of, parse_float_or_none, is_valid_irish_coordinate,
  to_irish_coordinate_pair,
}
use irish_rail_nabber.Rail.Movements.{elements_of}
use irish_rail_nabber.Rail.Stations.{
  Station, CanonicalStation, StationSession, StationState, StationTransaction, Coordinates,
  load_canonical_station_coords, coordinates_or, station_coordinates, station_row, classified,
  insert_station, insert_stations, classify, update_row, fetch_stations_of_type, classify_all,
  inserted, stored_stations, store_stations, fetch_stations,
}

All-lookup :
    {V : Type 0} (Q : V → Type 0) (k : String) (v : V) (d : Dict String V)
    → All (λ e. Q e.1) d
    → lookup k d ≡ some v
    → Q v
All-lookup Q k v [] h e = cc
All-lookup Q k v (x ∷ d) h e = elim (Bool-cases (x.0 == k)) [
  | inl same ↦ subst Q (some-eq (rw same at e)) h.0
  | inr other ↦ All-lookup Q k v d h.1 (rw other at e)
]

module _ (R : Runtime) where
  abbrev pub IsValid : Option R.Float × Option R.Float → Type 0
  IsValid p = is_valid_irish_coordinate R p.0 p.1 ≡ true

  -- In Ireland, or missing.
  abbrev pub IsPlace : Option R.Float × Option R.Float → Type 0
  IsPlace p = IsValid p ⊎ (p ≡ (none, none))

  abbrev pub AreValid : Coordinates R → Type 0
  AreValid coords = All (λ e. IsValid e.1) coords

  abbrev pub HasPlace : Station R.Float → Type 0
  HasPlace s = IsPlace (s.latitude, s.longitude)

  abbrev pub HavePlaces : Dict String (Station R.Float) → Type 0
  HavePlaces rows = All (λ e. HasPlace e.1) rows

  insert_if-AreValid :
      (empty valid : Bool) (code : String) (p : Option R.Float × Option R.Float)
      (coords : Coordinates R)
      → AreValid coords
      → is_valid_irish_coordinate R p.0 p.1 ≡ valid
      → AreValid (if not empty && valid then insert code p coords else coords)
  insert_if-AreValid true valid code p coords h e = h
  insert_if-AreValid false true code p coords h e =
      All-insert (λ e. IsValid e.1) code p coords (λ j same. e) h
  insert_if-AreValid false false code p coords h e = h

  load_coords-AreValid :
      (stations : List CanonicalStation) (coords : Coordinates R)
      → AreValid coords
      → AreValid (load_canonical_station_coords R stations coords)
  unfolding load_canonical_station_coords
  load_coords-AreValid [] coords h = h
  load_coords-AreValid (s ∷ stations) coords h =
      load_coords-AreValid stations _
        (insert_if-AreValid (is_empty (R.upper (strip s.code))) _ _ _ coords h refl)

  to_irish_coordinate_pair-IsPlace :
      (lat lon : String) → IsPlace (to_irish_coordinate_pair R lat lon)
  unfolding to_irish_coordinate_pair
  to_irish_coordinate_pair-IsPlace lat lon =
      elim (Bool-cases
        (is_valid_irish_coordinate R (parse_float_or_none R lat) (parse_float_or_none R lon))) [
          | inl valid ↦ rw valid (inl valid)
          | inr other ↦ rw other (inr refl)
        ]

  coordinates_or-IsPlace :
      (p : Option R.Float × Option R.Float) (fallback : Option (Option R.Float × Option R.Float))
      → IsPlace p
      → IsPlace (get_or fallback p)
      → IsPlace (coordinates_or R p fallback)
  coordinates_or-IsPlace (some lat, some lon) fallback h k = h
  coordinates_or-IsPlace (none, lon) fallback h k = k
  coordinates_or-IsPlace (some lat, none) fallback h k = k

  fallback-IsPlace :
      (canonical : Coordinates R) (code : String) (p : Option R.Float × Option R.Float)
      → AreValid canonical
      → IsPlace p
      → IsPlace (get_or (lookup code canonical) p)
  fallback-IsPlace canonical code p valid h = elim (Option-cases (lookup code canonical)) [
    | inl missing ↦ rw missing h
    | inr (q, found) ↦ rw found (inl (All-lookup IsValid code q canonical valid found))
  ]

  station_coordinates-IsPlace :
      (canonical : Coordinates R) (code : String) (station : Element)
      → AreValid canonical
      → IsPlace (station_coordinates R canonical code station)
  unfolding station_coordinates
  station_coordinates-IsPlace canonical code station valid =
      let sent =
        to_irish_coordinate_pair-IsPlace (extract_text (some station) "StationLatitude" "0")
          (extract_text (some station) "StationLongitude" "0") in
      coordinates_or-IsPlace _ _ sent (fallback-IsPlace canonical code _ valid sent)

  module _ (session : StationSession R.Float) (canonical : Coordinates R)
      (valid : AreValid canonical) where
    insert_station-HavePlaces :
        (station : Element) (t : StationTransaction R.Float)
        → HavePlaces t.rows
        → HavePlaces (insert_station R session canonical station t).rows
    unfolding insert_station
    insert_station-HavePlaces station t h =
        elim (Bool-cases (is_empty (text_of station "StationCode"))) [
          | inl empty ↦ rw empty h
          | inr full ↦
              let code = R.upper (strip (text_of station "StationCode")) in
              let row = station_row R canonical code station (lookup code t.rows) in
              elim (Bool-cases t.is_aborted) [
                | inl aborted ↦ rw (full, aborted) h
                | inr active ↦ elim (Bool-cases (session.accepts code row)) [
                  | inl taken ↦
                      rw (full, active, taken)
                        (All-insert (λ e. HasPlace e.1) code row t.rows
                          (λ j same. station_coordinates-IsPlace canonical code station valid) h)
                  | inr refused ↦ rw (full, active, refused) h
                ]
              ]
        ]

    insert_stations-HavePlaces :
        (stations : List Element) (t : StationTransaction R.Float)
        → HavePlaces t.rows
        → HavePlaces (insert_stations R session canonical stations t).rows
    unfolding insert_stations
    insert_stations-HavePlaces [] t h = h
    insert_stations-HavePlaces (station ∷ stations) t h =
        insert_stations-HavePlaces stations (insert_station R session canonical station t)
          (insert_station-HavePlaces station t h)

  classify-HavePlaces :
      (kind : String) (dart : Bool) (codes : List String) (rows : Dict String (Station R.Float))
      → HavePlaces rows
      → HavePlaces (classify R kind dart codes rows)
  unfolding classify
  classify-HavePlaces kind dart [] rows h = h
  classify-HavePlaces kind dart (code ∷ codes) rows h =
      classify-HavePlaces kind dart codes (update_row R kind dart code (lookup code rows) rows)
        (elim (Option-cases (lookup code rows)) [
          | inl missing ↦ rw missing h
          | inr (s, found) ↦ rw found (
              All-insert (λ e. HasPlace e.1) code (classified R kind dart s) rows
                (λ j same. All-lookup HasPlace code s rows h found) h)
        ])

  module _ (session : StationSession R.Float) (file : List CanonicalStation)
      (dart mainline suburban : Option String) where
    abbrev canonical_of_file : Coordinates R
    canonical_of_file = load_canonical_station_coords R file []

    if-HavePlaces :
        (b : Bool) (rows others : Dict String (Station R.Float))
        → HavePlaces rows
        → HavePlaces others
        → HavePlaces (if b then rows else others)
    if-HavePlaces true rows others h k = h
    if-HavePlaces false rows others h k = k

    classify_all-HavePlaces :
        (rows : Dict String (Station R.Float))
        → HavePlaces rows
        → HavePlaces (classify_all R dart mainline suburban rows)
    unfolding classify_all
    classify_all-HavePlaces rows h =
        let ds = classify R "D" true (fetch_stations_of_type R dart) rows in
        let ms = classify R "M" false (fetch_stations_of_type R mainline) ds in
        classify-HavePlaces "S" false (fetch_stations_of_type R suburban) ms (
          classify-HavePlaces "M" false (fetch_stations_of_type R mainline) ds
            (classify-HavePlaces "D" true (fetch_stations_of_type R dart) rows h))

    stored_stations-HavePlaces :
        (es : List Element) (rows : Dict String (Station R.Float))
        → HavePlaces rows
        → HavePlaces (stored_stations R session canonical_of_file dart mainline suburban es rows)
    unfolding stored_stations
    stored_stations-HavePlaces es rows h =
        let t = inserted R session canonical_of_file dart mainline suburban es rows in
        let new =
          insert_stations-HavePlaces session canonical_of_file (load_coords-AreValid file [] tt) es
            (record { is_aborted = false; rows = rows; count = 0 }) h in
        let committed = if t.is_aborted then rows else t.rows in
        let kept = if-HavePlaces t.is_aborted rows t.rows h new in
        if-HavePlaces session.classifies (classify_all R dart mainline suburban committed) committed
          (classify_all-HavePlaces committed kept) kept

    store_stations-HavePlaces :
        (es : Option (List Element)) (s : StationState R.Float)
        → HavePlaces s.stations
        → HavePlaces
            (store_stations R session canonical_of_file dart mainline suburban es s).1.stations
    unfolding stored_stations
    store_stations-HavePlaces none s h = h
    store_stations-HavePlaces (some es) s h = elim (Bool-cases (session.opens && session.commits)) [
      | inr broken ↦ rw broken h
      | inl stored ↦ elim (Bool-cases session.reads) [
        | inl reads ↦ rw (stored, reads) (stored_stations-HavePlaces es s.stations h)
        | inr unread ↦ rw (stored, unread) (stored_stations-HavePlaces es s.stations h)
      ]
    ]

-- With the canonical coordinates that `load_canonical_station_coords` reads from a file, whatever the
-- file, the responses and the database do, `fetch_stations` keeps every row of `stations` with
-- coordinates that are in the bounds of Ireland and not 0, 0, or with none.
pub fetch_stations-HavePlaces :
    (R : Runtime) (session : StationSession R.Float) (file : List CanonicalStation)
    (dart mainline suburban response : Option String) (s : StationState R.Float)
    → HavePlaces R s.stations
    → HavePlaces R
        (fetch_stations R session
          (load_canonical_station_coords R file [])
          dart
          mainline
          suburban
          response
          s).1.stations
unfolding fetch_stations
fetch_stations-HavePlaces R session file dart mainline suburban response s h =
    store_stations-HavePlaces R session file dart mainline suburban (elements_of R response) s h
