-- ===== src/Rail/Hacon/Stored.antt =====
-- What `fetch_hacon` of daemon.py stores of a response, and what it forgets.
use mathlib.Core.List.{List}
use irish_rail_nabber.Prelude.{
  String, ◌≡◌, refl, true, false, ◌&&◌, Option, none, some, inl, inr, string_eq, Bool-cases,
}
use irish_rail_nabber.Python.Text.{is_empty}
use irish_rail_nabber.Python.Runtime.{Runtime}
use irish_rail_nabber.Rail.Fields.{Element, parse_xml}
use irish_rail_nabber.Rail.Movements.{is_same}
use irish_rail_nabber.Rail.Writes.{Connection, commit, write_changes}
use irish_rail_nabber.Rail.Writes.Backed.{IsStored, write_changes-IsStored}
use irish_rail_nabber.Rail.Hacon.{
  Hacon, failed, skipped, HaconState, parse_trains, store_trains, store_response, response_hash,
  fetch_hacon,
}

module _ (R : Runtime) where
  write_changes-failed :
      (connection : Connection (Hacon R)) (es : List Element) (hash : String)
      (s : HaconState (Hacon R))
      → (connection.opens && connection.commits) ≡ false
      → let result = store_trains R connection es hash s in
        (result.0 ≡ failed) × (result.1.trains.table ≡ s.trains.table)
  unfolding write_changes commit
  write_changes-failed connection es hash s h = elim (Bool-cases connection.opens) [
    | inr closed ↦ rw closed (refl, refl)
    | inl opened ↦ rw (opened, (rw opened at h)) (refl, refl)
  ]

  -- A response that is not the last one is lost if the pool gives no connection or the commit fails:
  -- the cycle is logged as failed, the table stays as it is, and the same response again, over whatever
  -- connection, is skipped.
  pub fetch_hacon-lost :
      (connection connection_again : Connection (Hacon R)) (xml : String) (es : List Element)
      (s : HaconState (Hacon R))
      → is_empty xml ≡ false
      → parse_xml R xml ≡ some es
      → is_same s.prev_hacon_hash (response_hash R xml) ≡ false
      → (connection.opens && connection.commits) ≡ false
      → let result = fetch_hacon R connection (some xml) s in
        (result.0 ≡ failed)
        × (result.1.trains.table ≡ s.trains.table)
        × (fetch_hacon R connection_again (some xml) result.1 ≡ (skipped, result.1))
  unfolding fetch_hacon
  fetch_hacon-lost connection connection_again xml es s full parsed new broken =
      let lost = write_changes-failed connection es (response_hash R xml) s broken in
      rw (full, parsed, new)
        (
          lost.0,
          lost.1,
          rw ((string_eq.beq_iff (response_hash R xml) (response_hash R xml)).1 refl) refl,
        )

  store_response-IsStored :
      (connection : Connection (Hacon R)) (es : Option (List Element)) (hash : String)
      (s : HaconState (Hacon R))
      → ((train : Hacon R) → connection.accepts train ≡ true)
      → connection.opens ≡ true
      → connection.commits ≡ true
      → IsStored s.trains
      → IsStored (store_response R connection es hash s).1.trains
  store_response-IsStored connection none hash s accepts_all opens commits stored = stored
  store_response-IsStored connection (some es) hash s accepts_all opens commits stored =
      elim (Bool-cases (is_same s.prev_hacon_hash hash)) [
        | inl known ↦ rw known stored
        | inr new ↦
            rw new
              (write_changes-IsStored connection accepts_all opens commits (parse_trains R es)
                s.trains stored).0
      ]

  -- Where every row is accepted and the transaction commits, the hash of each train in memory stays the
  -- one of its newest row, whatever the response is.
  pub fetch_hacon-IsStored :
      (connection : Connection (Hacon R)) (response : Option String) (s : HaconState (Hacon R))
      → ((train : Hacon R) → connection.accepts train ≡ true)
      → connection.opens ≡ true
      → connection.commits ≡ true
      → IsStored s.trains
      → IsStored (fetch_hacon R connection response s).1.trains
  unfolding fetch_hacon
  fetch_hacon-IsStored connection none s accepts_all opens commits stored = stored
  fetch_hacon-IsStored connection (some xml) s accepts_all opens commits stored =
      elim (Bool-cases (is_empty xml)) [
        | inl empty ↦ rw empty stored
        | inr full ↦ rw full (
            store_response-IsStored connection (parse_xml R xml) (response_hash R xml) s accepts_all
              opens commits stored)
      ]
