-- ===== src/Rail/Events/Stored.antt =====
-- What `_insert_station_events` of daemon.py stores of a response, and what it forgets.
use mathlib.Core.List.{List}
use irish_rail_nabber.Prelude.{
  String, ◌≡◌, sym, ap, ◌∙◌, Bool, true, false, not, ◌&&◌, some, ◌⊎◌, if◌then◌else◌, string_eq,
  select, any_of, arith,
}
use irish_rail_nabber.Prelude.Dict.{lookup}
use irish_rail_nabber.Prelude.Dict.Keys.{Distinct}
use irish_rail_nabber.Python.Runtime.{Runtime}
use irish_rail_nabber.Rail.Writes.{Connection, Change, Store, write_changes}
use irish_rail_nabber.Rail.Writes.Backed.{IsStored, last_fingerprint, write_changes-IsStored}
use irish_rail_nabber.Rail.Writes.Sent.{
  cache_keys, is_changed, is_refused, prepend_all, write_changes-table,
}
use irish_rail_nabber.Rail.Writes.Repeat.{write_changes-known, write_changes-same}
use irish_rail_nabber.Rail.Events.{
  StationEvent, board_changes, store_changes, insert_station_events,
}

not_stored :
    (commits refused : Bool)
    → (commits ≡ false) ⊎ (refused ≡ true)
    → (commits && not refused) ≡ false
not_stored commits refused failed = ground arith

module _ (R : Runtime) where
  -- Where the connection opens and a response names no cache key twice, `_insert_station_events` sends
  -- the events whose hash is not the one in memory. It stores all of them, in their order in front of
  -- the table, if the table refuses none and the commit arrives, and else leaves the table as it is.
  pub insert_station_events-table :
      (connection : Connection StationEvent) (station_code xml : String)
      (cs : List (Change StationEvent)) (s : Store StationEvent)
      → board_changes R station_code xml ≡ some cs
      → connection.opens ≡ true
      → Distinct (cache_keys cs)
      → let sent = select (is_changed s.hashes) cs in
        (insert_station_events R connection station_code xml s).1.table ≡ (
          if connection.commits && not (any_of (is_refused connection) sent)
          then prepend_all sent s.table
          else s.table)
  unfolding insert_station_events
  insert_station_events-table connection station_code xml cs s parsed opens distinct =
      ap (λ o. (store_changes R connection o s).1.table) parsed
      ∙ write_changes-table connection cs s opens distinct

  -- Where every row is accepted and the transaction commits, each hash in memory stays the one of the
  -- newest row with its key, and each key of the response gets the hash of its last event in it.
  pub insert_station_events-IsStored :
      (connection : Connection StationEvent) (station_code xml : String)
      (cs : List (Change StationEvent)) (s : Store StationEvent)
      → board_changes R station_code xml ≡ some cs
      → ((e : StationEvent) → connection.accepts e ≡ true)
      → connection.opens ≡ true
      → connection.commits ≡ true
      → IsStored s
      → let s' = (insert_station_events R connection station_code xml s).1 in
        IsStored s'
        × ((k : String) → lookup k s'.hashes ≡ last_fingerprint k cs (lookup k s.hashes))
  unfolding insert_station_events
  insert_station_events-IsStored connection station_code xml cs s parsed accepts_all opens commits
        stored =
      rw parsed (write_changes-IsStored connection accepts_all opens commits cs s stored)

  insert_station_events-write :
      (connection : Connection StationEvent) (station_code xml : String)
      (cs : List (Change StationEvent)) (s : Store StationEvent)
      → board_changes R station_code xml ≡ some cs
      → (insert_station_events R connection station_code xml s).1
        ≡ (write_changes connection cs s).1
  unfolding insert_station_events
  insert_station_events-write connection station_code xml cs s parsed =
      ap (λ o. (store_changes R connection o s).1) parsed

  -- Events that are sent and not stored are lost: if the commit fails, or the table refuses one of the
  -- events sent, the table stays as it is, and the same response sent again, over whatever
  -- connection, changes neither the table nor the hashes. The connection opens at first, and the
  -- response names no cache key twice.
  pub insert_station_events-lost :
      (connection connection_again : Connection StationEvent) (station_code xml : String)
      (cs : List (Change StationEvent)) (s : Store StationEvent)
      → board_changes R station_code xml ≡ some cs
      → connection.opens ≡ true
      → Distinct (cache_keys cs)
      → (connection.commits ≡ false)
        ⊎ (any_of (is_refused connection) (select (is_changed s.hashes) cs) ≡ true)
      → let s' = (insert_station_events R connection station_code xml s).1 in
        (s'.table ≡ s.table)
        × ((insert_station_events R connection_again station_code xml s').1 ≡ s')
  insert_station_events-lost connection connection_again station_code xml cs s parsed opens distinct
        failed =
      (
        insert_station_events-table connection station_code xml cs s parsed opens distinct
            ∙ ap (λ b. if b then prepend_all (select (is_changed s.hashes) cs) s.table else s.table)
                (not_stored _ _ failed),
        ap (λ t. (insert_station_events R connection_again station_code xml t).1)
              (insert_station_events-write connection station_code xml cs s parsed)
            ∙ insert_station_events-write connection_again station_code xml cs _ parsed
            ∙ write_changes-same connection_again cs _
                (write_changes-known connection cs s opens distinct)
            ∙ sym (insert_station_events-write connection station_code xml cs s parsed),
      )
