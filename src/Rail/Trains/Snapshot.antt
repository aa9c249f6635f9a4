-- ===== src/Rail/Trains/Snapshot.antt =====
-- What `fetch_trains` of daemon.py skips, and what it stores.
use mathlib.Core.List.{List, [], ◌∷◌, ◌++◌, map, Permᴰ}
use irish_rail_nabber.Prelude.{
  ℕ, String, ◌≡◌, refl, sym, ap, ◌∙◌, Bool, true, false, not, ◌&&◌, Option, some, inl, inr,
  if◌then◌else◌, string_eq, Bool-cases, any_of, select,
}
use irish_rail_nabber.Prelude.Sort.Order.{sort-Permᴰ}
use irish_rail_nabber.Python.Order.{text_before, text_before-IsOrder}
use irish_rail_nabber.Python.Runtime.{Runtime}
use irish_rail_nabber.Rail.Fields.{Element, text, stable_hash}
use irish_rail_nabber.Rail.Movements.{is_same, elements_of}
use irish_rail_nabber.Rail.Writes.{Connection, Change, Transaction, execute, commit}
use irish_rail_nabber.Rail.Writes.Sent.{
  is_refused, prepend_all, prepend_all-append, execute_all, IsSent, execute_all-IsSent,
}
use irish_rail_nabber.Rail.Hacon.{FetchResult, skipped}
use irish_rail_nabber.Rail.Movements.Backed.{is_same-some}
use irish_rail_nabber.Rail.Types.{TypeState, refresh_type_map}
use irish_rail_nabber.Rail.Trains.{
  Snapshot, TrainState, trains_data, trains_hash, train_rows, send_rows, store_snapshot,
  store_elements, fetch_trains,
}
use irish_rail_nabber.Rail.Trains.Coded.{
  has_code, places, trains_data-Permᴰ, stored_train, train_rows-stored,
}

trains_hash-Permᴰ :
    (R : Runtime) (es fs : List Element)
    → Permᴰ (trains_data es) (trains_data fs)
    → trains_hash R es ≡ trains_hash R fs
unfolding trains_hash
trains_hash-Permᴰ R es fs p =
    ap (λ texts. stable_hash R (map text texts))
      (sort-Permᴰ text_before text_before-IsOrder (trains_data es) (trains_data fs) p)

module _ (R : Runtime) (connection : Connection (Snapshot R)) (now : ℕ)
    (dart mainline suburban : Option String) where
  abbrev hash_after : FetchResult × TrainState (Snapshot R) → Option String
  hash_after r = r.1.prev_trains_hash

  store_snapshot-hash :
      (es : List Element) (types : TypeState) (table : List (Change (Snapshot R)))
      → hash_after (store_snapshot R connection now dart mainline suburban es types table)
        ≡ some (trains_hash R es)
  unfolding store_snapshot commit
  store_snapshot-hash es types table = elim (Bool-cases connection.opens) [
    | inr closed ↦ rw closed refl
    | inl opened ↦ elim (Bool-cases connection.commits) [
      | inl committed ↦ rw (opened, committed) refl
      | inr broken ↦ rw (opened, broken) refl
    ]
  ]

  store_elements-hash :
      (es : List Element) (s : TrainState (Snapshot R))
      → hash_after (store_elements R connection now dart mainline suburban (some es) s)
        ≡ some (trains_hash R es)
  store_elements-hash es s = elim (Bool-cases (is_same s.prev_trains_hash (trains_hash R es))) [
    | inl known ↦ rw known (is_same-some s.prev_trains_hash (trains_hash R es) known)
    | inr new ↦
        rw new
          (store_snapshot-hash es (refresh_type_map R now dart mainline suburban s.types) s.table)
  ]

  store_elements-known :
      (es : List Element) (s : TrainState (Snapshot R))
      → s.prev_trains_hash ≡ some (trains_hash R es)
      → store_elements R connection now dart mainline suburban (some es) s ≡ (skipped, s)
  store_elements-known es s known =
      ap
        (λ b.
          if b
          then (skipped, s)
          else store_snapshot R connection now dart mainline suburban es
              (refresh_type_map R now dart mainline suburban s.types) s.table)
        (ap (λ o. is_same o (trains_hash R es)) known
          ∙ (string_eq.beq_iff (trains_hash R es) (trains_hash R es)).1 refl)

  send_rows-execute_all :
      (cs : List (Change (Snapshot R))) (t : Transaction (Snapshot R)) (n : ℕ)
      → (send_rows connection cs t n).0 ≡ execute_all connection cs t
  unfolding send_rows
  send_rows-execute_all [] t n = refl
  send_rows-execute_all (c ∷ cs) t n = send_rows-execute_all cs (execute connection c t).1 _

  commit-table :
      (es : List Element) (types : TypeState) (table : List (Change (Snapshot R))) (refused : Bool)
      → connection.opens ≡ true
      → IsSent connection refused
          (send_rows connection
            (train_rows R types.type_map es)
            (record { is_aborted = false; rows = [] })
            0).0
          (prepend_all (train_rows R types.type_map es) [])
      → (store_snapshot R connection now dart mainline suburban es types table).1.table ≡ (
          if connection.commits && not refused
          then prepend_all (train_rows R types.type_map es) [] ++ table
          else table)
  unfolding store_snapshot commit
  commit-table es types table true opened h = elim (Bool-cases connection.commits) [
    | inl e ↦ rw (opened, e, h) refl
    | inr e ↦ rw (opened, e) refl
  ]
  commit-table es types table false opened h = elim (Bool-cases connection.commits) [
    | inl e ↦ rw (opened, e, h.0, h.1) refl
    | inr e ↦ rw (opened, e) refl
  ]

-- After a cycle over a response that is XML, a response whose trains with a code have the same codes and
-- coordinates, in whatever order, is skipped, whatever else it says of the trains and whether or not the
-- first one was stored.
pub fetch_trains-order :
    (R : Runtime) (connection connection_again : Connection (Snapshot R)) (now now_again : ℕ)
    (dart mainline suburban dart_again mainline_again suburban_again : Option String)
    (response response_again : Option String) (es fs : List Element) (s : TrainState (Snapshot R))
    → elements_of R response ≡ some es
    → elements_of R response_again ≡ some fs
    → Permᴰ (places fs) (places es)
    → let s' = (fetch_trains R connection now dart mainline suburban response s).1 in
      fetch_trains R connection_again now_again dart_again mainline_again suburban_again
        response_again s'
      ≡ (skipped, s')
unfolding fetch_trains
fetch_trains-order R connection connection_again now now_again dart mainline suburban dart_again
      mainline_again suburban_again response response_again es fs s parsed parsed_again permuted =
    ap
      (λ o.
        store_elements R connection_again now_again dart_again mainline_again suburban_again o
          (store_elements R connection now dart mainline suburban (elements_of R response) s).1)
      parsed_again
    ∙ store_elements-known R connection_again now_again dart_again mainline_again suburban_again fs
        (store_elements R connection now dart mainline suburban (elements_of R response) s).1
        (ap
            (λ o.
              hash_after R connection now dart mainline suburban
                (store_elements R connection now dart mainline suburban o s))
            parsed
          ∙ store_elements-hash R connection now dart mainline suburban es s
          ∙ ap some (sym (trains_hash-Permᴰ R fs es (trains_data-Permᴰ fs es permuted))))

-- Where a response is XML, its hash is not the last one and the connection opens, `fetch_trains` stores
-- each train that has a code, in their order in front of the table, with its fields, the coordinates
-- if they lie in Ireland, and the type that the refreshed map has for its code, if the table refuses none and the commit arrives, and else leaves the table as it is.
pub fetch_trains-table :
    (R : Runtime) (connection : Connection (Snapshot R)) (now : ℕ)
    (dart mainline suburban response : Option String) (es : List Element)
    (s : TrainState (Snapshot R))
    → elements_of R response ≡ some es
    → is_same s.prev_trains_hash (trains_hash R es) ≡ false
    → connection.opens ≡ true
    → let types = refresh_type_map R now dart mainline suburban s.types in
      let rows = map (stored_train R types.type_map) (select has_code es) in
      (fetch_trains R connection now dart mainline suburban response s).1.table ≡ (
        if connection.commits && not (any_of (is_refused connection) rows)
        then prepend_all rows s.table
        else s.table)
unfolding fetch_trains
fetch_trains-table R connection now dart mainline suburban response es s parsed new opened =
    let types = refresh_type_map R now dart mainline suburban s.types in
    let rows = train_rows R types.type_map es in
    rw (parsed, new, ← train_rows-stored R types.type_map es)
      (commit-table R connection now dart mainline suburban es types s.table
          (any_of (is_refused connection) rows) opened
          (rw
            (send_rows-execute_all R connection now dart mainline suburban rows
              (record { is_aborted = false; rows = [] }) 0)
            (execute_all-IsSent connection rows []))
        ∙ rw (prepend_all-append connection rows [] s.table) refl)
