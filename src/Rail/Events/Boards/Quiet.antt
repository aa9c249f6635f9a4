-- ===== src/Rail/Events/Boards/Quiet.antt =====
-- A second cycle over the station boards, in which no board changed (daemon.py).
use mathlib.Core.List.{List, [], ◌∷◌}
use irish_rail_nabber.Prelude.{
  String, ◌≡◌, refl, sym, ap, ◌∙◌, true, false, Option, none, some, inl, inr, if◌then◌else◌,
  string_eq, ◌==◌, contains, or_else, Bool-cases, All, arith,
}
use irish_rail_nabber.Prelude.Dict.{lookup, lookup-insert}
use irish_rail_nabber.Prelude.Dict.Keys.{Distinct}
use irish_rail_nabber.Python.Text.{is_empty}
use irish_rail_nabber.Python.Runtime.{Runtime}
use irish_rail_nabber.Rail.Fields.{text, stable_hash, without_timestamps}
use irish_rail_nabber.Rail.Movements.{is_same}
use irish_rail_nabber.Rail.Movements.Backed.{is_same-some}
use irish_rail_nabber.Rail.Writes.{Connection}
use irish_rail_nabber.Rail.Events.{StationEvent}
use irish_rail_nabber.Rail.Events.Boards.{
  BoardState, BoardResult, no_stations, skipped, BoardLoop, board_hash, process_board,
  process_boards, codes_of, result_of, load_codes, process_codes, fetch_all_station_boards,
}

-- A later response: none, or the same but for its timestamps.
pub data Later : Option String → Option String → Type 0 where
  missing : (o : Option String) → Later o none
  same :
      (a b : String)
      → is_empty a ≡ false
      → without_timestamps b ≡ without_timestamps a
      → Later (some a) (some b)

abbrev pub quiet_result : List String → BoardResult
quiet_result [] = no_stations
quiet_result (code ∷ codes) = skipped 0

some-is_same : (o : Option String) (g h : String) → o ≡ some g → h ≡ g → is_same o h ≡ true
some-is_same o g h known equal = rw (known, equal) ((string_eq.beq_iff g g).1 refl)

module _ (R : Runtime) (connect : String → Connection StationEvent) where
  abbrev hash_of : Option String → Option String
  hash_of none = none
  hash_of (some xml) = if is_empty xml then none else some (board_hash R xml)

  abbrev hash_at : String → BoardLoop → Option String
  hash_at k l = lookup k l.state.boards_hashes

  hash_at-process_board :
      (code : String) (o : Option String) (l : BoardLoop) (k : String)
      → hash_at k (process_board R (connect code) code o l)
        ≡ (if code == k then or_else (hash_of o) (hash_at k l) else hash_at k l)
  unfolding process_board
  hash_at-process_board code none l k = ground arith
  hash_at-process_board code (some xml) l k = elim (Bool-cases (is_empty xml)) [
    | inl empty ↦ rw empty (ground arith)
    | inr full ↦ elim (Bool-cases (is_same (hash_at code l) (board_hash R xml))) [
      | inr other ↦ rw (full, other) (lookup-insert code k (board_hash R xml) l.state.boards_hashes)
      | inl known ↦
          rw (full, known)
            (elim (Bool-cases (code == k)) [
              | inr elsewhere ↦ rw elsewhere refl
              | inl here ↦ rw here (
                  ap (λ j. hash_at j l) (sym ((string_eq.beq_iff code k).0 here))
                  ∙ is_same-some _ _ known)
            ])
    ]
  ]

  module _ (fetch : String → Option String) where
    hash_at-absent :
        (codes : List String) (l : BoardLoop) (k : String)
        → contains k codes ≡ false
        → hash_at k (process_boards R connect fetch codes l) ≡ hash_at k l
    unfolding process_boards
    hash_at-absent [] l k h = refl
    hash_at-absent (code ∷ codes) l k h =
        hash_at-absent codes (process_board R (connect code) code (fetch code) l) k (ground arith)
        ∙ hash_at-process_board code (fetch code) l k
        ∙ ground arith

    -- After the cycle the hash of each response is known.
    IsKnownAt : BoardLoop → String → Type 0
    IsKnownAt l code = (h : String) → hash_of (fetch code) ≡ some h → hash_at code l ≡ some h

    process_boards-IsKnownAt :
        (codes : List String) (l : BoardLoop)
        → Distinct codes
        → All (IsKnownAt (process_boards R connect fetch codes l)) codes
    unfolding process_boards IsKnownAt
    process_boards-IsKnownAt [] l h = tt
    process_boards-IsKnownAt (code ∷ codes) l h =
        let next = process_board R (connect code) code (fetch code) l in
        (
          λ hash sent.
              hash_at-absent codes next code h.0
              ∙ hash_at-process_board code (fetch code) l code
              ∙ rw ((string_eq.beq_iff code code).1 refl, sent) refl,
          process_boards-IsKnownAt codes next h.1,
        )

  board_hash-equal :
      (a b : String) → without_timestamps a ≡ without_timestamps b → board_hash R a ≡ board_hash R b
  unfolding board_hash
  board_hash-equal a b equal = ap (λ xml. stable_hash R (text xml ∷ [])) equal

  process_board-quiet :
      (code : String) (before after : Option String) (l : BoardLoop)
      → Later before after
      → ((h : String) → hash_of before ≡ some h → hash_at code l ≡ some h)
      → process_board R (connect code) code after l ≡ l
  unfolding process_board
  process_board-quiet code before none l later known = refl
  process_board-quiet code _ _ l (same a b full equal) known = elim (Bool-cases (is_empty b)) [
    | inl empty ↦ rw empty refl
    | inr nonempty ↦
        rw
          (
            nonempty,
            some-is_same (hash_at code l) (board_hash R a) (board_hash R b)
                (known (board_hash R a) (rw full refl)) (board_hash-equal b a equal),
          )
          refl
  ]

  process_boards-quiet :
      (before after : String → Option String) (codes : List String) (l : BoardLoop)
      → ((code : String) → Later (before code) (after code))
      → All (IsKnownAt before l) codes
      → process_boards R connect after codes l ≡ l
  unfolding process_boards IsKnownAt
  process_boards-quiet before after [] l later known = refl
  process_boards-quiet before after (code ∷ codes) l later known =
      ap (process_boards R connect after codes)
        (process_board-quiet code (before code) (after code) l (later code) known.0)
      ∙ process_boards-quiet before after codes l later known.1

  station_codes-process_board :
      (code : String) (o : Option String) (l : BoardLoop)
      → (process_board R (connect code) code o l).state.station_codes ≡ l.state.station_codes
  unfolding process_board
  station_codes-process_board code none l = refl
  station_codes-process_board code (some xml) l = ground arith

  station_codes-process_boards :
      (fetch : String → Option String) (codes : List String) (l : BoardLoop)
      → (process_boards R connect fetch codes l).state.station_codes ≡ l.state.station_codes
  unfolding process_boards
  station_codes-process_boards fetch [] l = refl
  station_codes-process_boards fetch (code ∷ codes) l =
      station_codes-process_boards fetch codes (process_board R (connect code) code (fetch code) l)
      ∙ station_codes-process_board code (fetch code) l

module _ (R : Runtime) (connect connect_again : String → Connection StationEvent)
    (before after : String → Option String)
    (later : (code : String) → Later (before code) (after code)) where
  process_codes-quiet :
      (codes : List String) (s : BoardState)
      → Distinct codes
      → let s' = (process_codes R connect before codes s).1 in
        (process_codes R connect_again after codes s' ≡ (quiet_result codes, s'))
        × (s'.station_codes ≡ s.station_codes)
  unfolding IsKnownAt
  process_codes-quiet [] s h = (refl, refl)
  process_codes-quiet (code ∷ codes) s h =
      let l =
        process_boards R connect before (code ∷ codes)
          (record { changed_count = 0; total_records = 0; state = s }) in
      let known =
        process_boards-IsKnownAt R connect before (code ∷ codes)
          (record { changed_count = 0; total_records = 0; state = s }) h in
      (
        ap (λ m. (result_of R m.changed_count m.total_records, m.state))
            (process_boards-quiet R connect_again before after (code ∷ codes)
              (record { changed_count = 0; total_records = 0; state = l.state }) later known),
        station_codes-process_boards R connect before (code ∷ codes)
            (record { changed_count = 0; total_records = 0; state = s }),
      )

  codes_of-idempotent :
      (codes stations : List String)
      → codes_of R (codes_of R codes stations) stations ≡ codes_of R codes stations
  codes_of-idempotent [] [] = refl
  codes_of-idempotent [] (station ∷ stations) = refl
  codes_of-idempotent (code ∷ codes) stations = refl

  load_codes-loaded :
      (stations codes : List String) (s : BoardState)
      → s.station_codes ≡ codes_of R codes stations
      → load_codes R stations s ≡ s
  load_codes-loaded stations codes s e =
      ap (λ cs. record { boards_hashes = s.boards_hashes; station_codes = cs; events = s.events })
        (ap (λ cs. codes_of R cs stations) e ∙ codes_of-idempotent codes stations ∙ sym e)

-- A cycle over the station boards in which every response is missing, or differs from the one of the
-- cycle before in its timestamps alone, counts no record, is logged as skipped and leaves the hashes
-- and the events as they are. It does so whatever the connections did in either cycle, where no
-- station is listed twice. Without a station both cycles end at once.
pub fetch_all_station_boards-quiet :
    (R : Runtime) (connect connect_again : String → Connection StationEvent)
    (stations : List String) (before after : String → Option String) (s : BoardState)
    → ((code : String) → Later (before code) (after code))
    → Distinct (load_codes R stations s).station_codes
    → let s' = (fetch_all_station_boards R connect stations before s).1 in
      fetch_all_station_boards R connect_again stations after s'
      ≡ (quiet_result (load_codes R stations s).station_codes, s')
unfolding fetch_all_station_boards
fetch_all_station_boards-quiet R connect connect_again stations before after s later distinct =
    let loaded = load_codes R stations s in
    let found =
      process_codes-quiet R connect connect_again before after later loaded.station_codes loaded
        distinct in
    let s' = (process_codes R connect before loaded.station_codes loaded).1 in
    ap (λ t. process_codes R connect_again after t.station_codes t)
      (load_codes-loaded R connect connect_again before after later stations s.station_codes s'
        found.1)
    ∙ ap (λ codes. process_codes R connect_again after codes s') found.1
    ∙ found.0
