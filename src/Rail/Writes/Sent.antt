-- ===== src/Rail/Writes/Sent.antt =====
-- What the shared loop of daemon.py stores of a response that names no key twice, and what it does with
-- the same response again.
use mathlib.Core.List.{List, [], ◌∷◌, ◌++◌}
use irish_rail_nabber.Prelude.{
  String, ◌≡◌, refl, ap, ◌∙◌, Bool, true, false, not, ◌&&◌, Option, some, inl, inr, if◌then◌else◌,
  string_eq, contains, Bool-cases, select, any_of, All, arith,
}
use irish_rail_nabber.Prelude.Dict.{Dict, lookup, insert, lookup-insert}
use irish_rail_nabber.Prelude.Dict.Keys.{Distinct}
use irish_rail_nabber.Rail.Movements.{is_same}
use irish_rail_nabber.Rail.Writes.{
  Connection, Change, Transaction, Writer, Store, execute, insert_row, insert_change,
  insert_changes, start, commit, keep, write_changes,
}
use irish_rail_nabber.Rail.Writes.Backed.{last_fingerprint}

module _ {A : Type 0} where
  abbrev pub cache_keys : List (Change A) → List String
  cache_keys [] = []
  cache_keys (c ∷ cs) = c.cache_key ∷ cache_keys cs

  abbrev pub is_changed : Dict String String → Change A → Bool
  is_changed hashes c = not (is_same (lookup c.cache_key hashes) c.fingerprint)

  -- The changes put in front of a table, the first one deepest.
  abbrev pub prepend_all : List (Change A) → List (Change A) → List (Change A)
  prepend_all [] table = table
  prepend_all (c ∷ cs) table = prepend_all cs (c ∷ table)

  absent-last :
      (k : String) (cs : List (Change A)) (o : Option String)
      → contains k (cache_keys cs) ≡ false
      → last_fingerprint k cs o ≡ o
  absent-last k [] o h = refl
  absent-last k (c ∷ cs) o h = ground (arith, absent-last k cs o)

  later-last :
      (c : Change A) (cs ds : List (Change A))
      → All (λ d. (o : Option String) → last_fingerprint d.cache_key cs o ≡ some d.fingerprint) ds
      → All
          (λ d. (o : Option String) → last_fingerprint d.cache_key (c ∷ cs) o ≡ some d.fingerprint)
          ds
  later-last c cs [] h = tt
  later-last c cs (d ∷ ds) h = (λ o. h.0 _, later-last c cs ds h.1)

  -- With distinct keys the last hash of each change is its own.
  pub Distinct-last :
      (cs : List (Change A))
      → Distinct (cache_keys cs)
      → All (λ c. (o : Option String) → last_fingerprint c.cache_key cs o ≡ some c.fingerprint) cs
  Distinct-last [] h = tt
  Distinct-last (c ∷ cs) h = (
    λ o.
        rw ((string_eq.beq_iff c.cache_key c.cache_key).1 refl)
          (absent-last c.cache_key cs (some c.fingerprint) h.0),
    later-last c cs cs (Distinct-last cs h.1),
  )

  any_of-select :
      (test keep_it : Change A → Bool) (cs : List (Change A))
      → any_of test (select keep_it cs) ≡ any_of (λ c. keep_it c && test c) cs
  any_of-select test keep_it [] = refl
  any_of-select test keep_it (c ∷ cs) = ground (arith, any_of-select test keep_it cs)

  -- A hash that changes at another key changes no decision.
  select_changed-insert :
      (k v : String) (hashes : Dict String String) (cs : List (Change A))
      → contains k (cache_keys cs) ≡ false
      → select (is_changed (insert k v hashes)) cs ≡ select (is_changed hashes) cs
  select_changed-insert k v hashes [] h = refl
  select_changed-insert k v hashes (c ∷ cs) h = ground (
    arith,
    lookup-insert k c.cache_key v hashes,
    string_eq.beq_iff k c.cache_key,
    string_eq.beq_iff c.cache_key k,
    select_changed-insert k v hashes cs,
  )

  module _ (connection : Connection A) where
    abbrev pub execute_all : List (Change A) → Transaction A → Transaction A
    execute_all [] t = t
    execute_all (c ∷ cs) t = execute_all cs (execute connection c t).1

    pub insert_change-same :
        (c : Change A) (w : Writer A)
        → is_same (lookup c.cache_key w.known) c.fingerprint ≡ true
        → insert_change connection c w ≡ w
    unfolding insert_change
    insert_change-same c w h = ap (λ b. if b then w else insert_row connection c w) h

    insert_change-other :
        (c : Change A) (w : Writer A)
        → is_same (lookup c.cache_key w.known) c.fingerprint ≡ false
        → insert_change connection c w ≡ insert_row connection c w
    unfolding insert_change
    insert_change-other c w h = ap (λ b. if b then w else insert_row connection c w) h

    -- With distinct keys, what is sent is what changed since the cycle began.
    insert_changes-transaction :
        (cs : List (Change A)) (w : Writer A)
        → Distinct (cache_keys cs)
        → (insert_changes connection cs w).transaction
          ≡ execute_all (select (is_changed w.known) cs) w.transaction
    unfolding insert_changes insert_row
    insert_changes-transaction [] w h = refl
    insert_changes-transaction (c ∷ cs) w h =
        elim (Bool-cases (is_same (lookup c.cache_key w.known) c.fingerprint)) [
          | inl same ↦
              ap (λ v. (insert_changes connection cs v).transaction) (insert_change-same c w same)
              ∙ insert_changes-transaction cs w h.1
              ∙ rw same refl
          | inr other ↦
              ap (λ v. (insert_changes connection cs v).transaction) (insert_change-other c w other)
              ∙ insert_changes-transaction cs (insert_row connection c w) h.1
              ∙ rw (select_changed-insert c.cache_key c.fingerprint w.known cs h.0, other) refl
        ]

    abbrev pub is_refused : Change A → Bool
    is_refused c = not (connection.accepts c.row)

    execute_all-aborted :
        (cs rows : List (Change A))
        → (execute_all cs (record { is_aborted = true; rows = rows })).is_aborted ≡ true
    unfolding execute
    execute_all-aborted [] rows = refl
    execute_all-aborted (c ∷ cs) rows = execute_all-aborted cs rows

    abbrev pub IsSent : Bool → Transaction A → List (Change A) → Type 0
    IsSent true t rows = t.is_aborted ≡ true
    IsSent false t rows = (t.is_aborted ≡ false) × (t.rows ≡ rows)

    pub execute_all-IsSent :
        (cs rows : List (Change A))
        → IsSent
            (any_of is_refused cs)
            (execute_all cs (record { is_aborted = false; rows = rows }))
            (prepend_all cs rows)
    unfolding execute
    execute_all-IsSent [] rows = (refl, refl)
    execute_all-IsSent (c ∷ cs) rows = elim (Bool-cases (connection.accepts c.row)) [
      | inl taken ↦ rw taken (execute_all-IsSent cs (c ∷ rows))
      | inr refused ↦ rw refused (execute_all-aborted cs rows)
    ]

    pub prepend_all-append :
        (cs rows table : List (Change A))
        → prepend_all cs rows ++ table ≡ prepend_all cs (rows ++ table)
    prepend_all-append [] rows table = refl
    prepend_all-append (c ∷ cs) rows table = prepend_all-append cs (c ∷ rows) table

    commit-IsSent :
        (refused : Bool) (w : Writer A) (rows table : List (Change A))
        → IsSent refused w.transaction rows
        → (keep connection w (commit connection w.transaction table) table).1.table
          ≡ (if connection.commits && not refused then rows ++ table else table)
    unfolding commit
    commit-IsSent true w rows table h = elim (Bool-cases connection.commits) [
      | inl e ↦ rw (e, h) refl
      | inr e ↦ rw e refl
    ]
    commit-IsSent false w rows table h = elim (Bool-cases connection.commits) [
      | inl e ↦ rw (e, h.0, h.1) refl
      | inr e ↦ rw e refl
    ]

    -- The changes of a response that are sent are all stored, in their order, or none is: where one is
    -- refused, or where the commit fails.
    pub write_changes-table :
        (cs : List (Change A)) (s : Store A)
        → connection.opens ≡ true
        → Distinct (cache_keys cs)
        → let sent = select (is_changed s.hashes) cs in
          (write_changes connection cs s).1.table ≡ (
            if connection.commits && not (any_of is_refused sent)
            then prepend_all sent s.table
            else s.table)
    unfolding write_changes
    write_changes-table cs s opens distinct =
        let sent = select (is_changed s.hashes) cs in
        let w = insert_changes connection cs (start connection s) in
        rw opens (
          commit-IsSent (any_of is_refused sent) w (prepend_all sent []) s.table (
            rw (insert_changes-transaction cs (start connection s) distinct)
              (execute_all-IsSent sent []))
          ∙ rw (prepend_all-append sent [] s.table) refl)
