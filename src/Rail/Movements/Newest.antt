-- ===== src/Rail/Movements/Newest.antt =====
-- A cycle of train movements in which no row is refused and the transaction commits (daemon.py).
use mathlib.Core.List.{List, [], ◌∷◌}
use irish_rail_nabber.Prelude.{
  String, ◌≡◌, refl, ◌∙◌, true, Option, none, some, inl, inr, string_eq, pair_eq, ◌==◌, Bool-cases,
}
use irish_rail_nabber.Prelude.Dict.{Dict, lookup, insert}
use irish_rail_nabber.Prelude.Dict.Keys.{lookup-update_all}
use irish_rail_nabber.Prelude.Int.{int_eq}
use irish_rail_nabber.Python.Runtime.{Runtime}
use irish_rail_nabber.Rail.Fields.{Element}
use irish_rail_nabber.Rail.Movements.{
  MovementKey, Movement, movement_key, is_same, Session, MovementState, Pending, nothing_pending,
  parse_movements, movement_hash, previous_hash, insert_movement, insert_movements, publish,
  elements_of, insert_elements, fetch_train_movements,
}
use irish_rail_nabber.Rail.Movements.Backed.{
  last_hash, latest_hash, IsBacked, insert_movements-IsPending, fetch_train_movements-IsBacked,
}

last_hash-sent :
    (R : Runtime) (k : MovementKey) (ms : List Movement) (o : Option String) (hash : String)
    → last_hash R k ms none ≡ some hash
    → last_hash R k ms o ≡ some hash
last_hash-sent R k [] o hash h = cc
last_hash-sent R k (m ∷ ms) o hash h = elim (Bool-cases (movement_key m == k)) [
  | inl same ↦ rw same (rw same at h)
  | inr other ↦ rw other (last_hash-sent R k ms o hash (rw other at h))
]

module _ (R : Runtime) (session : Session)
    (accepts_all : (m : Movement) → session.accepts m ≡ true) where
  insert_movement-returns :
      (hashes : Dict MovementKey String) (m : Movement) (p : Pending)
      → (q : Pending) × (insert_movement R session hashes m p ≡ some q)
  unfolding insert_movement
  insert_movement-returns hashes m p =
      elim (Bool-cases (is_same (previous_hash hashes p (movement_key m)) (movement_hash R m))) [
        | inl same ↦ (p, rw same refl)
        | inr other ↦ (
          record {
            pending_hashes = insert (movement_key m) (movement_hash R m) p.pending_hashes;
            rows = m ∷ p.rows;
          },
          rw (other, accepts_all m) refl,
        )
      ]

  insert_movements-returns :
      (hashes : Dict MovementKey String) (ms : List Movement) (p : Pending)
      → (q : Pending) × (insert_movements R session hashes ms p ≡ some q)
  unfolding insert_movements
  insert_movements-returns hashes [] p = (p, refl)
  insert_movements-returns hashes (m ∷ ms) p =
      let (q, e) = insert_movement-returns hashes m p in rw e (insert_movements-returns hashes ms q)

  module _ (commits : session.commits ≡ true) (s : MovementState) (backed : IsBacked R s) where
    publish-last :
        (ms : List Movement) (k : MovementKey) (q : Pending)
        → insert_movements R session s.hashes ms nothing_pending ≡ some q
        → lookup k (publish R session (some q) s).1.hashes ≡ last_hash R k ms (lookup k s.hashes)
    unfolding publish
    publish-last ms k q e =
        let found =
          insert_movements-IsPending R s.hashes s.table session ms nothing_pending q e
            (tt, backed) in
        rw commits (lookup-update_all k s.hashes q.pending_hashes found.0.0 ∙ found.1 k)

    publish_all-last :
        (ms : List Movement) (k : MovementKey)
        → lookup k
            (publish R session (insert_movements R session s.hashes ms nothing_pending) s).1.hashes
          ≡ last_hash R k ms (lookup k s.hashes)
    publish_all-last ms k =
        let (q, e) = insert_movements-returns s.hashes ms nothing_pending in
        rw e (publish-last ms k q e)

    insert_elements-last :
        (es : Option (List Element)) (train_date : String) (known : List Element) (k : MovementKey)
        → es ≡ some known
        → lookup k (insert_elements R session es train_date s).1.hashes
          ≡ last_hash R k (parse_movements R train_date known) (lookup k s.hashes)
    insert_elements-last es train_date known k e =
        rw e (publish_all-last (parse_movements R train_date known) k)

-- Where no row is refused and the transaction commits, a response that is XML leaves a table whose
-- newest row for each movement of the response has the hash of the last movement with its key, from
-- a state in which every hash in memory is the one of the newest row.
pub fetch_train_movements-newest :
    (R : Runtime) (session : Session) (accepts_all : (m : Movement) → session.accepts m ≡ true)
    (commits : session.commits ≡ true) (s : MovementState) (backed : IsBacked R s)
    (response : Option String) (train_date : String) (es : List Element)
    (is_xml : elements_of R response ≡ some es) (k : MovementKey) (hash : String)
    (sent : last_hash R k (parse_movements R train_date es) none ≡ some hash)
    → latest_hash R k (fetch_train_movements R session response train_date s).1.table ≡ some hash
unfolding fetch_train_movements
fetch_train_movements-newest R session accepts_all commits s backed response train_date es is_xml k
      hash sent =
    let after =
      insert_elements-last R session accepts_all commits s backed (elements_of R response)
        train_date es k is_xml in
    let known = (fetch_train_movements-IsBacked R session response train_date s backed).0 k in
    rw (after, last_hash-sent R k (parse_movements R train_date es) (lookup k s.hashes) hash sent)
      at known
