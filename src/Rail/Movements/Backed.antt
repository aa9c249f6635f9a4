-- ===== src/Rail/Movements/Backed.antt =====
-- The hashes of movements in memory, and the rows that are in the table (daemon.py).
use mathlib.Core.Path.{subst}
use mathlib.Core.List.{List, [], ◌∷◌, ◌++◌}
use irish_rail_nabber.Prelude.{
  String, ◌≡◌, refl, sym, ap, ◌∙◌, true, Option, none, some, ◌⊎◌, inl, inr, if◌then◌else◌,
  string_eq, pair_eq, ◌==◌, Bool-cases, Option-cases, some-eq, none-some,
}
use irish_rail_nabber.Prelude.Dict.{Dict, lookup, insert, keys, lookup-insert}
use irish_rail_nabber.Prelude.Dict.Keys.{Distinct, Distinct-keys-insert, lookup-update_all}
use irish_rail_nabber.Prelude.Int.{int_eq}
use irish_rail_nabber.Python.Runtime.{Runtime}
use irish_rail_nabber.Rail.Fields.{Element}
use irish_rail_nabber.Rail.Movements.{
  MovementKey, Movement, movement_key, is_same, Session, MovementState, Pending, nothing_pending,
  parse_movements, movement_hash, previous_hash, insert_movement, insert_movements, publish,
  elements_of, insert_elements, fetch_train_movements,
}

pub is_same-some : (o : Option String) (h : String) → is_same o h ≡ true → o ≡ some h
is_same-some none h e = cc
is_same-some (some g) h e = ap some ((string_eq.beq_iff g h).0 e)

key-eq : (a b : MovementKey) → (a == b) ≡ true → a ≡ b
key-eq a b h = (pair_eq.beq_iff a b).0 h

-- A known hash is the one of the newest row.
abbrev pub IsKnown : Option String → Option String → Type 0
IsKnown none latest = Unit
IsKnown (some h) latest = latest ≡ some h

module _ (R : Runtime) where
  -- The hash of the newest row with a key.
  abbrev pub latest_hash : MovementKey → List Movement → Option String
  latest_hash k [] = none
  latest_hash k (m ∷ table) =
      if movement_key m == k then some (movement_hash R m) else latest_hash k table

  -- The hash of the last movement of a list with a key, or else `o`.
  abbrev pub last_hash : MovementKey → List Movement → Option String → Option String
  last_hash k [] o = o
  last_hash k (m ∷ ms) o =
      last_hash k ms (if movement_key m == k then some (movement_hash R m) else o)

  -- Every hash in memory is the one of the newest row with its key.
  abbrev pub IsBacked : MovementState → Type 0
  IsBacked s = (k : MovementKey) → IsKnown (lookup k s.hashes) (latest_hash k s.table)

  module _ (hashes : Dict MovementKey String) (table : List Movement) where
    abbrev IsPending : Pending → Type 0
    IsPending p =
        Distinct (keys p.pending_hashes)
        × ((k : MovementKey) → IsKnown (previous_hash hashes p k) (latest_hash k (p.rows ++ table)))

    put : Movement → Pending → Pending
    put m p = record {
      pending_hashes = insert (movement_key m) (movement_hash R m) p.pending_hashes;
      rows = m ∷ p.rows;
    }

    previous_hash-put :
        (m : Movement) (p : Pending) (k : MovementKey)
        → previous_hash hashes (put m p) k
          ≡ (if movement_key m == k then some (movement_hash R m) else previous_hash hashes p k)
    unfolding put
    previous_hash-put m p k = elim (Bool-cases (movement_key m == k)) [
      | inl same ↦
          rw (lookup-insert (movement_key m) k (movement_hash R m) p.pending_hashes, same) refl
      | inr other ↦
          rw (lookup-insert (movement_key m) k (movement_hash R m) p.pending_hashes, other) refl
    ]

    put-IsKnown :
        (m : Movement) (p : Pending) (k : MovementKey)
        → IsKnown (previous_hash hashes p k) (latest_hash k (p.rows ++ table))
        → IsKnown (previous_hash hashes (put m p) k) (latest_hash k (m ∷ (p.rows ++ table)))
    put-IsKnown m p k known = elim (Bool-cases (movement_key m == k)) [
      | inl same ↦ rw (previous_hash-put m p k, same) refl
      | inr other ↦ rw (previous_hash-put m p k, other) known
    ]

    put-IsPending : (m : Movement) (p : Pending) → IsPending p → IsPending (put m p)
    unfolding put
    put-IsPending m p (distinct, known) = (
      Distinct-keys-insert (movement_key m) (movement_hash R m) p.pending_hashes distinct,
      λ k. put-IsKnown m p k (known k),
    )

    -- What one round leaves: the same, where the newest hash is the same, or the row and its hash.
    insert_movement-cases :
        (session : Session) (m : Movement) (p p' : Pending)
        → insert_movement R session hashes m p ≡ some p'
        → ((p' ≡ p) × (previous_hash hashes p (movement_key m) ≡ some (movement_hash R m)))
          ⊎ (p' ≡ put m p)
    unfolding insert_movement put
    insert_movement-cases session m p p' h =
        elim (Bool-cases (is_same (previous_hash hashes p (movement_key m)) (movement_hash R m))) [
          | inl same ↦ inl (sym (some-eq (rw same at h)), is_same-some _ _ same)
          | inr other ↦ elim (Bool-cases (session.accepts m)) [
            | inl taken ↦ inr (sym (some-eq (rw (other, taken) at h)))
            | inr refused ↦ absurd (none-some (rw (other, refused) at h))
          ]
        ]

    insert_movement-previous :
        (session : Session) (m : Movement) (p p' : Pending) (k : MovementKey)
        → insert_movement R session hashes m p ≡ some p'
        → previous_hash hashes p' k
          ≡ (if movement_key m == k then some (movement_hash R m) else previous_hash hashes p k)
    insert_movement-previous session m p p' k h = elim (insert_movement-cases session m p p' h) [
      | inl (e, found) ↦ elim (Bool-cases (movement_key m == k)) [
        | inl same ↦
            ap (λ q. previous_hash hashes q k) e
            ∙ ap (previous_hash hashes p) (sym ((key-eq (movement_key m) k same)))
            ∙ found
            ∙ rw same refl
        | inr other ↦ ap (λ q. previous_hash hashes q k) e ∙ rw other refl
      ]
      | inr e ↦ ap (λ q. previous_hash hashes q k) e ∙ previous_hash-put m p k
    ]

    insert_movement-IsPending :
        (session : Session) (m : Movement) (p p' : Pending)
        → insert_movement R session hashes m p ≡ some p'
        → IsPending p
        → IsPending p'
    insert_movement-IsPending session m p p' h pending =
        elim (insert_movement-cases session m p p' h) [
          | inl (e, found) ↦ subst IsPending (sym e) pending
          | inr e ↦ subst IsPending (sym e) (put-IsPending m p pending)
        ]

    pub insert_movements-IsPending :
        (session : Session) (ms : List Movement) (p q : Pending)
        → insert_movements R session hashes ms p ≡ some q
        → IsPending p
        → IsPending q
          × ((k : MovementKey)
              → previous_hash hashes q k ≡ last_hash k ms (previous_hash hashes p k))
    unfolding insert_movements
    insert_movements-IsPending session [] p q h pending = (
      subst IsPending (some-eq h) pending,
      λ k. ap (λ r. previous_hash hashes r k) (sym (some-eq h)),
    )
    insert_movements-IsPending session (m ∷ ms) p q h pending =
        elim (Option-cases (insert_movement R session hashes m p)) [
          | inl e ↦ absurd (none-some (rw e at h))
          | inr (p', e) ↦
              let rest =
                insert_movements-IsPending session ms p' q (rw e at h)
                  (insert_movement-IsPending session m p p' e pending) in
              (
                rest.0,
                λ k. rest.1 k ∙ ap (last_hash k ms) (insert_movement-previous session m p p' k e),
              )
        ]

  -- What a cycle does to the hashes: nothing, or the hash of each key is the one of its last movement.
  abbrev pub IsUpdated : MovementState → MovementState → String → Option (List Element) → Type 0
  IsUpdated s s' train_date none = s' ≡ s
  IsUpdated s s' train_date (some es) =
      (s' ≡ s)
      ⊎ ((k : MovementKey)
          → lookup k s'.hashes ≡ last_hash k (parse_movements R train_date es) (lookup k s.hashes))

  publish-IsBacked :
      (session : Session) (s : MovementState) (ms : List Movement) (q : Option Pending)
      → insert_movements R session s.hashes ms nothing_pending ≡ q
      → IsBacked s
      → let r = publish R session q s in
        IsBacked r.1
        × ((r.1 ≡ s)
            ⊎ ((k : MovementKey) → lookup k r.1.hashes ≡ last_hash k ms (lookup k s.hashes)))
  unfolding publish
  publish-IsBacked session s ms none h backed = (backed, inl refl)
  publish-IsBacked session s ms (some q) h backed = elim (Bool-cases session.commits) [
    | inr failed ↦ rw failed (backed, inl refl)
    | inl committed ↦
        let found =
          insert_movements-IsPending s.hashes s.table session ms nothing_pending q h (tt, backed) in
        rw committed (
          λ k. rw (lookup-update_all k s.hashes q.pending_hashes found.0.0) (found.0.1 k),
          inr (λ k. lookup-update_all k s.hashes q.pending_hashes found.0.0 ∙ found.1 k),
        )
  ]

  insert_elements-IsBacked :
      (session : Session) (es : Option (List Element)) (train_date : String) (s : MovementState)
      → IsBacked s
      → let s' = (insert_elements R session es train_date s).1 in
        IsBacked s' × IsUpdated s s' train_date es
  insert_elements-IsBacked session none train_date s backed = (backed, refl)
  insert_elements-IsBacked session (some es) train_date s backed =
      publish-IsBacked session s (parse_movements R train_date es) _ refl backed

  -- From a state in which every movement hash is the one of the newest row with its key,
  -- `_fetch_train_movements` leaves such a state, whatever the response is, whichever row is refused
  -- and whether or not the transaction commits. The state is the one before or, where the response is
  -- XML, one in which each key has the hash of its last movement in the response, and a key without
  -- one its hash from before.
  pub fetch_train_movements-IsBacked :
      (session : Session) (response : Option String) (train_date : String) (s : MovementState)
      → IsBacked s
      → let s' = (fetch_train_movements R session response train_date s).1 in
        IsBacked s' × IsUpdated s s' train_date (elements_of R response)
  unfolding fetch_train_movements
  fetch_train_movements-IsBacked session response train_date s backed =
      insert_elements-IsBacked session (elements_of R response) train_date s backed
