-- ===== src/Rail/Cleanup/Active.antt =====
-- The hashes that `cleanup_stale_hashes` of daemon.py keeps and forgets.
use mathlib.Core.List.{List, [], ◌∷◌}
use Prim.Native.String.append
use Prim.Native.String.{◌++◌}
use irish_rail_nabber.Prelude.{
  ℕ, String, ◌≡◌, refl, ap, ◌∙◌, Bool, true, false, not, ◌&&◌, Option, none, some, ◌⊎◌, inl, inr,
  code as char_code, nat_beq, if◌then◌else◌, string_eq, pair_eq, ◌==◌, contains, contains-add,
  any_of, Bool-cases, Option-cases, arith,
}
use irish_rail_nabber.Prelude.Dict.{lookup, keys}
use irish_rail_nabber.Prelude.Dict.Keys.{Distinct}
use irish_rail_nabber.Prelude.Dict.Erase.{lookup-erase_selected}
use irish_rail_nabber.Prelude.Int.{ℤ, int_eq}
use irish_rail_nabber.Python.Text.{split_on}
use irish_rail_nabber.Python.Runtime.{Runtime}
use irish_rail_nabber.Rail.Fields.{Element}
use irish_rail_nabber.Rail.Movements.{is_same, elements_of}
use irish_rail_nabber.Rail.Cleanup.{
  Hashes, train_key, active_keys, first_part, active_codes, is_stale_movement, is_stale_hacon,
  stale_parts, is_stale_at_station, remove_stale, cleanup_stale_hashes,
}

-- Whether a text has no character with the code `sep`.
abbrev pub has_no : ℕ → String → Bool
has_no sep String.[] = true
has_no sep (String.◌∷◌ c s) = not (nat_beq (char_code c) sep) && has_no sep s

true_false : {A : Type 0} → false ≡ true → A
true_false h = cc

split_on-plain : (sep : ℕ) (s : String) → has_no sep s ≡ true → split_on sep s ≡ s ∷ []
unfolding split_on
split_on-plain sep String.[] h = refl
split_on-plain sep (String.◌∷◌ c s) h = elim (Bool-cases (nat_beq (char_code c) sep)) [
  | inl found ↦ true_false (rw found at h)
  | inr other ↦ rw (other, split_on-plain sep s (rw other at h)) refl
]

colon-append : (t : String) → ":" ++ t ≡ String.◌∷◌ ":" t
colon-append t = append.cons ":" String.[] t ∙ ap (String.◌∷◌ ":") (append.nil t)

split_on-colon :
    (s t : String) → has_no b':' s ≡ true → split_on b':' (s ++ ":" ++ t) ≡ s ∷ split_on b':' t
unfolding split_on
split_on-colon String.[] t h = ap (split_on b':') (append.nil (":" ++ t) ∙ colon-append t)
split_on-colon (String.◌∷◌ c s) t h = elim (Bool-cases (nat_beq (char_code c) b':')) [
  | inl found ↦ true_false (rw found at h)
  | inr other ↦
      ap (split_on b':') (append.cons c s (":" ++ t))
      ∙ rw (other, split_on-colon s t (rw other at h)) refl
]

-- Whether a response has a train with a key.
abbrev pub is_running : List Element → String → Bool
is_running es key = any_of (λ train. is_same (train_key train) key) es

contains-active_keys :
    (es : List Element) (key : String) → contains key (active_keys es) ≡ is_running es key
unfolding active_keys
contains-active_keys [] key = refl
contains-active_keys (train ∷ es) key = elim (Option-cases (train_key train)) [
  | inl none_of ↦ rw none_of (contains-active_keys es key)
  | inr (found, e) ↦
      rw e (contains-add found key (active_keys es) ∙ ground (arith, contains-active_keys es key))
]

stale_at_station-eq :
    (active : List String) (code station date : String)
    → has_no b':' code ≡ true
    → has_no b':' station ≡ true
    → has_no b':' date ≡ true
    → is_stale_at_station active (code ++ ":" ++ station ++ ":" ++ date)
      ≡ not (contains (code ++ ":" ++ date) active)
unfolding is_stale_at_station
stale_at_station-eq active code station date plain_code plain_station plain_date =
    ap (stale_parts active) (
      split_on-colon code (station ++ ":" ++ date) plain_code
      ∙ ap (λ parts. code ∷ parts)
          (split_on-colon station date plain_station
            ∙ ap (λ parts. station ∷ parts) (split_on-plain b':' date plain_date)))

active_code :
    (active : List String) (code date : String)
    → has_no b':' code ≡ true
    → contains (code ++ ":" ++ date) active ≡ true
    → contains code (active_codes active) ≡ true
unfolding active_codes
active_code [] code date plain h = true_false h
active_code (key ∷ active) code date plain h =
    contains-add (first_part (split_on b':' key)) code (active_codes active)
    ∙ elim (Bool-cases (key == (code ++ ":" ++ date))) [
      | inl same ↦
          let part =
            ap (λ k. first_part (split_on b':' k))
              ((string_eq.beq_iff key (code ++ ":" ++ date)).0 same)
            ∙ ap first_part (split_on-colon code date plain) in
          rw ((string_eq.beq_iff (first_part (split_on b':' key)) code).1 part) refl
      | inr other ↦ ground (arith, active_code active code date plain (rw other at h))
    ]

-- Each of the three dictionaries has a key once.
abbrev pub IsDict : Hashes → Type 0
IsDict h = Distinct (keys h.movements) × Distinct (keys h.hacon) × Distinct (keys h.at_station)

-- What is left of a hash.
abbrev pub kept_if : Bool → Option String → Option String
kept_if true hash = hash
kept_if false hash = none

abbrev pub IsCleaned : List Element → Hashes → Hashes → String → String → String → ℤ → Type 0
IsCleaned es h h' code station date order =
    let running = is_running es (code ++ ":" ++ date) in
    (lookup (code, (date, (station, order))) h'.movements
      ≡ kept_if running (lookup (code, (date, (station, order))) h.movements))
    × (lookup (code ++ ":" ++ station ++ ":" ++ date) h'.at_station
        ≡ kept_if running (lookup (code ++ ":" ++ station ++ ":" ++ date) h.at_station))
    × ((running ≡ false) ⊎ (lookup code h'.hacon ≡ lookup code h.hacon))

not_if : (b : Bool) (o : Option String) → (if not b then none else o) ≡ kept_if b o
not_if true o = refl
not_if false o = refl

module _ (es : List Element) (h : Hashes) (code station date : String) where
  remove_stale-at_station :
      IsDict h
      → has_no b':' code ≡ true
      → has_no b':' station ≡ true
      → has_no b':' date ≡ true
      → lookup (code ++ ":" ++ station ++ ":" ++ date) (remove_stale (active_keys es) h).at_station
        ≡ kept_if
            (is_running es (code ++ ":" ++ date))
            (lookup (code ++ ":" ++ station ++ ":" ++ date) h.at_station)
  unfolding remove_stale
  remove_stale-at_station dict plain_code plain_station plain_date =
      lookup-erase_selected (is_stale_at_station (active_keys es))
        (code ++ ":" ++ station ++ ":" ++ date) h.at_station dict.2
      ∙ rw
          (
            stale_at_station-eq (active_keys es) code station date plain_code plain_station
                plain_date,
            contains-active_keys es (code ++ ":" ++ date),
          )
          (not_if (is_running es (code ++ ":" ++ date))
            (lookup (code ++ ":" ++ station ++ ":" ++ date) h.at_station))

  remove_stale-movements :
      (order : ℤ)
      → IsDict h
      → lookup (code, (date, (station, order))) (remove_stale (active_keys es) h).movements
        ≡ kept_if
            (is_running es (code ++ ":" ++ date))
            (lookup (code, (date, (station, order))) h.movements)
  unfolding remove_stale
  remove_stale-movements order dict =
      lookup-erase_selected (is_stale_movement (active_keys es)) (code, (date, (station, order)))
        h.movements dict.0
      ∙ rw (contains-active_keys es (code ++ ":" ++ date)) (
          not_if (is_running es (code ++ ":" ++ date))
            (lookup (code, (date, (station, order))) h.movements))

  remove_stale-hacon :
      IsDict h
      → has_no b':' code ≡ true
      → (is_running es (code ++ ":" ++ date) ≡ false)
        ⊎ (lookup code (remove_stale (active_keys es) h).hacon ≡ lookup code h.hacon)
  unfolding remove_stale
  remove_stale-hacon dict plain = elim (Bool-cases (is_running es (code ++ ":" ++ date))) [
    | inr stopped ↦ inl stopped
    | inl running ↦ inr (
        lookup-erase_selected (is_stale_hacon (active_keys es)) code h.hacon dict.1
        ∙ rw
            (active_code (active_keys es) code date plain
              (contains-active_keys es (code ++ ":" ++ date) ∙ running))
            refl)
  ]

-- After `cleanup_stale_hashes` on a response that is XML, the hash of a movement, and the one of a train
-- at a station, are as before where the response has a train with that code and date, and gone where it
-- has none. The hash of a train in the structured feed is as before where the response has a train with
-- that code and the date. Code, station and date have no colon, and each dictionary has a key once.
pub cleanup_stale_hashes-IsCleaned :
    (R : Runtime) (response : Option String) (es : List Element) (h : Hashes)
    (code station date : String) (order : ℤ)
    → elements_of R response ≡ some es
    → IsDict h
    → has_no b':' code ≡ true
    → has_no b':' station ≡ true
    → has_no b':' date ≡ true
    → IsCleaned es h (cleanup_stale_hashes R response h) code station date order
unfolding cleanup_stale_hashes
cleanup_stale_hashes-IsCleaned R response es h code station date order parsed dict plain_code
      plain_station plain_date =
    rw parsed (
      remove_stale-movements es h code station date order dict,
      remove_stale-at_station es h code station date dict plain_code plain_station plain_date,
      remove_stale-hacon es h code station date dict plain_code,
    )
