-- ===== src/Rail/Types/Precedence.antt =====
-- The type that `_refresh_type_map` of daemon.py gives a train that several feeds name.
use mathlib.Core.List.{List, [], ◌∷◌}
use irish_rail_nabber.Prelude.{
  ℕ, String, ◌≡◌, refl, ◌∙◌, Bool, false, not, ◌&&◌, Option, none, some, inl, inr, if◌then◌else◌,
  string_eq, ◌==◌, contains, contains-add, any_of, Bool-cases, arith,
}
use irish_rail_nabber.Prelude.Dict.{Dict, lookup, insert, lookup-insert}
use irish_rail_nabber.Python.Text.{is_empty}
use irish_rail_nabber.Python.Runtime.{Runtime}
use irish_rail_nabber.Rail.Fields.{Element, text_of}
use irish_rail_nabber.Rail.Movements.{elements_of}
use irish_rail_nabber.Rail.Types.{
  TypeState, codes_in, codes_or_none, fetch_train_codes_by_type, put_all, new_type_map, is_fresh,
  refresh_type_map,
}

lookup-put_all :
    (kind : String) (codes : List String) (d : Dict String String) (k : String)
    → lookup k (put_all kind codes d) ≡ (if contains k codes then some kind else lookup k d)
unfolding put_all
lookup-put_all kind [] d k = refl
lookup-put_all kind (code ∷ codes) d k =
    lookup-put_all kind codes (insert code kind d) k ∙ ground (arith, lookup-insert code k kind d)

-- Whether a response names a train, where it is XML.
abbrev pub names_train : Option (List Element) → String → Bool
names_train none code = false
names_train (some es) code =
    any_of (λ e. not (is_empty (text_of e "TrainCode")) && (text_of e "TrainCode" == code)) es

contains-codes_in :
    (es : List Element) (code : String)
    → contains code (codes_in "TrainCode" es) ≡ names_train (some es) code
unfolding codes_in
contains-codes_in [] code = refl
contains-codes_in (e ∷ es) code = elim (Bool-cases (is_empty (text_of e "TrainCode"))) [
  | inl empty ↦ rw empty (contains-codes_in es code)
  | inr full ↦ rw full (
      contains-add (text_of e "TrainCode") code (codes_in "TrainCode" es)
      ∙ ground (arith, contains-codes_in es code))
]

contains-codes_or_none :
    (es : Option (List Element)) (code : String)
    → contains code (codes_or_none "TrainCode" es) ≡ names_train es code
contains-codes_or_none none code = refl
contains-codes_or_none (some es) code = contains-codes_in es code

-- Suburban comes before Mainline, and Mainline before DART.
abbrev pub type_of : Bool → Bool → Bool → Option String
type_of dart mainline suburban =
    if suburban
    then some "Suburban"
    else if mainline
    then some "Mainline"
    else if dart
    then some "DART"
    else none

-- Where the map is older than the interval, `_refresh_type_map` leaves for every code the type of the
-- last of the feeds D, M and S that names it, and no type where none does. A feed without a response,
-- or with one that is no XML, names no train.
pub refresh_type_map-lookup :
    (R : Runtime) (now : ℕ) (dart mainline suburban : Option String) (s : TypeState) (code : String)
    → is_fresh now s.type_map_updated ≡ false
    → let names = λ (response : Option String). names_train (elements_of R response) code in
      lookup code (refresh_type_map R now dart mainline suburban s).type_map
      ≡ type_of (names dart) (names mainline) (names suburban)
unfolding refresh_type_map fetch_train_codes_by_type new_type_map
refresh_type_map-lookup R now dart mainline suburban s code stale =
    rw
      (
        stale,
        lookup-put_all "Suburban" (codes_or_none "TrainCode" (elements_of R suburban))
            (put_all "Mainline" (codes_or_none "TrainCode" (elements_of R mainline))
              (put_all "DART" (codes_or_none "TrainCode" (elements_of R dart)) []))
            code,
        lookup-put_all "Mainline" (codes_or_none "TrainCode" (elements_of R mainline))
            (put_all "DART" (codes_or_none "TrainCode" (elements_of R dart)) []) code,
        lookup-put_all "DART" (codes_or_none "TrainCode" (elements_of R dart)) [] code,
        contains-codes_or_none (elements_of R suburban) code,
        contains-codes_or_none (elements_of R mainline) code,
        contains-codes_or_none (elements_of R dart) code,
      )
      refl
