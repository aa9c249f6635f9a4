-- ===== src/Tests/Movements.antt =====
-- Movements of trains: runs and examples.
use mathlib.Core.List.{List, [], ◌∷◌}
use irish_rail_nabber.Prelude.{ℕ, zero, suc, String, ◌≡◌, refl, false, none, some}
use irish_rail_nabber.Prelude.Int.{pos}
use irish_rail_nabber.Python.Text.{is_space, lstrip, rstrip, strip, int_body, int_of_text}
use irish_rail_nabber.Python.Replace.{replace_matches, replace_text}
use irish_rail_nabber.Rail.Fields.{
  Element, parse_xml, extract_text, to_time_or_none, to_bool, stable_hash, joined,
}
use irish_rail_nabber.Rail.Movements.{
  MovementKey, MovementState, elements_of, parse_movement, parse_movements, movement_hash,
  fetch_train_movements,
}
use irish_rail_nabber.Rail.Movements.Backed.{
  latest_hash, last_hash, IsBacked, IsUpdated, fetch_train_movements-IsBacked,
}
use irish_rail_nabber.Rail.Movements.Newest.{fetch_train_movements-newest}
use irish_rail_nabber.Rail.Movements.All.{
  fetch_all_train_movements, fetch_all_train_movements-IsBacked,
}
use irish_rail_nabber.Rail.Api.{
  Attempt, answer, raised, IsTried, body_of, fetch_api, fetch_api-IsTried,
}
use irish_rail_nabber.Tests.Feed.{R, willing_session, broken_session, stop}

abbrev empty : MovementState
empty = record { hashes = []; table = [] }

fetch_train_movements-IsBacked_example :
    let s' = (fetch_train_movements R willing_session (some "stops") "1 May" empty).1 in
    IsBacked R s' × IsUpdated R empty s' "1 May" (elements_of R (some "stops"))
fetch_train_movements-IsBacked_example =
    fetch_train_movements-IsBacked R willing_session (some "stops") "1 May" empty (λ k. tt)

abbrev first_stop : MovementKey
first_stop = ("A1", ("1 May", ("CORK", pos 1)))

abbrev first_hash : String
first_hash = "A11 MayCORKNone1NoneNoneNoneNone09:00NoneFalseFalseNone"

abbrev stops : List Element
stops = stop "1" "" ∷ stop "2" "10:00" ∷ stop "1" "09:00" ∷ stop "x" "" ∷ []

stops_parsed : elements_of R (some "stops") ≡ some stops
unfolding parse_xml replace_text replace_matches
stops_parsed = refl

first_stop-sent : last_hash R first_stop (parse_movements R "1 May" stops) none ≡ some first_hash
unfolding parse_movements parse_movement extract_text strip lstrip rstrip is_space to_time_or_none
    to_bool int_of_text int_body movement_hash stable_hash joined
first_stop-sent = refl

fetch_train_movements-newest_example :
    latest_hash R first_stop
      (fetch_train_movements R willing_session (some "stops") "1 May" empty).1.table
    ≡ some first_hash
fetch_train_movements-newest_example =
    fetch_train_movements-newest R willing_session (λ m. refl) refl empty (λ k. tt) (some "stops")
      "1 May" stops stops_parsed first_stop first_hash first_stop-sent

fetch_all_train_movements-IsBacked_example :
    IsBacked R
      (fetch_all_train_movements R
        (λ n. false)
        (λ n code date. record { response = some "stops"; session = broken_session })
        (some "trains")
        empty).1
fetch_all_train_movements-IsBacked_example =
    fetch_all_train_movements-IsBacked R (λ n. false)
      (λ n code date. record { response = some "stops"; session = broken_session }) (some "trains")
      empty (λ k. tt)

-- A timeout, a server error, and a success.
abbrev attempts : ℕ → Attempt
attempts zero = raised
attempts (suc zero) = answer 500 ""
attempts (suc (suc n)) = answer 200 "<xml>"

fetch_api-IsTried_example :
    IsTried
      (body_of (attempts 0))
      (body_of (attempts 1))
      (body_of (attempts 2))
      (fetch_api attempts)
fetch_api-IsTried_example = fetch_api-IsTried attempts
