-- ===== src/Tests/Rail.antt =====
-- Delays at the rail boards.
use irish_rail_nabber.Prelude.{◌≡◌, refl, none, some, ◌⊎◌}
use irish_rail_nabber.Prelude.Int.{negsuc}
use irish_rail_nabber.Python.Text.{is_space, lstrip, rstrip, strip, split_on, int_body, int_of_text}
use irish_rail_nabber.Rail.Late.{
  normalize_late_minutes, time_to_minutes, scheduled_minutes, expected_minutes,
}
use irish_rail_nabber.Rail.Late.Bounds.{IsGarbage, normalize_late_minutes_bounds}
use irish_rail_nabber.Tests.Realtime.{R}

-- An expected time at midnight is taken for an unknown one, and one after it is not.
midnight-kept :
    normalize_late_minutes R (some (negsuc 199)) (some "23:50") none (some "00:00") none
    ≡ some (negsuc 199)
unfolding normalize_late_minutes scheduled_minutes expected_minutes time_to_minutes int_of_text
    int_body strip lstrip rstrip is_space split_on
midnight-kept = refl

after_midnight-dropped :
    normalize_late_minutes R (some (negsuc 199)) (some "23:50") none (some "00:01") none ≡ none
unfolding normalize_late_minutes scheduled_minutes expected_minutes time_to_minutes int_of_text
    int_body strip lstrip rstrip is_space split_on
after_midnight-dropped = refl

normalize_late_minutes_bounds_example :
    let result =
      normalize_late_minutes R (some (negsuc 199)) (some "23:50") none (some "00:01") none in
    let garbage = IsGarbage R (some "23:50") none (some "00:01") none (negsuc 199) in
    ((result ≡ some (negsuc 199)) × ¬ garbage) ⊎ ((result ≡ none) × garbage)
normalize_late_minutes_bounds_example =
    normalize_late_minutes_bounds R (negsuc 199) (some "23:50") none (some "00:01") none
