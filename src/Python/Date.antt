-- ===== src/Python/Date.antt =====
-- `datetime.date`: a year, a month and a day that the constructor has checked.
use irish_rail_nabber.Prelude.{
  ℕ, ◌%◌, Bool, ◌&&◌, ◌||◌, not, Option, none, some, leb, nat_beq, if◌then◌else◌,
}

pub record Date : Type 0 where
  pub year : ℕ
  pub month : ℕ
  pub day : ℕ

unfoldable pub is_leap : ℕ → Bool
is_leap y = nat_beq (y % 4) 0 && (not (nat_beq (y % 100) 0) || nat_beq (y % 400) 0)

unfoldable pub days_in_month : ℕ → ℕ → ℕ
unfolding is_leap
days_in_month y m =
    if nat_beq m 2
    then (if is_leap y then 29 else 28)
    else if nat_beq m 4 || nat_beq m 6 || nat_beq m 9 || nat_beq m 11
    then 30
    else 31

unfoldable pub is_calendar_date : ℕ → ℕ → ℕ → Bool
unfolding days_in_month
is_calendar_date y m d =
    leb 1 y && leb y 9999 && leb 1 m && leb m 12 && leb 1 d && leb d (days_in_month y m)

-- `date(year, month, day)`; `none` is `ValueError`.
unfoldable pub make_date : ℕ → ℕ → ℕ → Option Date
unfolding is_calendar_date
make_date y m d =
    if is_calendar_date y m d then some (record { year = y; month = m; day = d }) else none
