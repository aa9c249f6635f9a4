-- ===== src/Rail/Late/Bounds.antt =====
-- Which delays `normalize_late_minutes` of daemon.py keeps.
use mathlib.Core.List.{List, [], ◌∷◌}
use irish_rail_nabber.Prelude.{
  ◌+◌, ◌<◌, String, ◌≡◌, refl, Bool, true, false, not, ◌&&◌, Option, none, some, ◌⊎◌, inl, inr,
  arith, ltb, if◌then◌else◌, ◌==◌,
}
use irish_rail_nabber.Prelude.Int.{ℤ, pos, negsuc, int_eq, ltb_ℤ, abs_ℤ, pos_part, neg_part}
use irish_rail_nabber.Python.Runtime.{Runtime}
use irish_rail_nabber.Rail.Late.{
  or_minutes, unless_midnight, time_to_minutes, normalize_late_minutes, scheduled_minutes,
  expected_minutes, is_wrapped,
}

-- `a < b`
abbrev pub IsBefore : ℤ → ℤ → Type 0
IsBefore a b = pos_part a + neg_part b < pos_part b + neg_part a

-- What `or` takes for true: a known time that is not 0 minutes.
abbrev pub is_known : Option ℤ → Bool
is_known none = false
is_known (some n) = not (n == pos 0)

-- The first of the times that is known, or else the last of them.
abbrev pub first_known : List (Option ℤ) → Option ℤ
first_known [] = none
first_known (t ∷ []) = t
first_known (t ∷ u ∷ ts) = if is_known t then t else first_known (u ∷ ts)

or_minutes-first : (a b : Option ℤ) → or_minutes a b ≡ (if is_known a then a else b)
or_minutes-first none b = refl
or_minutes-first (some n) b = ground arith

-- Both times are known, and the expected one is before the scheduled one.
abbrev pub IsBeforeKnown : Option ℤ → Option ℤ → Type 0
IsBeforeKnown expected scheduled =
    (e : ℤ) × (s : ℤ) × ((expected ≡ some e) × (scheduled ≡ some s) × IsBefore e s)

is_wrapped-IsBeforeKnown :
    (scheduled expected : Option ℤ)
    → is_wrapped scheduled expected ≡ true
    → IsBeforeKnown expected scheduled
is_wrapped-IsBeforeKnown (some s) (some e) h = (e, s, (refl, refl, ground (arith, h)))
is_wrapped-IsBeforeKnown none expected h = cc
is_wrapped-IsBeforeKnown (some s) none h = cc

IsBeforeKnown-is_wrapped :
    (scheduled expected : Option ℤ)
    → IsBeforeKnown expected scheduled
    → is_wrapped scheduled expected ≡ true
IsBeforeKnown-is_wrapped scheduled expected (e, s, (p, q, h)) = rw (p, q) (ground (arith, h))

early-lt : (late : ℤ) → ltb_ℤ late (negsuc 59) ≡ true → 60 < neg_part late
early-lt (pos n) h = ground arith
early-lt (negsuc n) h = ground arith

lt-early : (late : ℤ) → 60 < neg_part late → ltb_ℤ late (negsuc 59) ≡ true
lt-early (pos n) h = ground arith
lt-early (negsuc n) h = ground arith

module _ (R : Runtime) (scheduled_arrival scheduled_departure : Option String)
    (expected_arrival expected_departure : Option String) where
  -- The arrival that is scheduled and not written 00:00, the departure that is, and then either.
  abbrev pub scheduled : Option ℤ
  scheduled = first_known (
      time_to_minutes R (unless_midnight scheduled_arrival)
      ∷ time_to_minutes R (unless_midnight scheduled_departure)
      ∷ time_to_minutes R scheduled_arrival
      ∷ time_to_minutes R scheduled_departure
      ∷ [])

  abbrev pub expected : Option ℤ
  expected =
      first_known (time_to_minutes R expected_arrival ∷ time_to_minutes R expected_departure ∷ [])

  scheduled_minutes-first : scheduled_minutes R scheduled_arrival scheduled_departure ≡ scheduled
  unfolding scheduled_minutes
  scheduled_minutes-first =
      rw
        (or_minutes-first (time_to_minutes R scheduled_arrival)
          (time_to_minutes R scheduled_departure))
        (rw
          (or_minutes-first (time_to_minutes R (unless_midnight scheduled_departure)) (
            if is_known (time_to_minutes R scheduled_arrival)
            then time_to_minutes R scheduled_arrival
            else time_to_minutes R scheduled_departure))
          (or_minutes-first (time_to_minutes R (unless_midnight scheduled_arrival)) _))

  expected_minutes-first : expected_minutes R expected_arrival expected_departure ≡ expected
  unfolding expected_minutes
  expected_minutes-first = or_minutes-first (time_to_minutes R expected_arrival) _

  -- A delay that cannot be: more than 12 hours, or more than an hour early where the expected time is
  -- before the scheduled one.
  abbrev pub IsGarbage : ℤ → Type 0
  IsGarbage late = (720 < abs_ℤ late) ⊎ ((60 < neg_part late) × IsBeforeKnown expected scheduled)

  IsGarbage-cases :
      (late : ℤ) (far early wrapped : Bool)
      → ltb 720 (abs_ℤ late) ≡ far
      → ltb_ℤ late (negsuc 59) ≡ early
      → is_wrapped scheduled expected ≡ wrapped
      → let result = if far then none else if early && wrapped then none else some late in
        ((result ≡ some late) × ¬ IsGarbage late) ⊎ ((result ≡ none) × IsGarbage late)
  IsGarbage-cases late true early wrapped a b c = inr (refl, inl (ground (arith, a)))
  IsGarbage-cases late false true true a b c =
      inr (refl, inr (early-lt late b, is_wrapped-IsBeforeKnown scheduled expected c))
  IsGarbage-cases late false false wrapped a b c = inl (
    refl,
    λ g. elim g [
      | inl far ↦ ground (arith, a, far)
      | inr (early, before) ↦ ground (arith, b, lt-early late early)
    ],
  )
  IsGarbage-cases late false true false a b c = inl (
    refl,
    λ g. elim g [
      | inl far ↦ ground (arith, a, far)
      | inr (early, before) ↦ ground (arith, c, IsBeforeKnown-is_wrapped scheduled expected before)
    ],
  )

-- Of a known delay exactly these are dropped, and all others are kept as they are: a delay of more than
-- 12 hours, late or early; and one of more than an hour early where the expected time is before the
-- scheduled one, both of them known. The expected time is the arrival, or else the departure; the
-- scheduled time is the arrival unless it is written 00:00, or else the departure unless it is, or else
-- the arrival, or else the departure; a time of 0 minutes counts as unknown but for the last in the row.
pub normalize_late_minutes_bounds :
    (R : Runtime) (late : ℤ)
    (scheduled_arrival scheduled_departure expected_arrival expected_departure : Option String)
    → let result =
        normalize_late_minutes R
          (some late)
          scheduled_arrival
          scheduled_departure
          expected_arrival
          expected_departure in
      let garbage =
        IsGarbage R scheduled_arrival scheduled_departure expected_arrival expected_departure
          late in
      ((result ≡ some late) × ¬ garbage) ⊎ ((result ≡ none) × garbage)
unfolding normalize_late_minutes
normalize_late_minutes_bounds R late sa sd ea ed =
    rw (scheduled_minutes-first R sa sd ea ed, expected_minutes-first R sa sd ea ed)
      (IsGarbage-cases R sa sd ea ed late _ _ _ refl refl refl)
