-- ===== src/Bus/Schedule/Spacing.antt =====
-- The time between two slots of the token (bus_daemon.py).
use mathlib.Core.List.{List, [], ◌∷◌}
use irish_rail_nabber.Prelude.{
  ℕ, ◌+◌, ◌≤◌, ◌≡◌, refl, true, false, ◌&&◌, Option, none, some, arith, inl, inr, Bool-cases, leb,
}
use irish_rail_nabber.Bus.Schedule.{
  Attempt, FetchSchedule, realtime_interval_seconds, reservation_seconds, reserved_until, is_due,
  taken, reserve, granted_attempts,
}

-- The slot of an attempt is not given again for 61 seconds: 60 of the token's limit, and 1 more.
abbrev pub slot_end : Attempt → ℕ
slot_end a = a.read_next + 61000000

-- Each attempt of a list is checked at or after the end of the slot before it, the first at or after
-- `bound`.
abbrev pub IsSpacedFrom : ℕ → List Attempt → Type 0
IsSpacedFrom bound [] = Unit
IsSpacedFrom bound (a ∷ attempts) = (bound ≤ a.read_due) × IsSpacedFrom (slot_end a) attempts

-- The same with no bound on the first.
abbrev pub IsSpaced : List Attempt → Type 0
IsSpaced [] = Unit
IsSpaced (a ∷ attempts) = IsSpacedFrom (slot_end a) attempts

slot_end-le : (a : Attempt) → slot_end a ≤ reserved_until a
unfolding reserved_until reservation_seconds realtime_interval_seconds
slot_end-le a = ground arith

due-le : (next now bound : ℕ) → leb next now ≡ true → bound ≤ next → bound ≤ now
due-le next now bound h le = ground arith

reserve-taken :
    (a : Attempt) (s : FetchSchedule)
    → (s.enabled && is_due s.next_fetch a.read_due) ≡ true
    → reserve a (some s) ≡ some (taken a)
unfolding reserve
reserve-taken a s h = rw h refl

reserve-refused :
    (a : Attempt) (s : FetchSchedule)
    → (s.enabled && is_due s.next_fetch a.read_due) ≡ false
    → reserve a (some s) ≡ none
unfolding reserve
reserve-refused a s h = rw h refl

-- The check of an attempt that gets the slot, against a bound of the row.
abbrev IsBounded : ℕ → FetchSchedule → Type 0
IsBounded bound s = (next : ℕ) × (s.next_fetch ≡ some next) × (bound ≤ next)

due-bound :
    (a : Attempt) (s : FetchSchedule) (bound : ℕ)
    → (s.enabled && is_due s.next_fetch a.read_due) ≡ true
    → IsBounded bound s
    → bound ≤ a.read_due
due-bound a s bound due (next, e, le) =
    due-le next a.read_due bound (ground (arith, rw e at due)) le

granted-IsSpacedFrom :
    (attempts : List Attempt) (s : FetchSchedule) (bound : ℕ)
    → IsBounded bound s
    → IsSpacedFrom bound (granted_attempts attempts (some s))
unfolding granted_attempts taken
granted-IsSpacedFrom [] s bound h = tt
granted-IsSpacedFrom (a ∷ attempts) s bound h =
    elim (Bool-cases (s.enabled && is_due s.next_fetch a.read_due)) [
      | inl due ↦ rw (reserve-taken a s due) (
        due-bound a s bound due h,
        granted-IsSpacedFrom attempts (taken a) (slot_end a)
            (reserved_until a, refl, slot_end-le a),
      )
      | inr not_due ↦ rw (reserve-refused a s not_due) (granted-IsSpacedFrom attempts s bound h)
    ]

-- However many daemons try, with whatever configured intervals and whatever the row holds at first: of
-- two attempts that get the slot one after the other, the second is checked at least 61 seconds after
-- the instant that the first one read for its reservation.
pub granted_attempts-IsSpaced :
    (attempts : List Attempt) (row : Option FetchSchedule)
    → IsSpaced (granted_attempts attempts row)
unfolding granted_attempts reserve taken
granted_attempts-IsSpaced [] row = tt
granted_attempts-IsSpaced (a ∷ attempts) none =
    granted-IsSpacedFrom attempts (taken a) (slot_end a) (reserved_until a, refl, slot_end-le a)
granted_attempts-IsSpaced (a ∷ attempts) (some s) =
    elim (Bool-cases (s.enabled && is_due s.next_fetch a.read_due)) [
      | inl due ↦ rw due (
          granted-IsSpacedFrom attempts (taken a) (slot_end a)
            (reserved_until a, refl, slot_end-le a))
      | inr not_due ↦ rw not_due (granted_attempts-IsSpaced attempts (some s))
    ]
