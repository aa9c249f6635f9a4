-- ===== src/Bus/Time/Clock.antt =====
-- What `parse_gtfs_time` makes of a written clock time.
use mathlib.Core.List.{[], ◌∷◌}
use Prim.Native.Char.{char}
use Prim.Native.String.{◌++◌}
use Prim.Native.String.append
use irish_rail_nabber.Prelude.{
  ℕ, ◌+◌, ◌*◌, String, Char, code, ◌≡◌, refl, ap, ◌∙◌, Bool, true, false, ◌&&◌, ◌||◌, not, some,
  arith, ltb, nat_beq, if◌then◌else◌, inl, inr, Bool-cases,
}
use irish_rail_nabber.Prelude.Result.{ok, err}
use irish_rail_nabber.Python.Text.{
  is_space, is_empty, lstrip, rstrip, strip, split_on, all_chars, int_digits,
}
use irish_rail_nabber.Python.Runtime.{Runtime}
use irish_rail_nabber.Bus.Error.{value_error}
use irish_rail_nabber.Bus.Time.{is_digits, parse_parts, parse_gtfs_time}

abbrev colon : Char
colon = char 58 tt

colon-append : (t : String) → ":" ++ t ≡ String.◌∷◌ colon t
colon-append t = append.cons colon "" t ∙ ap (String.◌∷◌ colon) (append.nil t)

abbrev is_dark : Char → Bool
is_dark c = not (is_space (code c))

abbrev is_not_colon : Char → Bool
is_not_colon c = not (nat_beq (code c) b':')

rstrip-dark : (s : String) → all_chars is_dark s ≡ true → rstrip s ≡ s
unfolding rstrip
rstrip-dark String.[] h = refl
rstrip-dark (String.◌∷◌ c s) h = elim (Bool-cases (is_space (code c))) [
  | inl e ↦ ground arith
  | inr e ↦ rw (e, rstrip-dark s (ground arith))
]

strip-dark : (s : String) → all_chars is_dark s ≡ true → strip s ≡ s
unfolding strip lstrip
strip-dark String.[] h = refl
strip-dark (String.◌∷◌ c s) h = elim (Bool-cases (is_space (code c))) [
  | inl e ↦ ground arith
  | inr e ↦ rw e (rstrip-dark (String.◌∷◌ c s) h)
]

all_chars-append :
    (p : Char → Bool) (s t : String) → all_chars p (s ++ t) ≡ (all_chars p s && all_chars p t)
all_chars-append p String.[] t = rw append.nil
all_chars-append p (String.◌∷◌ c s) t = rw append.cons (ground (arith, all_chars-append p s t))

split_on-none : (s : String) → all_chars is_not_colon s ≡ true → split_on b':' s ≡ s ∷ []
unfolding split_on
split_on-none String.[] h = refl
split_on-none (String.◌∷◌ c s) h = ground (arith, split_on-none s)

split_on-append :
    (s t : String)
    → all_chars is_not_colon s ≡ true
    → split_on b':' (s ++ ":" ++ t) ≡ s ∷ split_on b':' t
unfolding split_on
split_on-append String.[] t h = rw append.nil (ap (split_on b':') (colon-append t))
split_on-append (String.◌∷◌ c s) t h =
    ap (split_on b':') (append.cons c s (":" ++ t)) ∙ ground (arith, split_on-append s t)

colon-dark : all_chars is_dark ":" ≡ true
unfolding is_space
colon-dark = refl

-- What the model assumes of the Unicode tables here: a digit is no white space and no colon.
abbrev pub IsDigitTable : Runtime → Type 0
IsDigitTable R =
    (c : Char) → R.is_digit c ≡ true → (is_space (code c) ≡ false) × (nat_beq (code c) b':' ≡ false)

module _ (R : Runtime) (table : IsDigitTable R) where
  digits-dark : (s : String) → all_chars R.is_digit s ≡ true → all_chars is_dark s ≡ true
  digits-dark String.[] h = refl
  digits-dark (String.◌∷◌ c s) h = ground (arith, table c, digits-dark s)

  digits-not_colon : (s : String) → all_chars R.is_digit s ≡ true → all_chars is_not_colon s ≡ true
  digits-not_colon String.[] h = refl
  digits-not_colon (String.◌∷◌ c s) h = ground (arith, table c, digits-not_colon s)

  clock_text-dark :
      (h m s : String)
      → all_chars R.is_digit h ≡ true
      → all_chars R.is_digit m ≡ true
      → all_chars R.is_digit s ≡ true
      → all_chars is_dark (h ++ ":" ++ m ++ ":" ++ s) ≡ true
  clock_text-dark h m s dh dm ds = ground (
    arith,
    all_chars-append is_dark h (":" ++ m ++ ":" ++ s),
    all_chars-append is_dark ":" (m ++ ":" ++ s),
    all_chars-append is_dark m (":" ++ s),
    all_chars-append is_dark ":" s,
    colon-dark,
    digits-dark h dh,
    digits-dark m dm,
    digits-dark s ds,
  )

  is_empty-append : (s t : String) → is_empty s ≡ false → is_empty (s ++ t) ≡ false
  is_empty-append String.[] t h = cc
  is_empty-append (String.◌∷◌ c s) t h = rw append.cons

  parse_clock :
      (h m s : String)
      → is_digits R h ≡ true
      → is_digits R m ≡ true
      → is_digits R s ≡ true
      → parse_gtfs_time R (some (h ++ ":" ++ m ++ ":" ++ s)) ≡ parse_parts R (h ∷ m ∷ s ∷ [])
  unfolding parse_gtfs_time is_digits
  parse_clock h m s dh dm ds =
      let h' : all_chars R.is_digit h ≡ true = ground arith in
      let m' : all_chars R.is_digit m ≡ true = ground arith in
      let s' : all_chars R.is_digit s ≡ true = ground arith in
      let filled : is_empty h ≡ false = ground arith in
      rw (
        strip-dark (h ++ ":" ++ m ++ ":" ++ s) (clock_text-dark h m s h' m' s'),
        is_empty-append h (":" ++ m ++ ":" ++ s) filled,
        split_on-append h (m ++ ":" ++ s) (digits-not_colon h h'),
        split_on-append m s (digits-not_colon m m'),
        split_on-none s (digits-not_colon s s'),
      )

-- A time written as three texts of digits with colons between them is read as hours, minutes and
-- seconds after the start of the service day, with any number of hours. It is refused exactly if the
-- minutes or the seconds are above 59.
pub parse_gtfs_time-clock :
    (R : Runtime) (h m s : String) (hours minutes seconds : ℕ)
    → IsDigitTable R
    → is_digits R h ≡ true
    → is_digits R m ≡ true
    → is_digits R s ≡ true
    → int_digits R.digit 0 h ≡ some hours
    → int_digits R.digit 0 m ≡ some minutes
    → int_digits R.digit 0 s ≡ some seconds
    → parse_gtfs_time R (some (h ++ ":" ++ m ++ ":" ++ s)) ≡ (
        if ltb 59 minutes || ltb 59 seconds
        then err value_error
        else ok (some (hours * 3600 + minutes * 60 + seconds)))
unfolding parse_parts
parse_gtfs_time-clock R h m s hours minutes seconds table dh dm ds eh em es =
    parse_clock R table h m s dh dm ds ∙ rw (dh, dm, ds, eh, em, es)
