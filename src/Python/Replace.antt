-- ===== src/Python/Replace.antt =====
-- Replacements in texts: `str.replace` and `re.sub` with the empty text.
use Prim.Native.String.{[], ◌∷◌, ◌++◌}
use irish_rail_nabber.Prelude.{
  ℕ, zero, suc, ◌-◌, String, code, Bool, true, false, ◌&&◌, Option, none, some, nat_beq,
  if◌then◌else◌,
}
use irish_rail_nabber.Python.Text.{text_length}

-- `text.startswith(pattern)`
abbrev pub starts_with : String → String → Bool
starts_with [] s = true
starts_with (p ∷ pattern) [] = false
starts_with (p ∷ pattern) (c ∷ s) = nat_beq (code p) (code c) && starts_with pattern s

-- The text with the matches replaced, from left to right. `match_at` gives the length of a match at
-- the start of a text, less 1; `skip` characters belong to a match that has been replaced.
unfoldable pub replace_matches : (String → Option ℕ) → String → ℕ → String → String
replace_matches match_at new skip [] = []
replace_matches match_at new (suc skip) (c ∷ s) = replace_matches match_at new skip s
replace_matches match_at new zero (c ∷ s) = elim (match_at (c ∷ s)) [
  | none ↦ c ∷ replace_matches match_at new zero s
  | some n ↦ new ++ replace_matches match_at new n s
]

abbrev match_text : String → String → Option ℕ
match_text old s = if starts_with old s then some (text_length old - 1) else none

-- `text.replace(old, new)` for a text `old` that is not empty.
unfoldable pub replace_text : String → String → String → String
unfolding replace_matches
replace_text old new s = replace_matches (match_text old) new zero s
