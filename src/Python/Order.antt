-- ===== src/Python/Order.antt =====
-- Python's `<` of texts.
use text.Mathlib.TextEquality.{Char-path}
use irish_rail_nabber.Prelude.{
  String, ◌≡◌, refl, Bool, true, false, ◌&&◌, ◌||◌, code as char_code, ltb, nat_beq, arith,
}
use irish_rail_nabber.Prelude.Sort.Order.{IsOrder}

-- `a < b` of two texts, by the numbers of their characters.
unfoldable pub text_before : String → String → Bool
text_before String.[] String.[] = false
text_before String.[] (String.◌∷◌ d t) = true
text_before (String.◌∷◌ c s) String.[] = false
text_before (String.◌∷◌ c s) (String.◌∷◌ d t) =
    let rest = text_before s t in
    ltb (char_code c) (char_code d) || (nat_beq (char_code c) (char_code d) && rest)

text_before-asym : (a b : String) → text_before a b ≡ true → text_before b a ≡ false
unfolding text_before
text_before-asym String.[] String.[] h = refl
text_before-asym String.[] (String.◌∷◌ d t) h = refl
text_before-asym (String.◌∷◌ c s) String.[] h = cc
text_before-asym (String.◌∷◌ c s) (String.◌∷◌ d t) h = ground (arith, text_before-asym s t)

text_before-connex : (a b : String) → text_before a b ≡ false → text_before b a ≡ false → a ≡ b
unfolding text_before
text_before-connex String.[] String.[] h k = refl
text_before-connex String.[] (String.◌∷◌ d t) h k = cc
text_before-connex (String.◌∷◌ c s) String.[] h k = cc
text_before-connex (String.◌∷◌ c s) (String.◌∷◌ d t) h k =
    let same : char_code c ≡ char_code d = ground arith in
    let rest : s ≡ t = text_before-connex s t (ground arith) (ground arith) in
    λ i. String.◌∷◌ (Char-path c d same i) (rest i)

text_before-transitive :
    (a b c : String) → text_before a b ≡ true → text_before b c ≡ true → text_before a c ≡ true
unfolding text_before
text_before-transitive String.[] String.[] c h k = k
text_before-transitive String.[] (String.◌∷◌ d t) String.[] h k = cc
text_before-transitive String.[] (String.◌∷◌ d t) (String.◌∷◌ e u) h k = refl
text_before-transitive (String.◌∷◌ c s) String.[] w h k = cc
text_before-transitive (String.◌∷◌ c s) (String.◌∷◌ d t) String.[] h k = cc
text_before-transitive (String.◌∷◌ c s) (String.◌∷◌ d t) (String.◌∷◌ e u) h k =
    ground (arith, text_before-transitive s t u)

pub text_before-IsOrder : IsOrder text_before
text_before-IsOrder = record {
  asym = text_before-asym;
  connex = text_before-connex;
  transitive = text_before-transitive;
}
