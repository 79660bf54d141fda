-- ===== src/Ssh/Texts/Case.antt =====
-- str.lower of an ASCII text, as xcat3/common/utils.py normalises addresses with it.
use Prim.Native.Char.{Char, code}
use Prim.Native.String.{String, [], ◌∷◌}
use xcat.Prelude.{
  inl, inr, Bool-cases, ap, ◌∙◌, ◌≡◌, refl, Bool, true, false, not, ◌&&◌, ◌||◌, arith, eqb,
}
use xcat.Ssh.Texts.{lower_in, lower}

-- Whether the character is one of the text
abbrev hits : String → Char → Bool
hits [] c = false
hits (u ∷ ups) c = eqb (code u) (code c) || hits ups c

abbrev all_clear : String → String → Bool
all_clear ups [] = true
all_clear ups (l ∷ lows) = not (hits ups l) && all_clear ups lows

abbrev same_length : String → String → Bool
same_length [] [] = true
same_length [] (l ∷ lows) = false
same_length (u ∷ ups) [] = false
same_length (u ∷ ups) (l ∷ lows) = same_length ups lows

lower_in-missed : (ups lows : String) (c : Char) → hits ups c ≡ false → lower_in ups lows c ≡ c
unfolding lower_in
lower_in-missed [] lows c h = refl
lower_in-missed (u ∷ ups) [] c h = refl
lower_in-missed (u ∷ ups) (l ∷ lows) c h = ground (arith, h, lower_in-missed ups lows c)

lower_in-hit :
    (all ups lows : String) (c : Char)
    → all_clear all lows ≡ true
    → same_length ups lows ≡ true
    → hits ups c ≡ true
    → hits all (lower_in ups lows c) ≡ false
unfolding lower_in
lower_in-hit all [] lows c clear long h = cc
lower_in-hit all (u ∷ ups) [] c clear long h = cc
lower_in-hit all (u ∷ ups) (l ∷ lows) c clear long h =
    ground (arith, clear, long, h, lower_in-hit all ups lows c)

lower_in-twice :
    (ups lows : String) (c : Char)
    → all_clear ups lows ≡ true
    → same_length ups lows ≡ true
    → lower_in ups lows (lower_in ups lows c) ≡ lower_in ups lows c
lower_in-twice ups lows c clear long = elim (Bool-cases (hits ups c)) [
  | inr out ↦ ap (lower_in ups lows) (lower_in-missed ups lows c out)
  | inl within ↦
      lower_in-missed ups lows (lower_in ups lows c) (lower_in-hit ups ups lows c clear long within)
]

pub lower-lower : (s : String) → lower (lower s) ≡ lower s
unfolding lower
lower-lower [] = refl
lower-lower (c ∷ s) =
    let once =
      lower_in-twice "ABCDEFGHIJKLMNOPQRSTUVWXYZ" "abcdefghijklmnopqrstuvwxyz" c refl refl in
    ap (λ (d : Char). d ∷ lower (lower s)) once
    ∙ ap (λ (t : String). lower_in "ABCDEFGHIJKLMNOPQRSTUVWXYZ" "abcdefghijklmnopqrstuvwxyz" c ∷ t)
        (lower-lower s)
