-- ===== src/Ssh/Texts.antt =====
-- What the SSH plugin does with texts: str.replace, str.split, str.lower, `in` and int() of Python,
-- and normalize_mac of xcat3/common/utils.py.
pub mod Case
use Prim.Native.Char.{Char, code}
use Prim.Native.String
use Prim.Native.String.{String, [], ◌∷◌, count}
use mathlib.Core.Option
use text.Mathlib.Text.{starts_with}
use xcat.Prelude.{
  ℕ, zero, suc, ◌+◌, ◌-◌, ◌*◌, Bool, true, false, ◌&&◌, ◌||◌, Option, none, some, List, leb, eqb,
  if◌then◌else◌,
}

abbrev Texts : Type 0
Texts = List String

-- The texts one after the other.
unfoldable pub concat : List String → String
concat List.[] = ""
concat (List.◌∷◌ s ss) = String.◌++◌ s (concat ss)

-- `s.replace(old, new)` past the characters of a match that has been replaced.
replace_from : String → String → ℕ → String → String
replace_from old new n [] = ""
replace_from old new (suc n) (c ∷ s) = replace_from old new n s
replace_from old new zero (c ∷ s) =
    let hit = starts_with (c ∷ s) old in
    String.◌++◌ (if hit then new else c ∷ [])
      (replace_from old new (if hit then count old - 1 else 0) s)

-- `s.replace(old, new)` for an `old` that is not empty
unfoldable pub replace : String → String → String → String
unfolding replace_from
replace old new s = replace_from old new 0 s

-- `s.split('\n')`
split_from : String → String → List String
split_from line [] = List.◌∷◌ line List.[]
split_from line (c ∷ s) =
    let ends = eqb (code c) 10 in
    let rest = split_from (if ends then "" else String.◌++◌ line (c ∷ [])) s in
    if ends then List.◌∷◌ line rest else rest

unfoldable pub split_lines : String → List String
unfolding split_from
split_lines s = split_from "" s

-- `part in s`
unfoldable pub is_part : String → String → Bool
is_part part [] = starts_with [] part
is_part part (c ∷ s) = starts_with (c ∷ s) part || is_part part s

lower_in : String → String → Char → Char
lower_in [] lows c = c
lower_in (u ∷ ups) [] c = c
lower_in (u ∷ ups) (l ∷ lows) c =
    let rest = lower_in ups lows c in if eqb (code u) (code c) then l else rest

-- `s.lower()` of an ASCII text
unfoldable pub lower : String → String
unfolding lower_in
lower [] = ""
lower (c ∷ s) = lower_in "ABCDEFGHIJKLMNOPQRSTUVWXYZ" "abcdefghijklmnopqrstuvwxyz" c ∷ lower s

-- utils.normalize_mac
unfoldable pub normalize_mac : String → String
unfolding replace lower
normalize_mac mac = lower (replace ":" "" (replace "-" "" mac))

-- Python's integers: `pos n` is n, `negsuc n` is - (n + 1).
pub data ℤ : Type 0 where
  pos negsuc : ℕ → ℤ

abbrev is_space : Char → Bool
is_space c = eqb (code c) 32 || leb 9 (code c) && leb (code c) 13

abbrev is_digit : Char → Bool
is_digit c = leb 48 (code c) && leb (code c) 57

spaces_to_end : ℕ → String → Option ℕ
spaces_to_end n [] = some n
spaces_to_end n (c ∷ s) = let rest = spaces_to_end n s in if is_space c then rest else none

-- The digits of a number, then nothing but spaces; `seen` is whether a digit has been read.
digits : Bool → ℕ → String → Option ℕ
digits seen n [] = if seen then some n else none
digits seen n (c ∷ s) =
    let rest = digits true (10 * n + (code c - 48)) s in
    if is_digit c then rest else if seen then spaces_to_end n (c ∷ s) else none

negated : ℕ → ℤ
negated zero = pos 0
negated (suc n) = negsuc n

signed : String → Option ℤ
signed [] = none
signed (c ∷ s) =
    if eqb (code c) 45
    then Option.map negated (digits false 0 s)
    else if eqb (code c) 43
    then Option.map pos (digits false 0 s)
    else Option.map pos (digits false 0 (c ∷ s))

-- `int(s)` of an ASCII text, none where it raises ValueError
unfoldable pub int : String → Option ℤ
unfolding spaces_to_end digits negated signed
int [] = none
int (c ∷ s) = let rest = int s in if is_space c then rest else signed (c ∷ s)
