-- ===== src/Copycd/Texts.antt =====
-- What the image classes do with texts: str.strip, str.split and readline of Python.
use Prim.Native.Char.{Char, code}
use Prim.Native.String
use Prim.Native.String.{String, [], ◌∷◌}
use xcat.Prelude.{Bool, ◌&&◌, ◌||◌, ◌==◌, eqb, leb, List, if◌then◌else◌}

abbrev is_space : Char → Bool
is_space c = eqb (code c) 32 || leb 9 (code c) && leb (code c) 13

unfoldable lstrip : String → String
lstrip [] = ""
lstrip (c ∷ s) = let rest = lstrip s in if is_space c then rest else c ∷ s

unfoldable rstrip : String → String
rstrip [] = ""
rstrip (c ∷ s) = let rest = rstrip s in if is_space c && rest == "" then "" else c ∷ rest

-- `s.strip()` of an ASCII text
unfoldable pub strip : String → String
unfolding lstrip rstrip
strip s = lstrip (rstrip s)

-- `s.split(sep)` for a `sep` of one character, after a part that has been read
unfoldable split_from : (Char → Bool) → String → String → List String
split_from sep part [] = List.◌∷◌ part List.[]
split_from sep part (c ∷ s) =
    let rest = split_from sep (if sep c then "" else String.◌++◌ part (c ∷ [])) s in
    if sep c then List.◌∷◌ part rest else rest

-- `s.split(' ')`
unfoldable pub split_blanks : String → List String
unfolding split_from
split_blanks s = split_from (λ c. eqb (code c) 32) "" s

-- `s.split('-')`
unfoldable pub split_dashes : String → List String
unfolding split_from
split_dashes s = split_from (λ c. eqb (code c) 45) "" s

unfoldable drop_empty : List String → List String
drop_empty List.[] = List.[]
drop_empty (List.◌∷◌ s ss) = let rest = drop_empty ss in if s == "" then rest else List.◌∷◌ s rest

-- `s.split()`
unfoldable pub words : String → List String
unfolding split_from drop_empty
words s = drop_empty (split_from (λ c. is_space c) "" s)

-- The lines that `readline` gives, but for their line feeds
unfoldable pub lines : String → List String
unfolding split_from
lines s = split_from (λ c. eqb (code c) 10) "" s

-- `f.readline()` of the lines that are left: an empty text at the end of the file.
abbrev pub line_at : List String → String
line_at List.[] = ""
line_at (List.◌∷◌ l ls) = l

abbrev pub after_line : List String → List String
after_line List.[] = List.[]
after_line (List.◌∷◌ l ls) = ls
