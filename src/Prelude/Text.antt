-- ===== src/Prelude/Text.antt =====
-- The methods of `str` that the source uses, on native texts.
use Prim.Native.Char.{code}
use Prim.Native.Nat.{ℕ, ◌+◌, ◌*◌, ◌-◌, ◌^◌}
use Prim.Native.String.{String, ◌++◌}
use mathlib.Core.Bool.{Bool, true, false, ◌&&◌, ◌||◌}
use mathlib.Core.Option.{Option, none, some}
use mathlib.Core.List.{List, [], ◌∷◌}
use ruchat.Prelude.Tests.{◌==◌, ltb, leb, if◌then◌else◌}

-- `char::is_whitespace`: the White_Space property of Unicode.
abbrev pub is_whitespace : ℕ → Bool
is_whitespace c =
    (leb 9 c && leb c 13)
    || ((c == 32)
        || ((c == 133)
            || ((c == 160)
                || ((c == 5760)
                    || ((leb 8192 c && leb c 8202)
                        || ((c == 8232)
                            || ((c == 8233) || ((c == 8239) || ((c == 8287) || (c == 12288))))))))))

abbrev pub is_empty : String → Bool
is_empty String.[] = true
is_empty (String.◌∷◌ c s) = false

unfoldable pub trim_start : String → String
trim_start String.[] = ""
trim_start (String.◌∷◌ c s) =
    let rest = trim_start s in if is_whitespace (code c) then rest else String.◌∷◌ c s

unfoldable pub trim_end : String → String
trim_end String.[] = ""
trim_end (String.◌∷◌ c s) =
    let rest = trim_end s in
    if is_empty rest && is_whitespace (code c) then "" else String.◌∷◌ c rest

unfoldable pub trim : String → String
trim s = trim_start (trim_end s)

-- `str::split` at a character: the first part, and the others.
unfoldable pub split : ℕ → String → String × List String
split mark String.[] = ("", [])
split mark (String.◌∷◌ c s) =
    let rest = split mark s in
    if code c == mark then ("", rest.0 ∷ rest.1) else (String.◌∷◌ c rest.0, rest.1)

unfoldable pub split_once : ℕ → String → Option (String × String)
split_once mark String.[] = none
split_once mark (String.◌∷◌ c s) =
    let rest = split_once mark s in if code c == mark then some ("", s) else longer rest
  where
    longer : Option (String × String) → Option (String × String)
    longer none = none
    longer (some (before, after)) = some (String.◌∷◌ c before, after)

-- A carriage return before the end of a line belongs to the end.
strip_return : String → String
strip_return String.[] = ""
strip_return (String.◌∷◌ c s) =
    let rest = strip_return s in if (code c == 13) && is_empty s then "" else String.◌∷◌ c rest

-- The parts between the line feeds; the last one is a line without an end, unless it is empty.
lines_of : String → List String → List String
unfolding strip_return
lines_of last [] = if is_empty last then [] else last ∷ []
lines_of line (next ∷ more) = strip_return line ∷ lines_of next more

unfoldable pub lines : String → List String
unfolding lines_of
lines s = lines_of (split 10 s).0 (split 10 s).1

-- The digits of a number behind the number read so far, which is a u64.
unfoldable pub parse_digits : ℕ → String → Option ℕ
parse_digits value String.[] = some value
parse_digits value (String.◌∷◌ c s) =
    let next = value * 10 + (code c - 48) in
    let rest = parse_digits next s in
    if leb 48 (code c) && leb (code c) 57 then if ltb next (2 ^ 64) then rest else none else none

-- `str::parse::<u64>`, which takes a plus sign before the digits, of which there is one at least.
unfoldable pub parse_u64 : String → Option ℕ
unfolding parse_digits
parse_u64 String.[] = none
parse_u64 (String.◌∷◌ c s) =
    if code c == 43
    then if is_empty s then none else parse_digits 0 s
    else parse_digits 0 (String.◌∷◌ c s)

-- `str::replace` is in the console; `join` puts a text between the items.
unfoldable pub join : String → List String → String
join between [] = ""
join between (x ∷ []) = x
join between (x ∷ y ∷ ys) = x ++ (between ++ join between (y ∷ ys))
