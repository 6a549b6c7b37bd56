-- ===== src/Common/Text.antt =====
-- Go's package strings, as far as it is used, on texts as lists of characters.
use Prim.Native.Nat.{ℕ, zero, suc, ◌+◌, ◌-◌, ◌/◌, ◌%◌}
use Prim.Native.Char.{Char, code}
use Prim.Native.String.{String, count, ◌++◌ as ◌<>◌}
use mathlib.Core.List.{List, [], ◌∷◌}
use mathlib.Core.Option.{Option, none, some}
use mathlib.Core.Bool.{Bool, ◌&&◌, ◌||◌}
use cyntr.Common.Tests.{leb, ltb, nat_beq, if◌then◌else◌}

-- unicode.IsSpace
unfoldable pub is_space : ℕ → Bool
is_space c =
    (leb 9 c && leb c 13)
    || nat_beq c 32
    || nat_beq c 0x85
    || nat_beq c 0xa0
    || nat_beq c 0x1680
    || (leb 0x2000 c && leb c 0x200a)
    || nat_beq c 0x2028
    || nat_beq c 0x2029
    || nat_beq c 0x202f
    || nat_beq c 0x205f
    || nat_beq c 0x3000

-- strings.TrimSpace cuts such characters off at both ends.
unfoldable pub trim_left : String → String
trim_left String.[] = String.[]
trim_left (String.◌∷◌ c s) = if is_space (code c) then trim_left s else String.◌∷◌ c s

abbrev pub cons_unless_blank : Char → String → String
cons_unless_blank c String.[] = if is_space (code c) then String.[] else String.◌∷◌ c String.[]
cons_unless_blank c (String.◌∷◌ d s) = String.◌∷◌ c (String.◌∷◌ d s)

unfoldable pub trim_right : String → String
trim_right String.[] = String.[]
trim_right (String.◌∷◌ c s) = cons_unless_blank c (trim_right s)

unfoldable pub trim_space : String → String
unfolding trim_left trim_right is_space
trim_space s = trim_left (trim_right s)

abbrev pub cut_char : ℕ → Char → String × List String → String × List String
cut_char sep c (part, parts) =
    if nat_beq (code c) sep then (String.[], part ∷ parts) else (String.◌∷◌ c part, parts)

-- strings.Split by one character: the first part, and the parts behind it.
unfoldable pub split_on : ℕ → String → String × List String
split_on sep String.[] = (String.[], [])
split_on sep (String.◌∷◌ c s) = cut_char sep c (split_on sep s)

unfoldable pub split_list : ℕ → String → List String
unfolding split_on
split_list sep s = let (part, parts) = split_on sep s in part ∷ parts

unfoldable pub join_more : String → String → List String → String
join_more sep s [] = s
join_more sep s (next ∷ ss) = s <> (sep <> join_more sep next ss)

-- strings.Join
unfoldable pub join : String → List String → String
unfolding join_more
join sep [] = ""
join sep (s ∷ ss) = join_more sep s ss

-- The text behind a prefix.
unfoldable pub after_prefix : String → String → Option String
after_prefix String.[] s = some s
after_prefix (String.◌∷◌ p ps) String.[] = none
after_prefix (String.◌∷◌ p ps) (String.◌∷◌ c s) =
    let rest = after_prefix ps s in if nat_beq (code p) (code c) then rest else none

abbrev pub prepend : Char → Option (String × String) → Option (String × String)
prepend c none = none
prepend c (some (before, after)) = some (String.◌∷◌ c before, after)

-- What stands before and behind the first occurrence of `old`.
unfoldable pub cut_at : String → String → Option (String × String)
unfolding after_prefix
cut_at old String.[] = elim (after_prefix old "") [ none ↦ none | some rest ↦ some ("", rest) ]
cut_at old (String.◌∷◌ c s) =
    let later = cut_at old s in
    elim (after_prefix old (String.◌∷◌ c s)) [
      | none ↦ prepend c later
      | some rest ↦ some ("", rest)
    ]

-- strings.ReplaceAll for a text `old` that is not empty: `skip` characters belong to an occurrence.
unfoldable pub replace_from : String → String → ℕ → String → String
unfolding after_prefix
replace_from old new skip String.[] = ""
replace_from old new (suc skip) (String.◌∷◌ c s) = replace_from old new skip s
replace_from old new zero (String.◌∷◌ c s) =
    let kept = String.◌∷◌ c (replace_from old new 0 s) in
    let replaced = new <> replace_from old new (count old - 1) s in
    elim (after_prefix old (String.◌∷◌ c s)) [ none ↦ kept | some _ ↦ replaced ]

unfoldable pub replace_all : String → String → String → String
unfolding replace_from
replace_all s old new = replace_from old new 0 s

abbrev pub digit_text : ℕ → String
digit_text n =
    if nat_beq n 0
    then "0"
    else if nat_beq n 1
    then "1"
    else if nat_beq n 2
    then "2"
    else if nat_beq n 3
    then "3"
    else if nat_beq n 4
    then "4"
    else if nat_beq n 5
    then "5"
    else if nat_beq n 6
    then "6"
    else if nat_beq n 7
    then "7"
    else if nat_beq n 8
    then "8"
    else "9"

-- On fuel: a number has fewer digits than itself and one more.
unfoldable pub decimal_from : ℕ → ℕ → String → String
decimal_from zero n out = out
decimal_from (suc fuel) n out =
    let rest = decimal_from fuel (n / 10) (digit_text (n % 10) <> out) in
    if ltb n 10 then digit_text n <> out else rest

-- %d
unfoldable pub decimal_text : ℕ → String
unfolding decimal_from
decimal_text n = decimal_from (n + 1) n ""
