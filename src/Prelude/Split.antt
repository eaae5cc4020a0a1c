-- ===== src/Prelude/Split.antt =====
-- A text cut at every separator, and a text that is a number.
use Prim.Native.Nat.{ℕ, zero, suc, ◌+◌, ◌*◌, ◌-◌}
use Prim.Native.Char.{Char, code}
use Prim.Native.String.{String, [], ◌∷◌}
use mathlib.Core.Bool.{Bool, ◌&&◌, ◌||◌}
use mathlib.Core.Option.{Option, none, some}
use mathlib.Core.List.{List, [] as no_parts, ◌∷◌ as ◌∷∷◌}
use tidefly_plane.Prelude.Tests.{nat_eq, ltb, leb, if◌then◌else◌}
use text.Mathlib.Text.{◌==◌}
use tidefly_plane.Prelude.Text.{strip_prefix, has_prefix}
use tidefly_plane.Prelude.Int.{ℤ, pos, negsuc}

abbrev pub is_digit : ℕ → Bool
is_digit c = leb 48 c && leb c 57

abbrev pub add_first : Char → List String → List String
add_first c no_parts = (c ∷ []) ∷∷ no_parts
add_first c (part ∷∷ parts) = (c ∷ part) ∷∷ parts

-- `strings.Split(s, sep)`
unfoldable pub split : ℕ → String → List String
split sep [] = [] ∷∷ no_parts
split sep (c ∷ s) =
    let rest = split sep s in if nat_eq (code c) sep then [] ∷∷ rest else add_first c rest

-- `parts[len(parts)-1]`, of parts that `split` gives: there is one.
unfoldable pub last_part : List String → String
last_part no_parts = []
last_part (part ∷∷ no_parts) = part
last_part (part ∷∷ (next ∷∷ parts)) = last_part (next ∷∷ parts)

-- The number whose decimal digits follow those of `n`.
unfoldable pub all_digits : ℕ → String → Option ℕ
all_digits n [] = some n
all_digits n (c ∷ s) =
    let rest = all_digits (n * 10 + (code c - 48)) s in if is_digit (code c) then rest else none

abbrev pub unsigned : String → Option ℕ
unsigned [] = none
unsigned (c ∷ s) = all_digits 0 (c ∷ s)

-- At most 2^63 - 1.
abbrev pub within_max : Option ℕ → Option ℤ
within_max none = none
within_max (some n) = if ltb n 9223372036854775808 then some (pos n) else none

abbrev pub negated : ℕ → ℤ
negated zero = pos 0
negated (suc n) = negsuc n

abbrev pub within_min : Option ℕ → Option ℤ
within_min none = none
within_min (some n) = if leb n 9223372036854775808 then some (negated n) else none

-- `strconv.Atoi`, on 64 bits.
unfoldable pub atoi : String → Option ℤ
unfolding all_digits
atoi [] = none
atoi (c ∷ s) =
    if nat_eq (code c) b'-'
    then within_min (unsigned s)
    else if nat_eq (code c) b'+'
    then within_max (unsigned s)
    else within_max (unsigned (c ∷ s))

-- `strings.Contains(s, part)`
unfoldable pub contains_text : (part : String) → String → Bool
unfolding strip_prefix
contains_text part [] = part == []
contains_text part (c ∷ s) = has_prefix part (c ∷ s) || contains_text part s
