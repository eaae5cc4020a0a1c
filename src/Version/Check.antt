-- ===== src/Version/Check.antt =====
-- internal/system/version_check.go: which version is newer, and the text of a changelog.
use Prim.Native.Char.{code}
use Prim.Native.String.{String, [], ◌∷◌}
use mathlib.Core.List.{List, [] as no_parts, ◌∷◌ as ◌∷∷◌}
use tidefly_plane.Prelude.{
  ℕ, zero, suc, ◌+◌, ◌*◌, ◌-◌, Bool, true, false, not, ◌&&◌, ◌||◌, Option, none, some, ◌==◌, ltb,
  nat_eq, if◌then◌else◌, cut_first, trim_prefix, text_lt,
}
use tidefly_plane.Prelude.Split.{split, is_digit}

-- The number that the leading digits of a text say.
unfoldable pub read_digits : ℕ → String → ℕ
read_digits n [] = n
read_digits n (c ∷ s) =
    let rest = read_digits (n * 10 + (code c - 48)) s in if is_digit (code c) then rest else n

abbrev pub part_at : List String → ℕ → Option String
part_at no_parts i = none
part_at (part ∷∷ parts) zero = some part
part_at (part ∷∷ parts) (suc i) = part_at parts i

-- `fmt.Sscanf(part, "%d", &n)`, where the part begins with no space: a plus sign is read over, and no
-- minus sign is in the part, which the first dash ends. A number beyond Go's `int` leaves the zero.
unfoldable pub number_of : Option String → ℕ
unfolding read_digits trim_prefix
number_of none = 0
number_of (some part) =
    let n = read_digits 0 (trim_prefix "+" part) in if ltb n 9223372036854775808 then n else 0

unfoldable pub version_segment : List String → ℕ → ℕ
unfolding number_of
version_segment parts i = number_of (part_at parts i)

-- The parts of `strings.SplitN(v, "-", 2)`.
unfoldable pub core_of : String → String
unfolding cut_first
core_of v = elim (cut_first b'-' v) [ none ↦ v | some (core, pre) ↦ core ]

unfoldable pub prerelease_of : String → Option String
unfolding cut_first
prerelease_of v = elim (cut_first b'-' v) [ none ↦ none | some (core, pre) ↦ some pre ]

-- The end of `semverGreater`, for equal cores.
unfoldable pub prerelease_greater : Option String → Option String → Bool
prerelease_greater none (some q) = true
prerelease_greater (some p) none = false
prerelease_greater (some p) (some q) = text_lt q p
prerelease_greater none none = false

-- A round of the loop over the three segments.
abbrev pub segment_or : ℕ → ℕ → Bool → Bool
segment_or a b rest = if nat_eq a b then rest else ltb b a

unfoldable pub semver_greater : String → String → Bool
unfolding core_of prerelease_of split version_segment prerelease_greater
semver_greater a b =
    let xs = split b'.' (core_of a) in
    let ys = split b'.' (core_of b) in
    segment_or (version_segment xs 0) (version_segment ys 0) (
      segment_or (version_segment xs 1) (version_segment ys 1) (
        segment_or (version_segment xs 2) (version_segment ys 2)
          (prerelease_greater (prerelease_of a) (prerelease_of b))))

abbrev pub version_unknown : String
version_unknown = "unknown"

unfoldable pub is_newer_version : (latest current : String) → Bool
unfolding semver_greater trim_prefix
is_newer_version latest current =
    if current == version_unknown || current == ""
    then false
    else not (trim_prefix "v" latest == trim_prefix "v" current)
      && semver_greater (trim_prefix "v" latest) (trim_prefix "v" current)
