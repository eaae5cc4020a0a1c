-- ===== src/Prelude/Text.antt =====
-- The functions of Go's package strings that the program uses. A separator is an ASCII byte, so
-- that a cut between bytes is a cut between characters.
use Prim.Native.Nat.{ℕ, zero, suc, ◌+◌, ◌<◌}
use Prim.Native.Char.{Char, code}
use Prim.Native.String.{String, [], ◌∷◌, ◌++◌, compare}
use mathlib.Core.Path.{◌≡◌, refl}
use mathlib.Core.Bool.{Bool, true, false}
use mathlib.Core.Logic.{inl, inr, ◌≢◌}
use mathlib.Core.Option.{Option, none, some}
use native.Mathlib.Omega.{arith}
use text.Mathlib.Text.{◌==◌, is_lt}
use text.Mathlib.TextEquality.{eq_iff, Char-path}
use text.Mathlib.TextLemmas.{nil-append, cons-append}
use tidefly_plane.Prelude.Tests.{nat_eq, nat_eq→eq, nat_eq_self, if◌then◌else◌, is_some, Bool-cases}

abbrev pub consed : Char → Option (String × String) → Option (String × String)
consed c none = none
consed c (some (a, b)) = some (c ∷ a, b)

-- The parts before and after the first `sep`: `strings.SplitN(s, sep, 2)` where it has two parts.
unfoldable pub cut_first : ℕ → String → Option (String × String)
cut_first sep [] = none
cut_first sep (c ∷ s) = if nat_eq (code c) sep then some ([], s) else consed c (cut_first sep s)

-- The parts before and after the last `sep`.
unfoldable pub cut_last : ℕ → String → Option (String × String)
cut_last sep [] = none
cut_last sep (c ∷ s) = elim (cut_last sep s) [
  | some (a, b) ↦ some (c ∷ a, b)
  | none ↦ if nat_eq (code c) sep then some ([], s) else none
]

-- `strings.SplitN(s, sep, 2)[0]`
unfoldable pub before_first : ℕ → String → String
before_first sep [] = []
before_first sep (c ∷ s) = if nat_eq (code c) sep then [] else c ∷ before_first sep s

-- `strings.Contains(s, sep)`
unfoldable pub contains : ℕ → String → Bool
contains sep [] = false
contains sep (c ∷ s) = if nat_eq (code c) sep then true else contains sep s

-- `strings.CutPrefix(s, p)`
unfoldable pub strip_prefix : String → String → Option String
strip_prefix [] s = some s
strip_prefix (c ∷ p) [] = none
strip_prefix (c ∷ p) (d ∷ s) = if nat_eq (code c) (code d) then strip_prefix p s else none

abbrev pub has_prefix : String → String → Bool
has_prefix p s = is_some (strip_prefix p s)

-- `strings.TrimPrefix(s, p)`
unfoldable pub trim_prefix : String → String → String
trim_prefix p s = elim (strip_prefix p s) [ none ↦ s | some r ↦ r ]

abbrev pub consed_one : Char → Option String → Option String
consed_one c none = none
consed_one c (some a) = some (c ∷ a)

-- `strings.CutSuffix(s, suffix)`
unfoldable pub strip_suffix : String → String → Option String
strip_suffix suffix [] = if suffix == [] then some [] else none
strip_suffix suffix (c ∷ s) =
    if suffix == c ∷ s then some [] else consed_one c (strip_suffix suffix s)

abbrev pub has_suffix : String → String → Bool
has_suffix suffix s = is_some (strip_suffix suffix s)

-- `s[n:]`
unfoldable pub drop_text : ℕ → String → String
drop_text zero s = s
drop_text (suc n) [] = []
drop_text (suc n) (c ∷ s) = drop_text n s

-- `len(s)`, at an ASCII text
unfoldable pub text_length : String → ℕ
text_length [] = 0
text_length (c ∷ s) = suc (text_length s)

-- `a < b` on strings
abbrev pub text_lt : String → String → Bool
text_lt a b = is_lt (compare a b)

-- A prefix that was found is followed by the rest.
pub strip_prefix-eq : (p s : String) {r : String} → strip_prefix p s ≡ some r → s ≡ p ++ r
unfolding strip_prefix
strip_prefix-eq [] s h = rw nil-append (cc)
strip_prefix-eq (c ∷ p) [] h = cc
strip_prefix-eq (c ∷ p) (d ∷ s) h = elim (Bool-cases (nat_eq (code c) (code d))) [
  | inl e ↦
      rw cons-append
        (cc (Char-path c d (nat_eq→eq (code c) (code d) e), strip_prefix-eq p s (rw e at h)))
  | inr e ↦ cc (rw e at h)
]

pub strip_prefix-append : (p r : String) → strip_prefix p (p ++ r) ≡ some r
unfolding strip_prefix
strip_prefix-append [] r = rw nil-append
strip_prefix-append (c ∷ p) r = rw (cons-append, nat_eq_self) (strip_prefix-append p r)

-- A cut within the first part of a text is a cut of the whole.
pub cut_first-append :
    (sep : ℕ) (p s : String) {a b : String}
    → cut_first sep p ≡ some (a, b)
    → cut_first sep (p ++ s) ≡ some (a, b ++ s)
unfolding cut_first
cut_first-append sep [] s h = cc
cut_first-append sep (c ∷ p) s {a} {b} h =
    rw cons-append
      (step (λ a' b'. cut_first-append sep p s {a = a'} {b = b'}) (cut_first sep p) refl)
  where
    step :
        ((a' b' : String)
          → cut_first sep p ≡ some (a', b')
          → cut_first sep (p ++ s) ≡ some (a', b' ++ s))
        → (o : Option (String × String)) → cut_first sep p ≡ o
        → (if nat_eq (code c) sep then some ([], p ++ s) else consed c (cut_first sep (p ++ s)))
          ≡ some (a, b ++ s)
    step later none e = ground arith
    step later (some (a', b')) e = ground (arith, later a' b' e)

pub text_length-append : (p s : String) → text_length (p ++ s) ≡ text_length p + text_length s
unfolding text_length
text_length-append [] s = rw nil-append (omega arith)
text_length-append (c ∷ p) s = rw cons-append (omega (arith, text_length-append p s))

pub text_length-pos : (s : String) → s ≢ [] → 0 < text_length s
unfolding text_length
text_length-pos [] named = absurd (named refl)
text_length-pos (c ∷ s) named = omega arith

pub drop_text-append : (p s : String) → drop_text (text_length p) (p ++ s) ≡ s
unfolding drop_text text_length
drop_text-append [] s = rw nil-append refl
drop_text-append (c ∷ p) s = rw cons-append (drop_text-append p s)

-- Two texts differ within the shorter one.
unfoldable pub differ : String → String → Bool
differ [] q = false
differ (c ∷ p) [] = false
differ (c ∷ p) (d ∷ q) = if nat_eq (code c) (code d) then differ p q else true

pub strip_prefix-differ : (p q s : String) → differ p q ≡ true → strip_prefix p (q ++ s) ≡ none
unfolding strip_prefix differ
strip_prefix-differ [] q s h = cc
strip_prefix-differ (c ∷ p) [] s h = cc
strip_prefix-differ (c ∷ p) (d ∷ q) s h =
    rw cons-append (ground (arith, strip_prefix-differ p q s, h))

pub trim_prefix-append : (p s : String) → trim_prefix p (p ++ s) ≡ s
unfolding trim_prefix
trim_prefix-append p s = rw (strip_prefix-append p s, trim_prefix) refl

pub equal_or_not : (a b : String) → a == b ≡ false → a ≢ b
equal_or_not a b apart same = cc ((eq_iff a b).1 same)

pub not_equal : (a b : String) → a ≢ b → a == b ≡ false
not_equal a b apart = elim (Bool-cases (a == b)) [
  | inl same ↦ absurd (apart ((eq_iff a b).0 same))
  | inr other ↦ other
]
