-- ===== src/Prelude/Order.antt =====
-- The order of texts that Go's `<` decides is strict and transitive.
use Prim.Native.Nat.{ℕ}
use Prim.Native.Char.{Char, code}
use Prim.Native.String.{String, [], ◌∷◌}
use Prim.Native.String.compare
use mathlib.Core.Path.{◌≡◌, sym, ap, ◌∙◌}
use mathlib.Core.Bool.{Bool, true, false}
use mathlib.Core.Logic.{inl, inr}
use native.Mathlib.Omega.{arith}
use text.Mathlib.Text.{is_lt}
use text.Mathlib.TextPositions.{compare_refl}
use tidefly_plane.Prelude.Tests.{ltb, nat_eq, if◌then◌else◌, Bool-cases}
use tidefly_plane.Prelude.Text.{text_lt}

-- One step of the comparison.
abbrev step : ℕ → ℕ → Bool → Bool
step a b rest = if nat_eq a b then rest else ltb a b

text_lt-cons :
    (c d : Char) (s t : String) → text_lt (c ∷ s) (d ∷ t) ≡ step (code c) (code d) (text_lt s t)
text_lt-cons c d s t = ap is_lt (compare.cons-cons c d s t) ∙ ground arith

step_trans :
    (a b c : ℕ) (p q r : Bool)
    → (p ≡ true → q ≡ true → r ≡ true)
    → step a b p ≡ true
    → step b c q ≡ true
    → step a c r ≡ true
step_trans a b c p q r h x y = elim (Bool-cases (nat_eq a b)) [
  | inl same ↦ elim (Bool-cases (nat_eq b c)) [
    | inl equal ↦
        let both : nat_eq a c ≡ true = ground (arith, same, equal) in
        rw both (h (rw same at x) (rw equal at y))
    | inr apart ↦ ground (arith, x, y)
  ]
  | inr other ↦ ground (arith, x, y)
]

pub text_lt_trans : (s t u : String) → text_lt s t ≡ true → text_lt t u ≡ true → text_lt s u ≡ true
text_lt_trans s [] u x y = absurd (nothing_below s x)
  where
    nothing_below : (v : String) → text_lt v [] ≡ true → ⊥
    nothing_below [] h = cc (sym (ap is_lt compare.nil-nil) ∙ h)
    nothing_below (c ∷ v) h = cc (sym (ap is_lt (compare.cons-nil c v)) ∙ h)
text_lt_trans s (d ∷ t) [] x y = cc (sym (ap is_lt (compare.cons-nil d t)) ∙ y)
text_lt_trans [] (d ∷ t) (e ∷ u) x y = ap is_lt (compare.nil-cons e u)
text_lt_trans (c ∷ s) (d ∷ t) (e ∷ u) x y =
    text_lt-cons c e s u
    ∙ step_trans (code c) (code d) (code e) (text_lt s t) (text_lt t u) (text_lt s u)
        (text_lt_trans s t u) (sym (text_lt-cons c d s t) ∙ x) (sym (text_lt-cons d e t u) ∙ y)

pub text_lt_self : (s : String) → text_lt s s ≡ false
text_lt_self s = ap is_lt (compare_refl s)
