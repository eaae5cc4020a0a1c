-- ===== src/Prelude/Suffix.antt =====
-- What `strings.CutSuffix` finds.
use Prim.Native.Nat.{ℕ}
use Prim.Native.Char.{Char, code}
use Prim.Native.String.{String, [], ◌∷◌, ◌++◌}
use mathlib.Core.Path.{◌≡◌, refl, sym, ap, ◌∙◌}
use mathlib.Core.Logic.{inl, inr, ◌≢◌}
use mathlib.Core.Option.{Option, none, some}
use text.Mathlib.Text.{◌==◌}
use text.Mathlib.TextEquality.{eq_iff}
use text.Mathlib.TextPositions.{eq_refl}
use text.Mathlib.TextLemmas.{nil-append, cons-append, append_cancel_right}
use tidefly_plane.Prelude.Tests.{Bool-cases, Option-cases}
use tidefly_plane.Prelude.Text.{strip_suffix, consed_one, not_equal}

-- The last character's code.
abbrev pub last_code : ℕ → String → ℕ
last_code d [] = d
last_code d (c ∷ s) = last_code (code c) s

last_code-append :
    (d : ℕ) (p : String) (c : Char) (s : String) → last_code d (p ++ c ∷ s) ≡ last_code (code c) s
last_code-append d [] c s = rw nil-append refl
last_code-append d (a ∷ p) c s = rw cons-append (last_code-append (code a) p c s)

consed_one-some :
    (c : Char) (o : Option String) {r : String}
    → consed_one c o ≡ some r
    → (q : String) × (o ≡ some q) × (r ≡ c ∷ q)
consed_one-some c none h = cc
consed_one-some c (some q) h = (q, refl, cc)

pub strip_suffix_sound :
    (suffix s : String) {r : String} → strip_suffix suffix s ≡ some r → s ≡ r ++ suffix
unfolding strip_suffix
strip_suffix_sound suffix [] {r} h = elim (Bool-cases (suffix == [])) [
  | inl same ↦
      let empty : ◌≡◌ {A = String} [] r = cc (rw same at h) in
      sym (
        ap (λ (x : String). x ++ suffix) (sym empty)
        ∙ (nil-append suffix ∙ (eq_iff suffix []).0 same))
  | inr other ↦ cc (rw other at h)
]
strip_suffix_sound suffix (c ∷ s) {r} h = elim (Bool-cases (suffix == c ∷ s)) [
  | inl same ↦
      let empty : ◌≡◌ {A = String} [] r = cc (rw same at h) in
      sym (
        ap (λ (x : String). x ++ suffix) (sym empty)
        ∙ (nil-append suffix ∙ (eq_iff suffix (c ∷ s)).0 same))
  | inr other ↦
      let found = consed_one-some c (strip_suffix suffix s) (rw other at h) in
      ap (λ (x : String). c ∷ x) (strip_suffix_sound suffix s found.1)
      ∙ (sym (cons-append c found.0 suffix) ∙ ap (λ (x : String). x ++ suffix) (sym found.2))
]

pub strip_suffix-append :
    (p : String) (c : Char) (s : String) → strip_suffix (c ∷ s) (p ++ c ∷ s) ≡ some p
unfolding strip_suffix
strip_suffix-append [] c s = rw (nil-append, eq_refl) refl
strip_suffix-append (a ∷ p) c s =
    let longer : (c ∷ s) ≢ a ∷ (p ++ c ∷ s) = λ same. cc (
      append_cancel_right [] (a ∷ p) (c ∷ s)
        (nil-append (c ∷ s) ∙ (same ∙ sym (cons-append a p (c ∷ s))))) in
    rw (cons-append, not_equal (c ∷ s) (a ∷ (p ++ c ∷ s)) longer, strip_suffix-append p c s) refl

-- A text that ends in another character does not end in the suffix.
pub strip_suffix-other :
    (p : String) (c d : Char) (s t : String)
    → last_code (code c) s ≢ last_code (code d) t
    → strip_suffix (d ∷ t) (p ++ c ∷ s) ≡ none
strip_suffix-other p c d s t apart = elim (Option-cases (strip_suffix (d ∷ t) (p ++ c ∷ s))) [
  | inl missing ↦ missing
  | inr (r, found) ↦ absurd (
      apart (
        sym (last_code-append 0 p c s)
        ∙ (ap (last_code 0) (strip_suffix_sound (d ∷ t) (p ++ c ∷ s) found)
            ∙ last_code-append 0 r d t)))
]
