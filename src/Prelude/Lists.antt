-- ===== src/Prelude/Lists.antt =====
-- Lists measured by native numbers, and predicates on lists by recursion.
use Prim.Native.Nat.{ℕ, suc, ◌+◌}
use mathlib.Core.Path.{◌≡◌, refl, sym}
use mathlib.Core.Bool.{Bool, true, false, ◌||◌}
use mathlib.Core.Logic.{inl, inr}
use mathlib.Core.Option.{Option, none, some}
use mathlib.Core.List.{List, [], ◌∷◌, ◌++◌, Memᴰ}
use native.Mathlib.Omega.{arith}
use tidefly_plane.Prelude.Tests.{Bool-cases, if◌then◌else◌}

module _ {ℓ} {A : Type ℓ} where
  abbrev pub length : List A → ℕ
  length [] = 0
  length (x ∷ xs) = suc (length xs)

  abbrev pub any : (A → Bool) → List A → Bool
  any p [] = false
  any p (x ∷ xs) = p x || any p xs

  -- The elements that pass a test, in order.
  abbrev pub select : (A → Bool) → List A → List A
  select p [] = []
  select p (x ∷ xs) = let rest = select p xs in if p x then x ∷ rest else rest

  abbrev pub find? : (A → Bool) → List A → Option A
  find? p [] = none
  find? p (x ∷ xs) = if p x then some x else find? p xs

  pub length-append : (xs ys : List A) → length (xs ++ ys) ≡ length xs + length ys
  length-append [] ys = omega arith
  length-append (x ∷ xs) ys = omega (arith, length-append xs ys)

module _ {ℓ κ} {A : Type ℓ} (P : A → Type κ) where
  abbrev pub All : List A → Type κ
  All [] = Unit
  All (x ∷ xs) = P x × All xs

  pub All-append : (xs ys : List A) → All xs → All ys → All (xs ++ ys)
  All-append [] ys hx hy = hy
  All-append (x ∷ xs) ys hx hy = (hx.0, All-append xs ys hx.1 hy)

module _ {ℓ} {A : Type ℓ} where
  -- What a search finds passes the test and stands in the list.
  pub find?-sound :
      (p : A → Bool) (xs : List A) {x : A} → find? p xs ≡ some x → (p x ≡ true) × Memᴰ x xs
  find?-sound p [] h = cc
  find?-sound p (y ∷ xs) {x} h = elim (Bool-cases (p y)) [
    | inl e ↦ let same : y ≡ x = cc (rw e at h) in (rw (← same) e, Memᴰ.head (sym same))
    | inr e ↦ let rest = find?-sound p xs (rw e at h) in (rest.0, Memᴰ.tail rest.1)
  ]

  pub find?-none : (p : A → Bool) (xs : List A) → find? p xs ≡ none → All (λ x. p x ≡ false) xs
  find?-none p [] h = tt
  find?-none p (y ∷ xs) h = elim (Bool-cases (p y)) [
    | inl e ↦ cc (rw e at h)
    | inr e ↦ (e, find?-none p xs (rw e at h))
  ]

  -- A search in what a test left.
  pub find?-select-none :
      (p q : A → Bool) (xs : List A)
      → ((x : A) → p x ≡ true → q x ≡ false)
      → find? p (select q xs) ≡ none
  find?-select-none p q [] drop = refl
  find?-select-none p q (x ∷ xs) drop = elim (Bool-cases (q x)) [
    | inr gone ↦ rw gone (find?-select-none p q xs drop)
    | inl kept ↦ elim (Bool-cases (p x)) [
      | inl hit ↦ cc (drop x hit)
      | inr miss ↦ rw (kept, miss) (find?-select-none p q xs drop)
    ]
  ]

  pub find?-select-some :
      (p q : A → Bool) (xs : List A) {x : A}
      → find? p xs ≡ some x
      → q x ≡ true
      → find? p (select q xs) ≡ some x
  find?-select-some p q [] h keep = cc
  find?-select-some p q (y ∷ xs) {x} h keep = elim (Bool-cases (p y)) [
    | inl hit ↦ let same : y ≡ x = cc (rw hit at h) in rw (same, keep) (rw (← same, hit) refl)
    | inr miss ↦ elim (Bool-cases (q y)) [
      | inl kept ↦ rw (kept, miss) (find?-select-some p q xs (rw miss at h) keep)
      | inr gone ↦ rw gone (find?-select-some p q xs (rw miss at h) keep)
    ]
  ]

  pub find?-select_pass :
      (p q : A → Bool) (xs : List A) {x : A} → find? p (select q xs) ≡ some x → q x ≡ true
  find?-select_pass p q [] h = cc
  find?-select_pass p q (y ∷ xs) {x} h = elim (Bool-cases (q y)) [
    | inr gone ↦ find?-select_pass p q xs (rw gone at h)
    | inl kept ↦ elim (Bool-cases (p y)) [
      | inl hit ↦ let same : y ≡ x = cc (rw (kept, hit) at h) in rw (← same) kept
      | inr miss ↦ find?-select_pass p q xs (rw (kept, miss) at h)
    ]
  ]
