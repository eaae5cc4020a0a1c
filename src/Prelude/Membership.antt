-- ===== src/Prelude/Membership.antt =====
-- Membership in what `any`, `select` and `map` read and make.
use mathlib.Core.List.{List, [], ◌∷◌, Memᴰ, map}
use mathlib.Core.Path.{◌≡◌, refl, ap, subst, sym}
use mathlib.Core.Bool.{Bool, true}
use mathlib.Core.Logic.{inl, inr}
use tidefly_plane.Prelude.Tests.{Bool-cases}
use tidefly_plane.Prelude.Lists.{any, select}

module _ {ℓ} {A : Type ℓ} where
  after_first :
      (p : A → Bool) (y : A) (xs : List A) {x : A}
      → (Memᴰ x (select p xs) → Memᴰ x xs × (p x ≡ true))
      → p y ≡ true
      → Memᴰ x (y ∷ select p xs)
      → Memᴰ x (y ∷ xs) × (p x ≡ true)
  after_first p y xs later kept (Memᴰ.head same) =
      (Memᴰ.head same, subst (λ z. p z ≡ true) (sym same) kept)
  after_first p y xs later kept (Memᴰ.tail there) =
      let rest = later there in (Memᴰ.tail rest.0, rest.1)

  pub of_select :
      (p : A → Bool) (xs : List A) {x : A} → Memᴰ x (select p xs) → Memᴰ x xs × (p x ≡ true)
  of_select p [] h = elim h [ ]
  of_select p (y ∷ xs) {x} h = elim (Bool-cases (p y)) [
    | inr gone ↦ let rest = of_select p xs (rw gone at h) in (Memᴰ.tail rest.0, rest.1)
    | inl kept ↦ after_first p y xs (of_select p xs) kept (rw kept at h)
  ]

  pub to_select :
      (p : A → Bool) (xs : List A) {x : A} → Memᴰ x xs → p x ≡ true → Memᴰ x (select p xs)
  to_select p [] h hit = elim h [ ]
  to_select p (y ∷ xs) {x} (Memᴰ.head same) hit =
      let kept : p y ≡ true = subst (λ z. p z ≡ true) same hit in rw kept (Memᴰ.head same)
  to_select p (y ∷ xs) {x} (Memᴰ.tail there) hit = elim (Bool-cases (p y)) [
    | inl kept ↦ rw kept (Memᴰ.tail (to_select p xs there hit))
    | inr gone ↦ rw gone (to_select p xs there hit)
  ]

  pub of_any : (p : A → Bool) (xs : List A) → any p xs ≡ true → (x : A) × Memᴰ x xs × (p x ≡ true)
  of_any p [] h = cc
  of_any p (y ∷ xs) h = elim (Bool-cases (p y)) [
    | inl hit ↦ (y, Memᴰ.head refl, hit)
    | inr miss ↦ let rest = of_any p xs (rw miss at h) in (rest.0, Memᴰ.tail rest.1, rest.2)
  ]

  pub to_any : (p : A → Bool) (xs : List A) {x : A} → Memᴰ x xs → p x ≡ true → any p xs ≡ true
  to_any p [] h hit = elim h [ ]
  to_any p (y ∷ xs) {x} (Memᴰ.head same) hit =
      let kept : p y ≡ true = subst (λ z. p z ≡ true) same hit in rw kept refl
  to_any p (y ∷ xs) {x} (Memᴰ.tail there) hit = elim (Bool-cases (p y)) [
    | inl kept ↦ rw kept refl
    | inr gone ↦ rw gone (to_any p xs there hit)
  ]

module _ {ℓ κ} {A : Type ℓ} {B : Type κ} (f : A → B) where
  pub of_map : (xs : List A) {b : B} → Memᴰ b (map f xs) → (a : A) × Memᴰ a xs × (b ≡ f a)
  of_map [] h = elim h [ ]
  of_map (x ∷ xs) (Memᴰ.head same) = (x, Memᴰ.head refl, same)
  of_map (x ∷ xs) (Memᴰ.tail there) =
      let rest = of_map xs there in (rest.0, Memᴰ.tail rest.1, rest.2)

  pub to_map : (xs : List A) {a : A} → Memᴰ a xs → Memᴰ (f a) (map f xs)
  to_map [] h = elim h [ ]
  to_map (x ∷ xs) (Memᴰ.head same) = Memᴰ.head (ap f same)
  to_map (x ∷ xs) (Memᴰ.tail there) = Memᴰ.tail (to_map xs there)
