-- ===== src/Manifest/Ports.antt =====
-- `detectPort` over every order in which Go may walk its table of ports.
use mathlib.Core.List.{Memᴰ, Perm}
use mathlib.Core.List.Perm
use tidefly_plane.Prelude.{
  ℕ, ◌≡◌, refl, ◌⊎◌, inl, inr, pos, String, true, false, List, [], ◌∷◌, All, before_first,
  Bool-cases,
}
use tidefly_plane.Manifest.Resolved.{defaults, known_ports}
use tidefly_plane.Manifest.Resolve.{port_matches, first_port, detect_port}

-- The table's entry fits the image.
abbrev pub Fits : String → String × ℕ → Type 0
Fits image e = port_matches (before_first b':' image) e.0 ≡ true

first_port_cases :
    (base : String) (order : List (String × ℕ))
    → ((e : String × ℕ) × Memᴰ e order
        × (port_matches base e.0 ≡ true)
        × (first_port base order ≡ pos e.1))
      ⊎ (All (λ (e : String × ℕ). port_matches base e.0 ≡ false) order
          × (first_port base order ≡ defaults.fallback_port))
unfolding first_port
first_port_cases base [] = inr (tt, refl)
first_port_cases base ((known, port) ∷ more) = elim (Bool-cases (port_matches base known)) [
  | inl fits ↦ inl ((known, port), Memᴰ.head refl, fits, rw fits)
  | inr misses ↦ elim (first_port_cases base more) [
    | inl (e, listed, fits, found) ↦ inl (e, Memᴰ.tail listed, fits, rw misses found)
    | inr (missed, fallback) ↦ inr ((misses, missed), rw misses fallback)
  ]
]

-- In any walk, the answer is the port of an entry of the walk that fits the image, or 8080 where
-- no entry fits.
pub detect_port_sound :
    (order : List (String × ℕ)) (image : String)
    → ((e : String × ℕ) × Memᴰ e order × Fits image e × (detect_port order image ≡ pos e.1))
      ⊎ (All (λ (e : String × ℕ). port_matches (before_first b':' image) e.0 ≡ false) order
          × (detect_port order image ≡ pos 8080))
unfolding detect_port
detect_port_sound order image = first_port_cases (before_first b':' image) order

to_front {ℓ} : {A : Type ℓ} {e : A} (xs : List A) → Memᴰ e xs → (ys : List A) × Perm (e ∷ ys) xs
to_front [] m = elim m [ ]
to_front (x ∷ xs) (Memᴰ.head same) = (xs, rw same (Perm.refl (x ∷ xs)))
to_front {e} (x ∷ xs) (Memᴰ.tail m) =
    let (ys, p) = to_front xs m in (x ∷ ys, Perm.trans (Perm.swap x e ys) (Perm.cons x p))

-- Whatever entry of the table fits an image, Go may walk the table so that this entry's port is
-- the answer: where two entries that differ in their port fit, the answer is left to chance.
pub detect_port_any :
    (image : String) (e : String × ℕ)
    → Memᴰ e known_ports
    → Fits image e
    → (order : List (String × ℕ)) × Perm order known_ports × (detect_port order image ≡ pos e.1)
unfolding detect_port first_port
detect_port_any image e listed fits =
    let (rest, walk) = to_front known_ports listed in (e ∷ rest, walk, rw fits)
