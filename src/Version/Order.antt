-- ===== src/Version/Order.antt =====
-- `isNewerVersion` of internal/system/version_check.go is a strict order of versions.
use tidefly_plane.Prelude.{
  ℕ, ◌<◌, ◌⊎◌, String, Bool, true, false, ◌||◌, Option, none, some, ◌≡◌, refl, sym, ◌∙◌, subst, inl,
  inr, Bool-cases, ◌==◌, not_equal, nat_eq, nat_eq_self, trim_prefix, arith,
}
use tidefly_plane.Prelude.Order.{text_lt_trans, text_lt_self}
use tidefly_plane.Prelude.Split.{split}
use tidefly_plane.Version.Check.{
  core_of, prerelease_of, version_segment, prerelease_greater, segment_or, semver_greater,
  is_newer_version, version_unknown,
}

prerelease_trans :
    (p q r : Option String)
    → prerelease_greater p q ≡ true
    → prerelease_greater q r ≡ true
    → prerelease_greater p r ≡ true
unfolding prerelease_greater
prerelease_trans none none r x y = cc
prerelease_trans none (some q) none x y = cc
prerelease_trans none (some q) (some r) x y = refl
prerelease_trans (some p) none r x y = cc
prerelease_trans (some p) (some q) none x y = cc
prerelease_trans (some p) (some q) (some r) x y = text_lt_trans r q p y x

prerelease_self : (p : Option String) → prerelease_greater p p ≡ false
unfolding prerelease_greater
prerelease_self none = refl
prerelease_self (some p) = text_lt_self p

segment_trans :
    (a b c : ℕ) (p q r : Bool)
    → (p ≡ true → q ≡ true → r ≡ true)
    → segment_or a b p ≡ true
    → segment_or b c q ≡ true
    → segment_or a c r ≡ true
segment_trans a b c p q r h x y = elim (Bool-cases (nat_eq a b)) [
  | inl same ↦ elim (Bool-cases (nat_eq b c)) [
    | inl equal ↦
        let both : nat_eq a c ≡ true = ground (arith, same, equal) in
        rw both (h (rw same at x) (rw equal at y))
    | inr apart ↦ ground (arith, x, y)
  ]
  | inr other ↦ ground (arith, x, y)
]

abbrev pub segment : String → ℕ → ℕ
segment v i = version_segment (split b'.' (core_of v)) i

-- The first of the three numbers that differs is the larger one, or none differs and the pre-releases
-- decide.
abbrev pub IsAbove : (a b : String) → Type 0
IsAbove a b =
    (segment b 0 < segment a 0)
    ⊎ ((segment a 0 ≡ segment b 0)
        × ((segment b 1 < segment a 1)
            ⊎ ((segment a 1 ≡ segment b 1)
                × ((segment b 2 < segment a 2)
                    ⊎ ((segment a 2 ≡ segment b 2)
                        × (prerelease_greater (prerelease_of a) (prerelease_of b) ≡ true))))))

segment_above :
    (a b : ℕ) (p : Bool) (P : Type 0)
    → (p ≡ true → P)
    → segment_or a b p ≡ true
    → (b < a) ⊎ ((a ≡ b) × P)
segment_above a b p P h x = elim (Bool-cases (nat_eq a b)) [
  | inl same ↦ inr (ground (arith, same), h (rw same at x))
  | inr other ↦ inl (ground (arith, rw other at x))
]

semver_greater-IsAbove : (a b : String) → semver_greater a b ≡ true → IsAbove a b
unfolding semver_greater
semver_greater-IsAbove a b = segment_above (segment a 0) (segment b 0) _ _ (
    segment_above (segment a 1) (segment b 1) _ _
      (segment_above (segment a 2) (segment b 2) _ _ (λ h. h)))

semver_greater_trans :
    (a b c : String)
    → semver_greater a b ≡ true
    → semver_greater b c ≡ true
    → semver_greater a c ≡ true
unfolding semver_greater
semver_greater_trans a b c = segment_trans (segment a 0) (segment b 0) (segment c 0) _ _ _ (
    segment_trans (segment a 1) (segment b 1) (segment c 1) _ _ _ (
      segment_trans (segment a 2) (segment b 2) (segment c 2) _ _ _
        (prerelease_trans (prerelease_of a) (prerelease_of b) (prerelease_of c))))

semver_greater_self : (a : String) → semver_greater a a ≡ false
unfolding semver_greater
semver_greater_self a =
    rw (nat_eq_self (segment a 0), nat_eq_self (segment a 1), nat_eq_self (segment a 2))
      (prerelease_self (prerelease_of a))

is_newer_version-greater :
    (a b : String)
    → is_newer_version a b ≡ true
    → (semver_greater (trim_prefix "v" a) (trim_prefix "v" b) ≡ true)
      × ((b == version_unknown || b == "") ≡ false)
unfolding is_newer_version
is_newer_version-greater a b h = (ground arith, ground arith)

is_newer_version_asym : (a b : String) → is_newer_version a b ≡ true → is_newer_version b a ≡ false
is_newer_version_asym a b x = elim (Bool-cases (is_newer_version b a)) [
  | inr other ↦ other
  | inl y ↦
      let loop =
        semver_greater_trans (trim_prefix "v" a) (trim_prefix "v" b) (trim_prefix "v" a)
          (is_newer_version-greater a b x).0 (is_newer_version-greater b a y).0 in
      cc (sym loop ∙ semver_greater_self (trim_prefix "v" a))
]

newer_trans :
    (a b c : String)
    → is_newer_version a b ≡ true
    → is_newer_version b c ≡ true
    → is_newer_version a c ≡ true
unfolding is_newer_version
newer_trans a b c x y =
    let first = is_newer_version-greater a b x in
    let second = is_newer_version-greater b c y in
    let greater =
      semver_greater_trans (trim_prefix "v" a) (trim_prefix "v" b) (trim_prefix "v" c) first.0
        second.0 in
    let apart = not_equal (trim_prefix "v" a) (trim_prefix "v" c) (λ same. cc (
      sym (subst (λ v. semver_greater (trim_prefix "v" a) v ≡ true) (sym same) greater)
      ∙ semver_greater_self (trim_prefix "v" a))) in
    rw (second.1, apart, greater) refl

-- A version that is newer than one that is newer than a third is newer than the third, and the third is
-- not newer than it. Without the letter v its first number that differs from the third's is the larger, or
-- their pre-releases decide.
pub is_newer_version_trans :
    (a b c : String)
    → is_newer_version a b ≡ true
    → is_newer_version b c ≡ true
    → (is_newer_version a c ≡ true)
      × (is_newer_version c a ≡ false)
      × IsAbove (trim_prefix "v" a) (trim_prefix "v" c)
is_newer_version_trans a b c x y =
    let newer = newer_trans a b c x y in
    (
      newer,
      is_newer_version_asym a c newer,
      semver_greater-IsAbove (trim_prefix "v" a) (trim_prefix "v" c)
          (is_newer_version-greater a c newer).0,
    )
