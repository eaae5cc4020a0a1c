-- ===== src/Manifest/Digits.antt =====
-- `itoa` writes the decimal notation of its number.
use Prim.Native.Char.{code}
use Prim.Native.String.{String, [], ◌∷◌}
use Prim.Native.Nat.{◌<◌}
use text.Mathlib.TextLemmas.{cons-append, nil-append}
use tidefly_plane.Prelude.{
  ℕ, zero, suc, ◌+◌, ◌-◌, ◌*◌, ◌/◌, ◌%◌, ◌≡◌, ◌≢◌, refl, ℤ, pos, negsuc, nat_eq, if◌then◌else◌,
  arith, Bool-cases, inl, inr, ◌∙◌, ap, false,
}
use tidefly_plane.Manifest.Adapter.{digit_char, digits, itoa}

-- The number that decimal digits denote, after the digits of `n`.
read_from : ℕ → String → ℕ
read_from n [] = n
read_from n (c ∷ s) = read_from (n * 10 + (code c - 48)) s

-- Decimal notation with an optional minus sign.
pub read_ℤ : String → ℤ
unfolding read_from
read_ℤ [] = pos 0
read_ℤ (c ∷ s) =
    if nat_eq (code c) 45 then negsuc (read_from 0 s - 1) else pos (read_from 0 (c ∷ s))

-- The text begins, and not with a minus sign.
abbrev IsUnsigned : String → Type 0
IsUnsigned [] = ⊥
IsUnsigned (c ∷ s) = code c ≢ 45

digit_char-ne-minus : (d : ℕ) → code (digit_char d) ≢ 45
unfolding digit_char
digit_char-ne-minus zero = omega arith
digit_char-ne-minus (suc zero) = omega arith
digit_char-ne-minus (suc (suc zero)) = omega arith
digit_char-ne-minus (suc (suc (suc zero))) = omega arith
digit_char-ne-minus (suc (suc (suc (suc zero)))) = omega arith
digit_char-ne-minus (suc (suc (suc (suc (suc zero))))) = omega arith
digit_char-ne-minus (suc (suc (suc (suc (suc (suc zero)))))) = omega arith
digit_char-ne-minus (suc (suc (suc (suc (suc (suc (suc zero))))))) = omega arith
digit_char-ne-minus (suc (suc (suc (suc (suc (suc (suc (suc zero)))))))) = omega arith
digit_char-ne-minus _ = omega arith

digits-IsUnsigned : (fuel n : ℕ) (buf : String) → IsUnsigned buf → IsUnsigned (digits fuel n buf)
unfolding digits
digits-IsUnsigned zero n buf h = h
digits-IsUnsigned (suc fuel) n buf h = elim (Bool-cases (nat_eq n 0)) [
  | inl e ↦ rw e h
  | inr e ↦
      rw e
        (digits-IsUnsigned fuel (n / 10) (digit_char (n % 10) ∷ buf) (digit_char-ne-minus (n % 10)))
]

read_ℤ_unsigned : (s : String) → IsUnsigned s → read_ℤ s ≡ pos (read_from 0 s)
unfolding read_ℤ
read_ℤ_unsigned [] h = absurd h
read_ℤ_unsigned (c ∷ s) h = ground arith

code-digit_char : (d : ℕ) → d < 10 → code (digit_char d) - 48 ≡ d
unfolding digit_char
code-digit_char zero h = refl
code-digit_char (suc zero) h = refl
code-digit_char (suc (suc zero)) h = refl
code-digit_char (suc (suc (suc zero))) h = refl
code-digit_char (suc (suc (suc (suc zero)))) h = refl
code-digit_char (suc (suc (suc (suc (suc zero))))) h = refl
code-digit_char (suc (suc (suc (suc (suc (suc zero)))))) h = refl
code-digit_char (suc (suc (suc (suc (suc (suc (suc zero))))))) h = refl
code-digit_char (suc (suc (suc (suc (suc (suc (suc (suc zero)))))))) h = refl
code-digit_char (suc (suc (suc (suc (suc (suc (suc (suc (suc d))))))))) h = omega arith

-- Enough fuel: the digits of `n` go in front of what the buffer holds.
read_from-digits :
    (fuel n : ℕ) (buf : String) → n < fuel → read_from 0 (digits fuel n buf) ≡ read_from n buf
unfolding digits read_from
read_from-digits zero n buf h = absurd (omega arith)
read_from-digits (suc fuel) n buf h = elim (Bool-cases (nat_eq n 0)) [
  | inl e ↦ rw e (ap (λ k. read_from k buf) (ground arith))
  | inr e ↦ rw e (
      read_from-digits fuel (n / 10) (digit_char (n % 10) ∷ buf) (ground arith)
      ∙ ap (λ k. read_from k buf) (ground (arith, code-digit_char (n % 10))))
]

unsigned : (n : ℕ) → nat_eq n 0 ≡ false → IsUnsigned (digits (suc n) n "")
unfolding digits
unsigned n e =
    rw e (digits-IsUnsigned n (n / 10) (digit_char (n % 10) ∷ "") (digit_char-ne-minus (n % 10)))

-- Reading what `itoa` wrote gives the number back, negative ones included.
pub read_ℤ-itoa : (n : ℤ) → read_ℤ (itoa n) ≡ n
unfolding itoa read_ℤ read_from
read_ℤ-itoa (pos n) = elim (Bool-cases (nat_eq n 0)) [
  | inl e ↦ rw e (ap pos (ground arith))
  | inr e ↦ rw e (
      read_ℤ_unsigned (digits (suc n) n "") (unsigned n e)
      ∙ ap pos (read_from-digits (suc n) n "" (omega arith)))
]
read_ℤ-itoa (negsuc n) =
    rw (cons-append, nil-append)
      (ap (λ k. negsuc (k - 1)) (read_from-digits (suc (suc n)) (suc n) "" (omega arith))
        ∙ ap negsuc (omega arith))
