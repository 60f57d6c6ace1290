-- ===== src/Common/Bits.antt =====
-- `|` of a value shifted by whole bytes and a byte is their sum.
use Prim.Native.Nat.{bit_or, digits, bit_or-bitwise, max}
use cros.Common.{ap, arith, refl, suc, zero, ℕ, ◌%◌, ◌*◌, ◌+◌, ◌/◌, ◌<◌, ◌∙◌, ◌≡◌, ◌≤◌}

abbrev or_digits : ℕ → ℕ → ℕ → ℕ
or_digits = digits (λ rest. rest) max

-- More digits than the first number has do not change the result.
or_digits-enough : (n a b : ℕ) (m : ℕ) → a ≤ n → n ≤ m → or_digits m a b ≡ or_digits n a b
or_digits-enough zero zero b zero p q = refl
or_digits-enough zero zero b (suc m) p q = refl
or_digits-enough zero (suc a) b m p q = absurd (omega arith)
or_digits-enough (suc n) a b zero p q = absurd (omega arith)
or_digits-enough (suc n) zero b (suc m) p q = refl
or_digits-enough (suc n) (suc a) b (suc m) p q =
    ap (λ (t : ℕ). t * 2 + max (suc a % 2) (b % 2))
      (or_digits-enough n (suc a / 2) (b / 2) m (omega arith) (omega arith))

-- The lowest digit.
bit_or-halves : (a b : ℕ) → bit_or a b ≡ bit_or (a / 2) (b / 2) * 2 + max (a % 2) (b % 2)
bit_or-halves zero b = omega (arith, bit_or-bitwise 0 b, bit_or-bitwise 0 (b / 2))
bit_or-halves (suc a) b = omega (
  arith,
  bit_or-bitwise (suc a) b,
  bit_or-bitwise (suc a / 2) (b / 2),
  or_digits-enough (suc a / 2) (suc a / 2) (b / 2) a (omega arith) (omega arith),
)

bit_or-zero_below : (n a : ℕ) → a ≤ n → bit_or a 0 ≡ a
bit_or-zero_below n zero h = refl
bit_or-zero_below zero (suc a) h = absurd (omega arith)
bit_or-zero_below (suc n) (suc a) h =
    omega (arith, bit_or-halves (suc a) 0, bit_or-zero_below n (suc a / 2) (omega arith))

bit_or-double : (m lo : ℕ) → bit_or (2 * m) lo ≡ 2 * bit_or m (lo / 2) + lo % 2
bit_or-double m lo =
    let even : 2 * m / 2 ≡ m = omega arith in
    let halves : bit_or (2 * m) lo ≡ bit_or m (lo / 2) * 2 + max (2 * m % 2) (lo % 2) =
      bit_or-halves (2 * m) lo
      ∙ ap (λ (n : ℕ). bit_or n (lo / 2) * 2 + max (2 * m % 2) (lo % 2)) even in
    omega (arith, halves)

bit_or-disjoint : (m lo : ℕ) → bit_or m (lo / 2) ≡ m + lo / 2 → bit_or (2 * m) lo ≡ 2 * m + lo
bit_or-disjoint m lo h = omega (arith, bit_or-double m lo)

-- Doubling k times.
abbrev pub doubled : ℕ → ℕ → ℕ
doubled zero n = n
doubled (suc k) n = 2 * doubled k n

bit_or-doubled : (k hi lo : ℕ) → lo < doubled k 1 → bit_or (doubled k hi) lo ≡ doubled k hi + lo
bit_or-doubled zero hi zero h = bit_or-zero_below hi hi (omega arith) ∙ omega arith
bit_or-doubled zero hi (suc lo) h = absurd (omega arith)
bit_or-doubled (suc k) hi lo h =
    bit_or-disjoint (doubled k hi) lo (bit_or-doubled k hi (lo / 2) (omega arith))

-- `(hi << 8) | lo`
pub bit_or_byte : (hi lo : ℕ) → lo < 256 → bit_or (hi * 256) lo ≡ hi * 256 + lo
bit_or_byte hi lo h =
    let e : doubled 8 hi ≡ hi * 256 = omega arith in rw (← e) (bit_or-doubled 8 hi lo h)
