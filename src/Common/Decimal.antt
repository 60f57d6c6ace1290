-- ===== src/Common/Decimal.antt =====
-- `%u`: the decimal digits of a number, as characters.
use Prim.Native.Char.{code}
use Prim.Native.String.{String}
use native.Mathlib.Nat.{pow-suc}
use cros.Common.{
  Bool-cases, List, [], ap, arith, if◌then◌else◌, inl, inr, length, ltb, ltb→lt, lt→ltb, suc, zero,
  ℕ, ◌%◌, ◌*◌, ◌++◌, ◌+◌, ◌-◌, ◌/◌, ◌<◌, ◌^◌, ◌∙◌, ◌∷◌, ◌≡◌, ◌≤◌,
}

-- The characters of a text: its bytes, for ASCII.
abbrev pub chars : String → List ℕ
chars String.[] = []
chars (String.◌∷◌ c s) = code c ∷ chars s

-- The digits of n before those that are there already.
pub digits_before : ℕ → ℕ → List ℕ → List ℕ
digits_before zero n later = later
digits_before (suc fuel) n later =
    let more = digits_before fuel (n / 10) ((n % 10 + 48) ∷ later) in
    if ltb n 10 then (n % 10 + 48) ∷ later else more

-- Twenty digits hold every 64-bit number.
unfoldable pub decimal : ℕ → List ℕ
unfolding digits_before
decimal n = digits_before 20 n []

-- The number that a row of digit characters stands for.
abbrev pub value_from : ℕ → List ℕ → ℕ
value_from acc [] = acc
value_from acc (c ∷ cs) = value_from (acc * 10 + (c - 48)) cs

last_digit :
    (n : ℕ) (later : List ℕ) → value_from (n / 10) ((n % 10 + 48) ∷ later) ≡ value_from n later
last_digit n later = ap (λ (a : ℕ). value_from a later) (omega arith)

-- Reading the digits back from an accumulator continues after them.
value-digits_before :
    (fuel n : ℕ) (later : List ℕ)
    → n < 10 ^ suc fuel
    → value_from 0 (digits_before (suc fuel) n later) ≡ value_from n later
unfolding digits_before
value-digits_before zero n later h =
    rw (lt→ltb n 10 (omega arith)) (ap (λ (a : ℕ). value_from a later) (omega arith))
value-digits_before (suc fuel) n later h = elim (Bool-cases (ltb n 10)) [
  | inl small ↦ rw small (ap (λ (a : ℕ). value_from a later) (omega (arith, ltb→lt n 10 small)))
  | inr large ↦ rw large (
      value-digits_before fuel (n / 10) ((n % 10 + 48) ∷ later)
        (omega (arith, pow-suc 10 (suc fuel)))
      ∙ last_digit n later)
]

-- The digits of a 64-bit number stand for it.
pub value-decimal : (n : ℕ) → n < 2 ^ 64 → value_from 0 (decimal n) ≡ n
unfolding decimal
value-decimal n h = value-digits_before 19 n [] (omega arith)

-- Digit characters, at least one.
abbrev pub AreDigits : List ℕ → Type 0
AreDigits [] = Unit {0}
AreDigits (c ∷ cs) = (48 ≤ c) × (c ≤ 57) × AreDigits cs

abbrev pub Numeral : List ℕ → Type 0
Numeral ds = (d : ℕ) × (rest : List ℕ) × (ds ≡ d ∷ rest) × AreDigits (d ∷ rest)

digits_before-Numeral :
    (fuel n : ℕ) (later : List ℕ) → AreDigits later → Numeral (digits_before (suc fuel) n later)
unfolding digits_before
digits_before-Numeral zero n later h = elim (Bool-cases (ltb n 10)) [
  | inl small ↦ (n % 10 + 48, later, rw small, (omega arith, omega arith, h))
  | inr large ↦ (n % 10 + 48, later, rw large, (omega arith, omega arith, h))
]
digits_before-Numeral (suc fuel) n later h = elim (Bool-cases (ltb n 10)) [
  | inl small ↦ (n % 10 + 48, later, rw small, (omega arith, omega arith, h))
  | inr large ↦
      rw large
        (digits_before-Numeral fuel (n / 10) ((n % 10 + 48) ∷ later) (omega arith, omega arith, h))
]

pub decimal-Numeral : (n : ℕ) → Numeral (decimal n)
unfolding decimal
decimal-Numeral n = digits_before-Numeral 19 n [] tt

pub AreDigits-append : (xs ys : List ℕ) → AreDigits xs → AreDigits ys → AreDigits (xs ++ ys)
AreDigits-append [] ys h h' = h'
AreDigits-append (x ∷ xs) ys h h' = (h.0, h.1, AreDigits-append xs ys (h.2) h')

length-digits_before :
    (fuel n k : ℕ) (later : List ℕ)
    → n < 10 ^ suc k
    → length (digits_before (suc fuel) n later) ≤ suc k + length later
unfolding digits_before
length-digits_before zero n k later h = elim (Bool-cases (ltb n 10)) [
  | inl small ↦ rw small (omega arith)
  | inr large ↦ rw large (omega arith)
]
length-digits_before (suc fuel) n zero later h = rw (lt→ltb n 10 (omega arith)) (omega arith)
length-digits_before (suc fuel) n (suc k) later h = elim (Bool-cases (ltb n 10)) [
  | inl small ↦ rw small (omega arith)
  | inr large ↦ rw large (
      omega (
        arith,
        length-digits_before fuel (n / 10) k ((n % 10 + 48) ∷ later)
            (omega (arith, pow-suc 10 (suc k))),
      ))
]

-- A number below 10^10 has at most ten digits.
pub length-decimal : (n : ℕ) → n < 10 ^ 10 → length (decimal n) ≤ 10
unfolding decimal
length-decimal n h = omega (arith, length-digits_before 19 n 9 [] h)
