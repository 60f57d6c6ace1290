-- ===== src/XmlrpcXml/Numbers.antt =====
-- `%d`: how snprintf writes an `int`, and how sscanf reads one.
use cros.Common.{
  Bool, List, Option, [], ap, arith, false, if◌then◌else◌, int_max, leb, le→leb, negsuc, none, pos,
  refl, some, suc, true, ℕ, ℤ, ◌&&◌, ◌++◌, ◌-◌, ◌<◌, ◌==◌, ◌^◌, ◌||◌, ◌∙◌, ◌∷◌, ◌≡◌, ◌≤◌,
}
use cros.Common.Scan.{IsPlain}
use cros.Common.Decimal.{AreDigits, decimal, decimal-Numeral, value-decimal, value_from}
use cros.Mem.{Run, done, fault}

unfoldable pub is_space : ℕ → Bool
is_space c = c == 32 || (leb 9 c && leb c 13)

unfoldable pub is_digit : ℕ → Bool
is_digit c = leb b'0' c && leb c b'9'

unfoldable pub skip_spaces : List ℕ → List ℕ
unfolding is_space
skip_spaces [] = []
skip_spaces (c ∷ cs) = if is_space c then skip_spaces cs else c ∷ cs

unfoldable pub take_digits : List ℕ → List ℕ
unfolding is_digit
take_digits [] = []
take_digits (c ∷ cs) = if is_digit c then c ∷ take_digits cs else []

-- `int x = n` or `-n`; a value outside of `int` is undefined.
unfoldable pub read_digits : Bool → List ℕ → Run (Option ℤ)
read_digits negative [] = done none
read_digits negative (c ∷ cs) =
    let n = value_from 0 (c ∷ cs) in
    if negative
    then (if n == 0
        then done (some (pos 0))
        else if leb n (2 ^ 31)
        then done (some (negsuc (n - 1)))
        else fault)
    else if leb n int_max
    then done (some (pos n))
    else fault

unfoldable pub read_signed : List ℕ → Run (Option ℤ)
unfolding take_digits read_digits
read_signed [] = done none
read_signed (c ∷ cs) =
    if c == b'-'
    then read_digits true (take_digits cs)
    else if c == b'+'
    then read_digits false (take_digits cs)
    else read_digits false (take_digits (c ∷ cs))

-- `sscanf(text, "%d", &x)`; `none` if it does not return 1.
unfoldable pub read_int : List ℕ → Run (Option ℤ)
unfolding skip_spaces read_signed
read_int text = read_signed (skip_spaces text)

unfoldable pub print_int : ℤ → List ℕ
print_int (pos n) = decimal n
print_int (negsuc n) = b'-' ∷ decimal (suc n)

abbrev pub IsInt : ℤ → Type 0
IsInt (pos n) = n ≤ int_max
IsInt (negsuc n) = n ≤ int_max

take_digits-stop :
    (ds : List ℕ) (c : ℕ) (rest : List ℕ)
    → AreDigits ds
    → is_digit c ≡ false
    → take_digits (ds ++ (c ∷ rest)) ≡ ds
unfolding take_digits
take_digits-stop [] c rest h stop = rw stop
take_digits-stop (d ∷ ds) c rest h stop =
    rw (le→leb 48 d (h.0), le→leb d 57 (h.1))
      (ap (λ l. d ∷ l) (take_digits-stop ds c rest (h.2) stop))

AreDigits-IsPlain : (ds : List ℕ) → AreDigits ds → IsPlain ds
AreDigits-IsPlain [] h = tt
AreDigits-IsPlain (d ∷ ds) h = (λ e. omega (arith, h.1), AreDigits-IsPlain ds (h.2))

pub print_int-IsPlain : (v : ℤ) → IsPlain (print_int v)
unfolding print_int
print_int-IsPlain (pos n) =
    let (d, ds, e, h) = decimal-Numeral n in rw e (AreDigits-IsPlain (d ∷ ds) h)
print_int-IsPlain (negsuc n) =
    let (d, ds, e, h) = decimal-Numeral (suc n) in
    ((λ e'. omega (arith, e')), rw e (AreDigits-IsPlain (d ∷ ds) h))

read_decimal :
    (negative : Bool) (n c : ℕ) (rest : List ℕ)
    → n < 2 ^ 64
    → is_digit c ≡ false
    → read_digits negative (take_digits (decimal n ++ (c ∷ rest))) ≡ (
        if negative
        then (if n == 0
            then done (some (pos 0))
            else if leb n (2 ^ 31)
            then done (some (negsuc (n - 1)))
            else fault)
        else if leb n int_max
        then done (some (pos n))
        else fault)
unfolding read_digits
read_decimal negative n c rest small stop =
    let (d, ds, e, h) = decimal-Numeral n in
    let value : value_from 0 (d ∷ ds) ≡ n = rw e at (value-decimal n small) in
    rw (e, take_digits-stop (d ∷ ds) c rest h stop, value) refl

-- Reading a row of digits whose value is an `int`.
pub read_int-digits :
    (d : ℕ) (ds : List ℕ) (c : ℕ) (rest : List ℕ) (n : ℕ)
    → AreDigits (d ∷ ds)
    → is_digit c ≡ false
    → value_from 0 (d ∷ ds) ≡ n
    → n ≤ int_max
    → read_int ((d ∷ ds) ++ (c ∷ rest)) ≡ done (some (pos n))
unfolding read_int
read_int-digits d ds c rest n digits stop value h =
    let no_space : is_space d ≡ false = unfold is_space in ground (arith, digits.0) in
    let no_minus : (d == b'-') ≡ false = ground (arith, digits.0) in
    let no_plus : (d == b'+') ≡ false = ground (arith, digits.0) in
    rw
      (
        no_space,
        no_minus,
        no_plus,
        take_digits-stop (d ∷ ds) c rest digits stop,
        value,
        le→leb n int_max h,
      )
      refl

-- Reading what was printed gives it back, whatever follows that is no digit.
pub read_int-print_int :
    (v : ℤ) (c : ℕ) (rest : List ℕ)
    → IsInt v
    → is_digit c ≡ false
    → read_int (print_int v ++ (c ∷ rest)) ≡ done (some v)
unfolding read_int print_int
read_int-print_int (pos n) c rest h stop =
    let (d, ds, e, digits) = decimal-Numeral n in
    rw e (read_int-digits d ds c rest n digits stop (rw e at (value-decimal n (omega arith))) h)
read_int-print_int (negsuc n) c rest h stop =
    read_decimal true (suc n) c rest (omega arith) stop
    ∙ rw (le→leb (suc n) (2 ^ 31) (omega arith)) (ground arith)
