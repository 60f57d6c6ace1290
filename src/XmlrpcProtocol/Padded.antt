-- ===== src/XmlrpcProtocol/Padded.antt =====
-- The ten digits of the content's length (src/xmlrpc_protocol.c).
use cros.Common.{
  arith, int_max, length, length-append, length-replicate, pos, refl, replicate, some, suc, zero, ℕ,
  ◌++◌, ◌-◌, ◌∙◌, ◌∷◌, ◌≡◌, ◌≤◌,
}
use cros.Common.Decimal.{
  Numeral, decimal, decimal-Numeral, length-decimal, value-decimal, value_from,
}
use cros.Mem.{done}
use cros.XmlrpcParams.{Text}
use cros.XmlrpcXml.Numbers.{is_digit, read_int, read_int-digits}
use cros.XmlrpcProtocol.Generate.{padded}

pub length-padded : (n : ℕ) → n ≤ int_max → length (padded n) ≡ 10
unfolding padded
length-padded n h = omega (
  arith,
  length-append {0} (replicate (10 - length (decimal n)) b'0') (decimal n),
  length-replicate {A = ℕ} (10 - length (decimal n)) b'0',
  length-decimal n (omega arith),
)

zeros-Numeral : (k : ℕ) (ds : Text) → Numeral ds → Numeral (replicate k b'0' ++ ds)
zeros-Numeral zero ds h = h
zeros-Numeral (suc k) ds h =
    let (d, rest, e, digits) = zeros-Numeral k ds h in
    (b'0', replicate k b'0' ++ ds, refl, (omega arith, omega arith, rw e digits))

pub padded-Numeral : (n : ℕ) → Numeral (padded n)
unfolding padded
padded-Numeral n = zeros-Numeral (10 - length (decimal n)) (decimal n) (decimal-Numeral n)

value_of_zeros : (k : ℕ) (ds : Text) → value_from 0 (replicate k b'0' ++ ds) ≡ value_from 0 ds
value_of_zeros zero ds = refl
value_of_zeros (suc k) ds = value_of_zeros k ds

pub value-padded : (n : ℕ) → n ≤ int_max → value_from 0 (padded n) ≡ n
unfolding padded
value-padded n h =
    value_of_zeros (10 - length (decimal n)) (decimal n) ∙ value-decimal n (omega arith)

-- sscanf reads the padded number back.
pub read_int-padded :
    (n : ℕ) (rest : Text)
    → n ≤ int_max
    → read_int (padded n ++ (b'\r' ∷ rest)) ≡ done (some (pos n))
unfolding is_digit
read_int-padded n rest h =
    let (d, ds, e, digits) = padded-Numeral n in
    rw e (read_int-digits d ds b'\r' rest n digits refl (rw e at (value-padded n h)) h)
