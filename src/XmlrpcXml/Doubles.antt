-- ===== src/XmlrpcXml/Doubles.antt =====
-- What the parser does with a double (src/xmlrpc_params.c).
use cros.Common.{Option, [], arith, minus_one, none, refl, some, suc, ℕ, ◌++◌, ◌-◌, ◌∷◌, ◌≡◌, ◌≤◌}
use cros.Common.Scan.{scan}
use cros.Common.Text.{starts_with}
use cros.Mem.{Answers, done, ◌>>=◌}
use cros.XmlrpcParams.{Param, Text, double, set_double, set_unknown}
use cros.XmlrpcXml.{DoubleText, double_tag, value_etag, value_tag}
use cros.XmlrpcXml.Parse.{
  after_end, container_none, end_at, end_value, from_xml, param_from_xml, read_double, xml_fuel,
}

scan_double_end : (c : Text) → scan (end_at double) c ≡ none
unfolding scan
scan_double_end [] = refl
scan_double_end (c ∷ cs) = rw (scan, scan_double_end cs) refl

-- What xmlrpcParamFromXml has made of the parameter when it gives up on a double.
abbrev pub after_double : Option ℕ → Param → Param
after_double none p = set_unknown p
after_double (some v) p = set_double p v

read_double_gives_up :
    (double_text : DoubleText) (r : Option ℕ) (c : Text) (p : Param) (a : Answers)
    → double_text.read c ≡ r
    → (c' : Text) × (read_double double_text container_none c p a
        ≡ done (minus_one, c', after_double r p, a))
read_double_gives_up double_text none c p a e = (c, rw (read_double, e) refl)
read_double_gives_up double_text (some v) c p a e =
    ([], rw (read_double, e, end_value, scan_double_end c) refl)

param_double :
    (double_text : DoubleText) (fuel : ℕ) (rest : Text) (p : Param) (a : Answers)
    → 4 ≤ fuel
    → param_from_xml double_text fuel (value_tag ++ (double_tag ++ rest)) p container_none a
      ≡ (read_double double_text container_none rest p a >>= λ r. after_end value_etag r)
unfolding param_from_xml scan starts_with
param_double double_text fuel rest p a enough =
    let e : fuel ≡ suc (suc (suc (suc (fuel - 4)))) = omega arith in rw e refl

-- A value that is tagged as a double is never read: whatever follows the tag, xmlrpcParamFromXml
-- returns -1, though it sets the parameter to the number if sscanf finds one.
pub from_xml_double :
    (double_text : DoubleText) (rest : Text) (p : Param) (a : Answers)
    → from_xml double_text (value_tag ++ (double_tag ++ rest)) p a
      ≡ done (minus_one, after_double (double_text.read rest) p, a)
unfolding from_xml
from_xml_double double_text rest p a =
    let text = value_tag ++ (double_tag ++ rest) in
    let (c', e) = read_double_gives_up double_text (double_text.read rest) rest p a refl in
    rw (param_double double_text (xml_fuel text) rest p a (omega arith), e) refl
