-- ===== src/XmlrpcXml/Tests.antt =====
-- XML at concrete values (src/xmlrpc_params.c).
use cros.Common.{[], arith, map, minus_one, negsuc, none, pos, refl, some, ℕ, ◌++◌, ◌≡◌}
use cros.Common.Decimal.{chars, decimal}
use cros.Common.Scan.{scan}
use cros.Common.Text.{starts_with}
use cros.Mem.{done, nil_ptr, owned, plenty, read_buf, ◌>>=◌}
use cros.XmlrpcParams.{
  Param, Text, array, as_array, as_int, as_string, cons, elem_at, init, integer, is_container,
  no_params, param, set_array, set_bool, set_container, set_int, set_string, set_string_n,
  set_struct, string, struct, unescape, unescape_at,
}
use cros.XmlrpcParams.Push.{
  array_add_elem, array_grow, array_push_back_string_n, push_with, regrow, set_member_name,
  store_elem,
}
use cros.XmlrpcXml.{DoubleText, double_tag, value_tag}
use cros.XmlrpcXml.Numbers.{print_int, read_int}
use cros.DynString.Texts.{chars_in, nothing}
use cros.XmlrpcXml.Append.{param_to_xml}
use cros.XmlrpcXml.Escapes.{set_string-escaped}
use cros.XmlrpcXml.Print.{escape_char, pieces_text, to_xml}
use cros.XmlrpcXml.Steps.{IsElem, reread}
use cros.XmlrpcXml.Written.{from_xml-to_xml}
use cros.XmlrpcXml.Doubles.{after_double, from_xml_double}
use cros.XmlrpcXml.Parse.{from_xml, into_last, param_from_xml}

abbrev no_doubles : DoubleText
no_doubles = record { print = λ v. []; read = λ t. none }

abbrev one : Param
one = param integer nil_ptr (as_int (negsuc 41)) minus_one minus_one

abbrev word : Param
word = param string (owned (chars "key")) (as_string (some (chars "ok"))) minus_one minus_one

abbrev group : Param
group = param struct nil_ptr (as_array 4 (cons word no_params)) (pos 1) (pos 4)

abbrev row : Param
row = param array nil_ptr (as_array 4 (cons one (cons group no_params))) (pos 2) (pos 4)

abbrev row_text : Text
row_text =
    chars
      "<value><array><data><value><int>-42</int></value><value><struct><member><name>key</name><value><string>ok</string></value></member></struct></value></data></array></value>"

row_prints : (to_xml no_doubles row >>= λ ps. done (pieces_text ps)) ≡ done row_text
unfolding to_xml escape_char print_int decimal
row_prints = refl

row_parses : from_xml no_doubles row_text init plenty ≡ done (pos 0, row, plenty)
unfolding from_xml param_from_xml scan starts_with read_int into_last push_with init array_grow
    store_elem set_struct set_array set_container set_member_name array_push_back_string_n
    set_string_n unescape unescape_at read_buf regrow set_int set_bool is_container elem_at
    array_add_elem
row_parses = refl

row-IsElem : IsElem row
row-IsElem = (
  refl,
  omega arith,
  (omega arith, ((refl, omega arith, ((omega arith, (omega arith, omega arith)), tt)), tt)),
)

from_xml-to_xml_example :
    (text : Text) × (max : ℕ) × (param_to_xml no_doubles plenty row nothing
      ≡ done (chars_in text max, plenty))
    × (from_xml no_doubles text init plenty ≡ done (pos 0, reread row, plenty))
unfolding print_int decimal
from_xml-to_xml_example = from_xml-to_xml no_doubles row nothing row-IsElem (omega arith)

set_string-escaped_example :
    set_string (pieces_text (map escape_char (chars "a<'b"))) plenty one
    ≡ done (
      pos 0,
      param string nil_ptr (as_string (some (chars "a<lt;'apos;b"))) minus_one minus_one,
      plenty,
    )
unfolding escape_char
set_string-escaped_example =
    set_string-escaped (chars "a<'b") plenty integer nil_ptr (as_int (negsuc 41)) minus_one
      minus_one (omega arith) refl

from_xml_double_example :
    from_xml no_doubles (value_tag ++ (double_tag ++ chars "1.5</double></value>")) init plenty
    ≡ done (minus_one, after_double none init, plenty)
from_xml_double_example = from_xml_double no_doubles (chars "1.5</double></value>") init plenty
