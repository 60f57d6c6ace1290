-- ===== src/XmlrpcXml/Print.antt =====
-- The functions of src/xmlrpc_params.c that write XML.
use cros.Common.{List, [], if◌then◌else◌, map, pos, some, suc, zero, ℕ, ℤ, ◌++◌, ◌==◌, ◌∷◌}
use cros.Common.Decimal.{chars}
use cros.Mem.{Run, dangling_ptr, done, fault, nil_ptr, owned, ◌>>=◌}
use cros.XmlrpcParams.{
  Content, Param, ParamType, Params, Text, array, as_array, as_bool, as_double, as_int, as_string,
  binary, boolean, cons, datetime, double, integer, no_params, param, string, struct, unknown,
  zeros,
}
use cros.XmlrpcXml.{
  DoubleText, array_etag, array_tag, boolean_etag, boolean_tag, data_etag, data_tag, double_etag,
  double_tag, int_etag, int_tag, member_etag, member_tag, name_etag, name_tag, string_etag,
  string_tag, struct_etag, struct_tag, value_etag, value_tag,
}
use cros.XmlrpcXml.Numbers.{print_int}

-- What one call of dynStringPushBackStr or of dynStringPushBackChar is given.
pub data Piece : Type 0 where
  str : Text → Piece
  char : ℕ → Piece

-- xmlrpcParamToXml appends to a string and ignores what the appending calls return: its work is the
-- list of the pieces it appends, in order.
abbrev pub Pieces : Type 0
Pieces = List Piece

abbrev pub in_value : Text → Text → Pieces → Pieces
in_value tag etag inner = str value_tag ∷ str tag ∷ (inner ++ (str etag ∷ str value_etag ∷ []))

abbrev pub bool_to_xml : ℕ → Pieces
bool_to_xml val =
    in_value boolean_tag boolean_etag (str (if val == 0 then chars "0" else chars "1") ∷ [])

abbrev pub int_to_xml : ℤ → Pieces
int_to_xml val = in_value int_tag int_etag (str (print_int val) ∷ [])

unfoldable pub escape_char : ℕ → Piece
escape_char c =
    if c == b'<'
    then str (chars "&lt;")
    else if c == b'>'
    then str (chars "&gt;")
    else if c == b'&'
    then str (chars "&amp;")
    else if c == 39
    then str (chars "&apos;")
    else if c == 34
    then str (chars "&quot;")
    else char c

abbrev pub string_to_xml : Text → Pieces
string_to_xml val = in_value string_tag string_etag (map escape_char val)

module _ (double_text : DoubleText) where
  abbrev pub double_to_xml : ℕ → Pieces
  double_to_xml val = in_value double_tag double_etag (str (double_text.print val) ∷ [])

  -- The loops over the first n elements.
  unfoldable mutual
    pub to_xml : Param → Run Pieces
    to_xml (param ty nil_ptr c n mx) = content_to_xml ty c n
    to_xml (param ty (owned name) c n mx) = content_to_xml ty c n >>= λ value. done (
        str member_tag
        ∷ str name_tag
        ∷ str name
        ∷ str name_etag
        ∷ (value ++ (str member_etag ∷ [])))
    to_xml (param ty dangling_ptr c n mx) = fault

    pub content_to_xml : ParamType → Content → ℤ → Run Pieces
    content_to_xml boolean (as_bool b) n = done (bool_to_xml b)
    content_to_xml boolean zeros n = done (bool_to_xml 0)
    content_to_xml integer (as_int v) n = done (int_to_xml v)
    content_to_xml integer zeros n = done (int_to_xml (pos 0))
    content_to_xml double (as_double v) n = done (double_to_xml v)
    content_to_xml double zeros n = done (double_to_xml 0)
    content_to_xml string (as_string (some t)) n = done (string_to_xml t)
    content_to_xml array (as_array room ps) (pos n) = elems_to_xml n ps >>= λ inner. done (
        str value_tag
        ∷ str array_tag
        ∷ str data_tag
        ∷ (inner ++ (str data_etag ∷ str array_etag ∷ str value_etag ∷ [])))
    content_to_xml struct (as_array room ps) (pos n) =
        elems_to_xml n ps >>= λ inner. done (in_value struct_tag struct_etag inner)
    content_to_xml array c (pos zero) = done (
        str value_tag
        ∷ str array_tag
        ∷ str data_tag
        ∷ str data_etag
        ∷ str array_etag
        ∷ str value_etag
        ∷ [])
    content_to_xml struct c (pos zero) = done (in_value struct_tag struct_etag [])
    content_to_xml datetime c n = done []
    content_to_xml binary c n = done []
    content_to_xml unknown c n = done []
    content_to_xml ty c n = fault

    pub elems_to_xml : ℕ → Params → Run Pieces
    elems_to_xml zero ps = done []
    elems_to_xml (suc n) no_params = fault
    elems_to_xml (suc n) (cons p ps) =
        to_xml p >>= λ first. elems_to_xml n ps >>= λ more. done (first ++ more)

-- The text that the pieces add up to.
abbrev pub piece_text : Piece → Text
piece_text (str t) = t
piece_text (char c) = c ∷ []

abbrev pub pieces_text : Pieces → Text
pieces_text [] = []
pieces_text (p ∷ ps) = piece_text p ++ pieces_text ps
