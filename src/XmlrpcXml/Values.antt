-- ===== src/XmlrpcXml/Values.antt =====
-- Reading one value, level by level (src/xmlrpc_params.c).
use cros.Common.{
  arith, drop, int_max, length, minus_one, pos, refl, some, suc, zero, ℕ, ℤ, ◌++◌, ◌+◌, ◌<◌, ◌∙◌,
  ◌≡◌, ◌≤◌,
}
use cros.Common.Scan.{scan}
use cros.Common.Decimal.{chars}
use cros.Common.Text.{starts_with}
use cros.Mem.{Ptr, done, plenty}
use cros.XmlrpcParams.{
  Param, Params, Text, array, as_bool, as_int, as_string, boolean, integer, no_params, param,
  set_array, set_bool, set_container, set_int, set_struct, string, struct, unknown, zeros,
}
use cros.XmlrpcXml.{
  DoubleText, array_etag, array_tag, boolean_etag, data_etag, data_tag, int_etag, string_etag,
  struct_etag, struct_tag,
}
use cros.XmlrpcXml.Numbers.{IsInt, is_digit, print_int, read_int, read_int-print_int}
use cros.XmlrpcXml.Parse.{
  ParamContainerType, array_from_xml, container_array, container_struct, elems_from_xml, end_value,
  param_value_from_xml, store_text, struct_from_xml, typed_from_xml,
}
use cros.XmlrpcXml.Steps.{IsClean, inner_xml, room_after, xml_all}
use cros.XmlrpcXml.Places.{Places, holding}
use cros.XmlrpcXml.Texts.{end_integer, end_string, set_string_n-clean}

module _ (double_text : DoubleText) {container : ParamContainerType} {m : Ptr Text} {p : Param}
    {result : Param → Param} (places : Places container m p result) (fuel : ℕ) (rest : Text) where
  pub read_a_bool :
      (b : ℕ)
      → b ≤ 1
      → param_value_from_xml double_text
          (suc (suc fuel))
          (inner_xml boolean (as_bool b) rest)
          p
          container
          plenty
        ≡ done (pos 0, rest, result (param boolean m (as_bool b) minus_one minus_one), plenty)
  unfolding param_value_from_xml typed_from_xml scan starts_with read_int set_bool
  read_a_bool zero h =
      rw
        (places.values (λ e. set_bool e (pos 0))
          (λ p' a'.
            end_value (pos 0) boolean container (chars "0" ++ (boolean_etag ++ rest)) p' a'))
        refl
  read_a_bool (suc zero) h =
      rw
        (places.values (λ e. set_bool e (pos 1))
          (λ p' a'.
            end_value (pos 0) boolean container (chars "1" ++ (boolean_etag ++ rest)) p' a'))
        refl
  read_a_bool (suc (suc b)) h = absurd (omega arith)

  pub read_an_int :
      (v : ℤ)
      → IsInt v
      → param_value_from_xml double_text
          (suc (suc fuel))
          (inner_xml integer (as_int v) rest)
          p
          container
          plenty
        ≡ done (pos 0, rest, result (param integer m (as_int v) minus_one minus_one), plenty)
  unfolding param_value_from_xml typed_from_xml scan starts_with set_int is_digit
  read_an_int v h = rw (read_int-print_int v b'<' (drop 1 int_etag ++ rest) h refl) (
      places.values (λ e. set_int e v)
        (λ p' a'. end_value (pos 0) integer container (print_int v ++ (int_etag ++ rest)) p' a')
      ∙ rw (end_value, end_integer v rest) refl)

  pub read_a_string :
      (t : Text)
      → IsClean t
      → length t < int_max
      → param_value_from_xml double_text
          (suc (suc fuel))
          (inner_xml string (as_string (some t)) rest)
          p
          container
          plenty
        ≡ done
            (pos 0, rest, result (param string m (as_string (some t)) minus_one minus_one), plenty)
  unfolding param_value_from_xml typed_from_xml scan starts_with
  read_a_string t clean fits =
      let c = t ++ (string_etag ++ rest) in
      let store =
        store_text container c (length t + 0) p plenty (λ p' a'. done (pos 0, rest, p', a')) in
      let ends : end_value (pos 0) string container c p plenty ≡ store =
        rw (end_value, end_string t rest clean) refl in
      ends
      ∙ places.texts c (length t + 0) (param string m (as_string (some t)) minus_one minus_one)
          (λ p' a'. done (pos 0, rest, p', a'))
          (set_string_n-clean unknown m zeros minus_one minus_one t (string_etag ++ rest) clean
            fits)

  -- An array whose elements are read up to its end, given that.
  pub read_an_array :
      (ps qs : Params) (k : ℕ)
      → elems_from_xml double_text fuel
          (xml_all ps (data_etag ++ (array_etag ++ rest)))
          (holding array m 0 no_params)
          container_array
          plenty
        ≡ done (data_etag ++ (array_etag ++ rest), holding array m k qs, plenty)
      → param_value_from_xml double_text
          (suc (suc (suc fuel)))
          (array_tag ++ (data_tag ++ xml_all ps (data_etag ++ (array_etag ++ rest))))
          p
          container
          plenty
        ≡ done (pos 0, rest, result (holding array m k qs), plenty)
  unfolding param_value_from_xml typed_from_xml array_from_xml scan starts_with set_array
      set_container room_after
  read_an_array ps qs k elems =
      places.news set_array (holding array m 0 no_params)
        (data_tag ++ xml_all ps (data_etag ++ (array_etag ++ rest))) _ (pos 0) rest
        (holding array m k qs) refl (rw elems refl)

  pub read_a_struct :
      (ps qs : Params) (k : ℕ)
      → elems_from_xml double_text fuel
          (xml_all ps (struct_etag ++ rest))
          (holding struct m 0 no_params)
          container_struct
          plenty
        ≡ done (struct_etag ++ rest, holding struct m k qs, plenty)
      → param_value_from_xml double_text
          (suc (suc (suc fuel)))
          (struct_tag ++ xml_all ps (struct_etag ++ rest))
          p
          container
          plenty
        ≡ done (pos 0, rest, result (holding struct m k qs), plenty)
  unfolding param_value_from_xml typed_from_xml struct_from_xml scan starts_with set_struct
      set_container room_after
  read_a_struct ps qs k elems =
      places.news set_struct (holding struct m 0 no_params) (xml_all ps (struct_etag ++ rest)) _
        (pos 0) rest (holding struct m k qs) refl (rw elems refl)
