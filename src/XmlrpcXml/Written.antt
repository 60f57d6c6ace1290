-- ===== src/XmlrpcXml/Written.antt =====
-- The text that xmlrpcParamToXml writes (src/xmlrpc_params.c), and the whole round trip.
use cros.Common.{
  [], ap, append-nil, append_assoc, arith, false, if◌then◌else◌, int_max, length, map, pos, refl,
  some, suc, sym, ℕ, ℤ, ◌*◌, ◌++◌, ◌+◌, ◌-◌, ◌==◌, ◌∙◌, ◌∷◌, ◌≡◌, ◌≤◌,
}
use cros.DynString.Texts.{Contents, chars_in, cleared}
use cros.XmlrpcXml.Append.{param_to_xml, param_to_xml-text}
use cros.Mem.{Run, done, nil_ptr, owned, plenty}
use cros.XmlrpcParams.{
  Content, Param, ParamType, Params, Text, array, as_array, as_bool, as_int, as_string, boolean,
  cons, init, integer, no_params, param, params_length, string, struct,
}
use cros.XmlrpcXml.{
  DoubleText, array_etag, array_tag, boolean_etag, boolean_tag, data_etag, data_tag, int_etag,
  int_tag, member_etag, member_tag, name_etag, name_tag, string_etag, string_tag, struct_etag,
  struct_tag, value_etag, value_tag,
}
use cros.XmlrpcXml.Print.{
  Pieces, bool_to_xml, content_to_xml, elems_to_xml, escape_char, in_value, int_to_xml, piece_text,
  pieces_text, str, string_to_xml, to_xml,
}
use cros.XmlrpcXml.Steps.{
  AreElems, AreMembers, IsClean, IsElem, IsMember, IsValue, cost-xml, inner_cost, inner_xml, reread,
  two-le-inner_cost, xml, xml_all,
}
use cros.Common.Decimal.{chars}
use cros.XmlrpcXml.Numbers.{print_int}
use cros.XmlrpcXml.Parse.{container_none, from_xml, param_from_xml, xml_fuel}
use cros.XmlrpcXml.Places.{none-Places}
use cros.XmlrpcXml.RoundTrip.{read_single, value_read}

pub pieces_text-append :
    (ps qs : Pieces) → pieces_text (ps ++ qs) ≡ pieces_text ps ++ pieces_text qs
pieces_text-append [] qs = refl
pieces_text-append (p ∷ ps) qs =
    rw (pieces_text-append ps qs)
      (sym (append_assoc (piece_text p) (pieces_text ps) (pieces_text qs)))

-- The call returns pieces that add up to the text, before any rest.
abbrev Writes : Run Pieces → (Text → Text) → Type 0
Writes r f = (ps : Pieces) × (r ≡ done ps) × ((rest : Text) → pieces_text ps ++ rest ≡ f rest)

escape-clean : (t : Text) → IsClean t → pieces_text (map escape_char t) ≡ t
unfolding escape_char
escape-clean [] h = refl
escape-clean (c ∷ cs) h =
    let e0 : (c == b'<') ≡ false = ground (arith, h.0) in
    let e1 : (c == b'>') ≡ false = ground (arith, h.1) in
    let e2 : (c == b'&') ≡ false = ground (arith, h.2) in
    let e3 : (c == 39) ≡ false = ground (arith, h.3) in
    let e4 : (c == 34) ≡ false = ground (arith, h.4) in
    rw (escape_char, e0, e1, e2, e3, e4) (ap (λ l. c ∷ l) (escape-clean cs (h.5)))

-- Pieces between two tags, and what comes behind.
between :
    (inner outer : Pieces) (rest : Text)
    → pieces_text (inner ++ outer) ++ rest ≡ pieces_text inner ++ (pieces_text outer ++ rest)
between inner outer rest =
    rw (pieces_text-append inner outer) (append_assoc (pieces_text inner) (pieces_text outer) rest)

-- One text between tags.
tagged_text :
    (tag etag inner rest : Text)
    → (value_tag ++ (tag ++ (inner ++ (etag ++ (value_etag ++ []))))) ++ rest
      ≡ value_tag ++ (tag ++ (inner ++ (etag ++ (value_etag ++ rest))))
tagged_text tag etag inner rest =
    ap (λ l. value_tag ++ l)
      (append_assoc tag (inner ++ (etag ++ value_etag)) rest
        ∙ ap (λ l. tag ++ l)
            (append_assoc inner (etag ++ value_etag) rest
              ∙ ap (λ l. inner ++ l) (append_assoc etag value_etag rest)))

module _ (double_text : DoubleText) where
  mutual
    unfolding to_xml

    elem_written : (p : Param) → IsElem p → Writes (to_xml double_text p) (xml p)
    elem_written (param ty nil_ptr c n mx) h = value_written ty c n h
    elem_written p h = absurd h

    member_written : (p : Param) → IsMember p → Writes (to_xml double_text p) (xml p)
    member_written (param ty (owned name) c n mx) h =
        let (ps, returns, text) = value_written ty c n (h.1) in
        (
          str member_tag ∷ str name_tag ∷ str name ∷ str name_etag ∷ (ps ++ (str member_etag ∷ [])),
          rw returns refl,
          λ rest.
              ap (λ l. member_tag ++ (name_tag ++ l))
                (append_assoc name (name_etag ++ pieces_text (ps ++ (str member_etag ∷ []))) rest
                  ∙ ap (λ l. name ++ (name_etag ++ l))
                      (between ps (str member_etag ∷ []) rest ∙ text (member_etag ++ rest))),
        )
    member_written p h = absurd h

    value_written :
        (ty : ParamType) (c : Content) (n : ℤ)
        → IsValue ty c n
        → Writes
            (content_to_xml double_text ty c n)
            (λ rest. value_tag ++ inner_xml ty c (value_etag ++ rest))
    value_written boolean (as_bool b) n h = (
      bool_to_xml b,
      refl,
      tagged_text boolean_tag boolean_etag (if b == 0 then chars "0" else chars "1"),
    )
    value_written integer (as_int v) n h =
        (int_to_xml v, refl, tagged_text int_tag int_etag (print_int v))
    value_written string (as_string (some t)) n h = (
      string_to_xml t,
      refl,
      λ rest.
          ap (λ l. value_tag ++ (string_tag ++ l))
            (between (map escape_char t) (str string_etag ∷ str value_etag ∷ []) rest
              ∙ ap (λ l. l ++ (string_etag ++ (value_etag ++ rest))) (escape-clean t (h.0))),
    )
    value_written array (as_array room ps) n h =
        let (inner, returns, text) = elems_written ps (h.2) in
        (
          str value_tag
              ∷ str array_tag
              ∷ str data_tag
              ∷ (inner ++ (str data_etag ∷ str array_etag ∷ str value_etag ∷ [])),
          rw (h.0, returns) refl,
          λ rest.
              ap (λ l. value_tag ++ (array_tag ++ (data_tag ++ l)))
                (between inner (str data_etag ∷ str array_etag ∷ str value_etag ∷ []) rest
                  ∙ text (data_etag ++ (array_etag ++ (value_etag ++ rest)))),
        )
    value_written struct (as_array room ps) n h =
        let (inner, returns, text) = members_written ps (h.2) in
        (
          in_value struct_tag struct_etag inner,
          rw (h.0, returns) refl,
          λ rest.
              ap (λ l. value_tag ++ (struct_tag ++ l))
                (between inner (str struct_etag ∷ str value_etag ∷ []) rest
                  ∙ text (struct_etag ++ (value_etag ++ rest))),
        )
    value_written ty c n h = absurd h

    elems_written :
        (ps : Params)
        → AreElems ps
        → Writes (elems_to_xml double_text (params_length ps) ps) (xml_all ps)
    elems_written no_params h = ([], refl, λ rest. refl)
    elems_written (cons p ps) h =
        let (first, returns, text) = elem_written p (h.0) in
        let (more, returns', text') = elems_written ps (h.1) in
        (
          first ++ more,
          rw (returns, returns') refl,
          λ rest. between first more rest ∙ rw (text' rest) (text (xml_all ps rest)),
        )

    members_written :
        (ps : Params)
        → AreMembers ps
        → Writes (elems_to_xml double_text (params_length ps) ps) (xml_all ps)
    members_written no_params h = ([], refl, λ rest. refl)
    members_written (cons p ps) h =
        let (first, returns, text) = member_written p (h.0) in
        let (more, returns', text') = members_written ps (h.1) in
        (
          first ++ more,
          rw (returns, returns') refl,
          λ rest. between first more rest ∙ rw (text' rest) (text (xml_all ps rest)),
        )

  -- What a value is written as, before any text that follows.
  pub to_xml-Writes : (p : Param) → IsElem p → Writes (to_xml double_text p) (xml p)
  to_xml-Writes p h = elem_written p h

  single_read :
      (ty : ParamType) (c : Content) (n mx : ℤ) (fuel : ℕ)
      → IsValue ty c n
      → 3 + inner_cost ty c ≤ fuel
      → param_from_xml double_text fuel
          (xml (param ty nil_ptr c n mx) [])
          init
          container_none
          plenty
        ≡ done (pos 0, [], reread (param ty nil_ptr c n mx), plenty)
  unfolding init
  single_read ty c n mx fuel h enough =
      let e : fuel ≡ suc (suc (suc (suc (fuel - 4)))) = omega (arith, two-le-inner_cost ty c) in
      rw e (
        read_single double_text (suc (suc (fuel - 4))) (inner_xml ty c (value_etag ++ [])) [] init
          (reread (param ty nil_ptr c n mx))
          (value_read double_text (fuel - 4) ty c n mx (none-Places nil_ptr) (value_etag ++ []) h
            (omega arith)))

  -- A value of booleans, ints, strings without special characters, arrays and structs, with up to
  -- 2^28 elements in each and a text whose triple, and 257 more, is an `int`: with memory for every
  -- request xmlrpcParamToXml appends the text to a string that was empty, whatever its capacity, and
  -- xmlrpcParamFromXml of the text returns 0 and gives the same value again, its arrays with the
  -- capacities that come of pushing the elements one by one.
  pub from_xml-to_xml :
      (p : Param) (s : Contents)
      → IsElem p
      → 3 * length (xml p []) + 257 ≤ int_max
      → (text : Text) × (max : ℕ) × (param_to_xml double_text plenty p (cleared s)
          ≡ done (chars_in text max, plenty))
        × (from_xml double_text text init plenty ≡ done (pos 0, reread p, plenty))
  unfolding from_xml
  from_xml-to_xml (param ty nil_ptr c n mx) s h short =
      let p = param ty nil_ptr c n mx in
      let (ps, returns, text) = elem_written p h in
      let same : pieces_text ps ≡ xml p [] = sym (append-nil (pieces_text ps)) ∙ text [] in
      let (max, appended) =
        param_to_xml-text double_text p s ps (xml p []) returns same (omega (arith, cost-xml p []))
          short in
      (
        xml p [],
        max,
        appended,
        rw (single_read ty c n mx (xml_fuel (xml p [])) h (omega (arith, cost-xml p []))) refl,
      )
  from_xml-to_xml p s h short = absurd h
