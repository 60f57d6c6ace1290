-- ===== src/XmlrpcXml/RoundTrip.antt =====
-- Reading back whole values that were written (src/xmlrpc_params.c).
use cros.Common.{ap, arith, pos, refl, some, suc, ℕ, ℤ, ◌++◌, ◌+◌, ◌-◌, ◌∙◌, ◌≡◌, ◌≤◌}
use cros.Common.Scan.{IsPlain, scan}
use cros.Common.Text.{starts_with}
use cros.Mem.{Ptr, done, nil_ptr, owned, plenty}
use cros.XmlrpcParams.{
  Content, Param, ParamType, Params, Text, array, as_array, as_bool, as_int, as_string, boolean,
  cons, init, integer, is_container, no_params, param, params_length, snoc, string, struct,
}
use cros.XmlrpcParams.Push.{array_add_elem, at_once, set_member_name}
use cros.XmlrpcXml.{
  DoubleText, array_etag, data_etag, member_etag, member_tag, name_etag, name_tag, struct_etag,
  value_etag, value_tag,
}
use cros.XmlrpcXml.Parse.{
  ParamContainerType, container_array, container_none, container_struct, elems_from_xml, param_body,
  param_from_xml, param_value_from_xml, struct_member_from_xml,
}
use cros.XmlrpcXml.Steps.{
  AreElems, AreMembers, IsValue, cost_all, inner_cost, inner_xml, max_elems, reread, reread_all,
  two-le-cost_all, two-le-inner_cost, xml, xml_all,
}
use cros.XmlrpcXml.Places.{
  Places, blank, holding, into_last-snoc, push-Places, pushes, struct-Places,
}
use cros.XmlrpcXml.Values.{read_a_bool, read_a_string, read_a_struct, read_an_array, read_an_int}
use cros.XmlrpcXml.Texts.{name_of_member}
use cros.XmlrpcParams.Pushes.{length-snoc}

abbrev append_params : Params → Params → Params
append_params no_params qs = qs
append_params (cons p ps) qs = cons p (append_params ps qs)

append_params-snoc :
    (ps : Params) (e : Param) (qs : Params)
    → append_params (snoc ps e) qs ≡ append_params ps (cons e qs)
append_params-snoc no_params e qs = refl
append_params-snoc (cons p ps) e qs = ap (cons p) (append_params-snoc ps e qs)

append_params-nil : (ps : Params) → append_params ps no_params ≡ ps
append_params-nil no_params = refl
append_params-nil (cons p ps) = ap (cons p) (append_params-nil ps)

module _ (double_text : DoubleText) where
  pub read_single :
      (fuel : ℕ) (inner rest : Text) (p p' : Param)
      → param_value_from_xml double_text fuel inner p container_none plenty
        ≡ done (pos 0, value_etag ++ rest, p', plenty)
      → param_from_xml double_text (suc (suc fuel)) (value_tag ++ inner) p container_none plenty
        ≡ done (pos 0, rest, p', plenty)
  unfolding param_from_xml param_body scan starts_with
  read_single fuel inner rest p p' h = rw h refl

  pub read_elem :
      (fuel : ℕ) (inner rest : Text) (p p' : Param)
      → param_value_from_xml double_text fuel inner p container_array plenty
        ≡ done (pos 0, value_etag ++ rest, p', plenty)
      → param_from_xml double_text (suc (suc fuel)) (value_tag ++ inner) p container_array plenty
        ≡ done (pos 0, rest, p', plenty)
  unfolding param_from_xml param_body scan starts_with
  read_elem fuel inner rest p p' h = rw h refl

  read_inside_member :
      (fuel : ℕ) (name inner rest : Text) (e : Param)
      → IsPlain name
      → param_value_from_xml double_text fuel inner (blank (owned name)) container_struct plenty
        ≡ done (pos 0, value_etag ++ rest, e, plenty)
      → struct_member_from_xml double_text
          (suc fuel)
          (name_tag ++ (name ++ (name_etag ++ (value_tag ++ inner))))
          init
          plenty
        ≡ done (pos 0, rest, e, plenty)
  unfolding struct_member_from_xml scan starts_with init set_member_name
  read_inside_member fuel name inner rest e plain h =
      rw (struct_member_from_xml, name_of_member name (value_tag ++ inner) plain, h) refl

  pub read_member :
      (fuel : ℕ) (name inner rest : Text) (m : Ptr Text) (qs : Params) (k : ℕ) (e : Param)
      → IsPlain name
      → k ≡ params_length qs
      → k ≤ max_elems
      → param_value_from_xml double_text fuel inner (blank (owned name)) container_struct plenty
        ≡ done (pos 0, value_etag ++ (member_etag ++ rest), e, plenty)
      → param_from_xml double_text
          (suc (suc (suc fuel)))
          (member_tag ++ (name_tag ++ (name ++ (name_etag ++ (value_tag ++ inner)))))
          (holding struct m k qs)
          container_struct
          plenty
        ≡ done (pos 0, rest, holding struct m (suc k) (snoc qs e), plenty)
  unfolding param_from_xml param_body scan starts_with array_add_elem init is_container
  read_member fuel name inner rest m qs k e plain same small h =
      rw (pushes m qs k same small struct (at_once (λ v. v)) init refl refl) (
        rw
          (into_last-snoc struct m (suc k) qs init e
            (λ v b.
              struct_member_from_xml double_text (suc fuel)
                (name_tag ++ (name ++ (name_etag ++ (value_tag ++ inner)))) v b)
            (pos 0) (member_etag ++ rest)
            (read_inside_member fuel name inner (member_etag ++ rest) e plain h))
          refl)

  elems_step :
      (fuel : ℕ) (c c' : Text) (p p' : Param) (container : ParamContainerType)
      → param_from_xml double_text fuel c p container plenty ≡ done (pos 0, c', p', plenty)
      → elems_from_xml double_text (suc fuel) c p container plenty
        ≡ elems_from_xml double_text fuel c' p' container plenty
  unfolding elems_from_xml
  elems_step fuel c c' p p' container h = rw h refl

  elems_end :
      (fuel : ℕ) (rest : Text) (p : Param)
      → elems_from_xml double_text (suc (suc fuel)) (data_etag ++ rest) p container_array plenty
        ≡ done (data_etag ++ rest, p, plenty)
  unfolding elems_from_xml param_from_xml scan starts_with
  elems_end fuel rest p = refl

  members_end :
      (fuel : ℕ) (rest : Text) (p : Param)
      → elems_from_xml double_text (suc (suc fuel)) (struct_etag ++ rest) p container_struct plenty
        ≡ done (struct_etag ++ rest, p, plenty)
  unfolding elems_from_xml param_from_xml scan starts_with
  members_end fuel rest p = refl

  -- What the loop over the elements or members ps leaves of a container that holds qs.
  abbrev all_held : ParamType → Ptr Text → ℕ → Params → Params → Param
  all_held ty m j qs ps = holding ty m j (append_params qs (reread_all ps))

  mutual
    pub value_read :
        (fuel : ℕ) (ty : ParamType) (c : Content) (n mx : ℤ) {container : ParamContainerType}
        {m : Ptr Text} {p : Param} {result : Param → Param} (places : Places container m p result)
        (rest : Text)
        → IsValue ty c n
        → inner_cost ty c ≤ suc (suc fuel)
        → param_value_from_xml double_text (suc (suc fuel)) (inner_xml ty c rest) p container plenty
          ≡ done (pos 0, rest, result (reread (param ty m c n mx)), plenty)
    value_read fuel boolean (as_bool b) n mx places rest h f =
        read_a_bool double_text places fuel rest b h
    value_read fuel integer (as_int v) n mx places rest h f =
        read_an_int double_text places fuel rest v h
    value_read fuel string (as_string (some t)) n mx places rest h f =
        read_a_string double_text places fuel rest t (h.0) (h.1)
    value_read fuel array (as_array room ps) n mx {m = m} places rest h f =
        let e : fuel ≡ suc (fuel - 1) = omega arith in
        rw e (
          read_an_array double_text places (fuel - 1) rest ps (reread_all ps) (params_length ps) (
            elems_read (fuel - 1) ps no_params 0 (params_length ps) m (array_etag ++ rest) (h.2)
              refl (omega arith) (h.1) (omega arith)))
    value_read fuel struct (as_array room ps) n mx {m = m} places rest h f =
        let e : fuel ≡ suc (fuel - 1) = omega arith in
        rw e (
          read_a_struct double_text places (fuel - 1) rest ps (reread_all ps) (params_length ps) (
            members_read (fuel - 1) ps no_params 0 (params_length ps) m rest (h.2) refl
              (omega arith) (h.1) (omega arith)))
    value_read fuel ty c n mx places rest h f = absurd h

    elems_read :
        (fuel : ℕ) (ps qs : Params) (k j : ℕ) (m : Ptr Text) (rest : Text)
        → AreElems ps
        → k ≡ params_length qs
        → j ≡ k + params_length ps
        → j ≤ max_elems
        → cost_all ps ≤ fuel
        → elems_from_xml double_text fuel
            (xml_all ps (data_etag ++ rest))
            (holding array m k qs)
            container_array
            plenty
          ≡ done (data_etag ++ rest, all_held array m j qs ps, plenty)
    elems_read fuel no_params qs k j m rest h same count small f =
        let e : fuel ≡ suc (suc (fuel - 2)) = omega arith in
        let last : j ≡ k = omega arith in
        rw (e, last, append_params-nil qs) (elems_end (fuel - 2) rest (holding array m k qs))
    elems_read fuel (cons (param ty nil_ptr c n mx) ps) qs k j m rest h same count small f =
        let e : fuel ≡ suc (suc (suc (suc (suc (fuel - 5))))) =
          omega (arith, two-le-cost_all ps, two-le-inner_cost ty c) in
        let q = reread (param ty nil_ptr c n mx) in
        let more = xml_all ps (data_etag ++ rest) in
        let read =
          value_read (fuel - 5) ty c n mx (push-Places m qs k same (omega arith))
            (value_etag ++ more) (h.0)
            (omega (arith, two-le-cost_all ps, two-le-inner_cost ty c)) in
        rw (e) (
          elems_step (suc (suc (suc (suc (fuel - 5))))) (xml (param ty nil_ptr c n mx) more) more
            (holding array m k qs) (holding array m (suc k) (snoc qs q)) container_array
            (read_elem (suc (suc (fuel - 5))) (inner_xml ty c (value_etag ++ more)) more
              (holding array m k qs) (holding array m (suc k) (snoc qs q)) read)
          ∙ elems_read (suc (suc (suc (suc (fuel - 5))))) ps (snoc qs q) (suc k) j m rest (h.1)
              (omega (arith, length-snoc qs q)) (omega arith) small
              (omega (arith, two-le-cost_all ps, two-le-inner_cost ty c))
          ∙ rw (append_params-snoc qs q (reread_all ps)) refl)
    elems_read fuel (cons p ps) qs k j m rest h same count small f = absurd (h.0)

    members_read :
        (fuel : ℕ) (ps qs : Params) (k j : ℕ) (m : Ptr Text) (rest : Text)
        → AreMembers ps
        → k ≡ params_length qs
        → j ≡ k + params_length ps
        → j ≤ max_elems
        → cost_all ps ≤ fuel
        → elems_from_xml double_text fuel
            (xml_all ps (struct_etag ++ rest))
            (holding struct m k qs)
            container_struct
            plenty
          ≡ done (struct_etag ++ rest, all_held struct m j qs ps, plenty)
    members_read fuel no_params qs k j m rest h same count small f =
        let e : fuel ≡ suc (suc (fuel - 2)) = omega arith in
        let last : j ≡ k = omega arith in
        rw (e, last, append_params-nil qs) (members_end (fuel - 2) rest (holding struct m k qs))
    members_read fuel (cons (param ty (owned name) c n mx) ps) qs k j m rest h same count small f =
        let e : fuel ≡ suc (suc (suc (suc (suc (suc (fuel - 6)))))) =
          omega (arith, two-le-cost_all ps, two-le-inner_cost ty c) in
        let q = reread (param ty (owned name) c n mx) in
        let more = xml_all ps (struct_etag ++ rest) in
        let read =
          value_read (fuel - 6) ty c n mx (struct-Places (owned name))
            (value_etag ++ (member_etag ++ more)) (h.0.1)
            (omega (arith, two-le-cost_all ps, two-le-inner_cost ty c)) in
        rw (e) (
          elems_step (suc (suc (suc (suc (suc (fuel - 6))))))
            (xml (param ty (owned name) c n mx) more) more (holding struct m k qs)
            (holding struct m (suc k) (snoc qs q)) container_struct
            (read_member (suc (suc (fuel - 6))) name
              (inner_xml ty c (value_etag ++ (member_etag ++ more))) more m qs k q (h.0.0) same
              (omega arith) read)
          ∙ members_read (suc (suc (suc (suc (suc (fuel - 6)))))) ps (snoc qs q) (suc k) j m rest
              (h.1) (omega (arith, length-snoc qs q)) (omega arith) small
              (omega (arith, two-le-cost_all ps, two-le-inner_cost ty c))
          ∙ rw (append_params-snoc qs q (reread_all ps)) refl)
    members_read fuel (cons p ps) qs k j m rest h same count small f = absurd (h.0)
