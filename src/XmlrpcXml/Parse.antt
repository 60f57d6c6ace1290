-- ===== src/XmlrpcXml/Parse.antt =====
-- The functions of src/xmlrpc_params.c that read XML. The message is what stands at its cursor:
-- every loop of the code walks forward from there, its place and the characters left in step.
use cros.Common.{
  Bool, Option, [], false, if◌then◌else◌, length, minus_one, negsuc, none, pos, set, some, suc,
  take, true, zero, ℕ, ℤ, ◌+◌, ◌-◌, ◌==◌,
}
use cros.Common.Scan.{scan, tagged, ◌or_else◌}
use cros.Mem.{Answers, Run, done, fault, no_fuel, ◌>>=◌}
use cros.XmlrpcParams.{
  Param, ParamType, Params, Setting, Text, array, as_array, binary, boolean, cons, datetime, double,
  elem_at, integer, no_params, param, params_length, set_array, set_bool, set_double, set_int,
  set_string_n, set_struct, set_unknown, string, struct, unknown,
}
use cros.XmlrpcXml.{
  DoubleText, array_etag, array_tag, base64_etag, base64_tag, boolean_etag, boolean_tag, data_etag,
  data_ntag, data_tag, datetime_etag, datetime_tag, double_tag, i4_etag, i4_tag, int_etag, int_tag,
  member_etag, member_tag, name_etag, name_tag, string_etag, string_tag, struct_etag, struct_ntag,
  struct_tag, value_etag, value_tag,
}
use cros.XmlrpcParams.Push.{
  array_add_elem, array_push_back_string_n, at_once, push_with, set_member_name,
}
use cros.XmlrpcXml.Numbers.{read_int}

pub data ParamContainerType : Type 0 where
  container_none container_array container_struct : ParamContainerType

-- The `int` result, what is left at the cursor, the parameter and the answers left.
abbrev pub Parsed : Type 0
Parsed = Run (ℤ × Text × Param × Answers)

-- The results of the functions that add an element are ignored.
abbrev pub ignoring : Run (Bool × Param × Answers) → (Param → Answers → Parsed) → Parsed
ignoring r k = r >>= λ (ok, p, a). k p a

-- The element that a container holds last, of which the code has the address.
unfoldable pub last_elem : Param → Run Param
last_elem (param ty m (as_array room ps) n mx) = elem_at ps (params_length ps - 1)
last_elem p = fault

unfoldable pub set_last : Params → Param → Params
set_last no_params e = no_params
set_last (cons p no_params) e = cons e no_params
set_last (cons p (cons q ps)) e = cons p (set_last (cons q ps) e)

unfoldable pub put_last : Param → Param → Param
unfolding set_last
put_last (param ty m (as_array room ps) n mx) e = param ty m (as_array room (set_last ps e)) n mx
put_last p e = p

-- Parsing into the last element.
unfoldable pub into_last : Param → Answers → (Param → Answers → Parsed) → Parsed
unfolding last_elem put_last
into_last p a parse = do
  e ← last_elem p
  (ret, cursor, e', a') ← parse e a
  done (ret, cursor, put_last p e', a')

-- What the first loop of paramFromXml finds: a start tag, or the end of the container.
pub data Begin : Type 0 where
  begun : Text → Begin
  closed : Begin

abbrev pub begin_at : ParamContainerType → Text → Option Begin
begin_at container_none c = tagged value_tag begun c
begin_at container_array c = tagged value_tag begun c or_else tagged data_etag (λ t. closed) c
begin_at container_struct c = tagged member_tag begun c or_else tagged struct_etag (λ t. closed) c

abbrev pub end_tag : ParamContainerType → Text
end_tag container_none = value_etag
end_tag container_array = value_etag
end_tag container_struct = member_etag

-- What the first loop of paramValueFromXml finds: the tag of a type, an empty struct, or the end of
-- the value.
pub data TypeTag : Type 0 where
  typed : ParamType → Text → TypeTag
  empty_struct : Text → TypeTag
  untyped : TypeTag

abbrev pub type_at : Text → Option TypeTag
type_at c =
    tagged boolean_tag (typed boolean) c
    or_else tagged i4_tag (typed integer) c
    or_else tagged int_tag (typed integer) c
    or_else tagged double_tag (typed double) c
    or_else tagged string_tag (typed string) c
    or_else tagged array_tag (typed array) c
    or_else tagged datetime_tag (typed datetime) c
    or_else tagged base64_tag (typed binary) c
    or_else tagged struct_tag (typed struct) c
    or_else tagged struct_ntag empty_struct c
    or_else tagged value_etag (λ t. untyped) c

-- What its second loop looks for. Nothing ends a double. The end of an untyped value is left to the
-- caller.
abbrev pub end_at : ParamType → Text → Option Text
end_at boolean c = tagged boolean_etag (λ t. t) c
end_at integer c = tagged i4_etag (λ t. t) c or_else tagged int_etag (λ t. t) c
end_at double c = none
end_at string c = tagged string_etag (λ t. t) c
end_at array c = tagged array_etag (λ t. t) c
end_at struct c = tagged struct_etag (λ t. t) c
end_at datetime c = tagged datetime_etag (λ t. t) c
end_at binary c = tagged base64_etag (λ t. t) c
end_at unknown c = tagged value_etag (λ t. c) c

-- The end of the container's element: the last loop of paramFromXml.
abbrev pub after_end : Text → ℤ × Text × Param × Answers → Parsed
after_end etag (negsuc r, c, p, a) = done (negsuc r, c, p, a)
after_end etag (pos r, c, p, a) = elim (scan (tagged etag (λ t. t)) c) [
  | none ↦ done (minus_one, c, p, a)
  | some (k, c') ↦ done (pos 0, c', p, a)
]

abbrev pub is_array : ParamContainerType → Bool
is_array container_array = true
is_array container = false

-- A number: it is set or added.
abbrev pub store_value :
    ParamContainerType
    → Setting
    → (Param → Param)
    → Param
    → Answers
    → (Param → Answers → Parsed)
    → Parsed
store_value container setter set p a k =
    if is_array container then ignoring (push_with setter a p) k else k (set p) a

-- A text: its first n characters, set or added.
abbrev pub store_text :
    ParamContainerType → Text → ℕ → Param → Answers → (Param → Answers → Parsed) → Parsed
store_text container text n p a k =
    if is_array container
    then ignoring (array_push_back_string_n text n a p) k
    else (set_string_n text n a p >>= λ (r, p', a'). k p' a')

abbrev pub is_text : ParamType → Bool
is_text string = true
is_text unknown = true
is_text ty = false

-- The second loop of paramValueFromXml and what follows it, from the cursor; `ret` is the result so
-- far.
abbrev pub end_value : ℤ → ParamType → ParamContainerType → Text → Param → Answers → Parsed
end_value ret ty container c p a = elim (scan (end_at ty) c) [
  | none ↦ done (minus_one, [], p, a)
  | some (n, c') ↦
      if is_text ty
      then store_text container c n p a (λ p' a'. done (ret, c', p', a'))
      else done (ret, c', p, a)
]

-- sscanf did not give a value.
abbrev pub no_value : Text → Param → Answers → Parsed
no_value c p a = done (minus_one, c, set_unknown p, a)

-- What the loop of arrayFromXml finds.
pub data DataTag : Type 0 where
  data_begun empty_data : Text → DataTag

abbrev pub data_at : Text → Option DataTag
data_at c = tagged data_tag data_begun c or_else tagged data_ntag empty_data c

abbrev pub end_data : Text → Param → Answers → ℤ × Text × Param × Answers
end_data c p a = elim (scan (tagged data_etag (λ t. t)) c) [
  | none ↦ (minus_one, c, p, a)
  | some (k, c') ↦ (pos 0, c', p, a)
]

abbrev pub is_minus_one : ℤ → Bool
is_minus_one (pos n) = false
is_minus_one (negsuc n) = n == 0

-- The name of a member and what follows it.
abbrev pub member_name_at : Text → Option (Text × Text)
member_name_at c = elim (scan (tagged name_tag (λ t. t)) c) [
  | none ↦ none
  | some (k, c1) ↦ elim (scan (tagged name_etag (λ t. t)) c1) [
    | none ↦ none
    | some (n, c2) ↦ some (take n c1, c2)
  ]
]

abbrev pub read_bool : ParamContainerType → Text → Param → Answers → Parsed
read_bool container c p a = read_int c >>= λ r. elim r [
  | none ↦ no_value c p a
  | some v ↦
      store_value container (at_once (λ e. set_bool e v)) (λ e. set_bool e v) p a
        (λ p' a'. end_value (pos 0) boolean container c p' a')
]

abbrev pub read_integer : ParamContainerType → Text → Param → Answers → Parsed
read_integer container c p a = read_int c >>= λ r. elim r [
  | none ↦ no_value c p a
  | some v ↦
      store_value container (at_once (λ e. set_int e v)) (λ e. set_int e v) p a
        (λ p' a'. end_value (pos 0) integer container c p' a')
]

-- The value of a container that has just been made, and what follows it.
abbrev pub end_container : ParamType → ParamContainerType → ℤ × Text × Param × Answers → Parsed
end_container ty container (negsuc r, c, p, a) = done (negsuc r, c, p, a)
end_container ty container (pos r, c, p, a) = end_value (pos 0) ty container c p a

-- A new container: an element of the array, or the parameter itself. NULL is -1.
abbrev pub in_new :
    ParamContainerType → Setting → Text → Param → Answers → (Param → Answers → Parsed) → Parsed
in_new container setter c p a inner =
    if is_array container
    then (push_with setter a p >>= λ (ok, p', a').
        if ok then into_last p' a' inner else done (minus_one, c, p', a'))
    else (setter a p >>= λ (r, p', a'). inner p' a')

abbrev pub param_begin : ParamContainerType → Text → Option Text
param_begin container c = elim (scan (begin_at container) c) [
  | none ↦ none
  | some (k, closed) ↦ none
  | some (k, begun c') ↦ some c'
]

module _ (double_text : DoubleText) where
  abbrev pub read_double : ParamContainerType → Text → Param → Answers → Parsed
  read_double container c p a = elim (double_text.read c) [
    | none ↦ no_value c p a
    | some v ↦
        store_value container (at_once (λ e. set_double e v)) (λ e. set_double e v) p a
          (λ p' a'. end_value (pos 0) double container c p' a')
  ]

  -- The loops and the recursion take fuel: one round for each call.
  unfoldable mutual
    unfolding into_last

    pub param_from_xml : ℕ → Text → Param → ParamContainerType → Answers → Parsed
    param_from_xml zero c p container a = no_fuel
    param_from_xml (suc fuel) c p container a = elim (param_begin container c) [
      | none ↦ done (minus_one, c, p, a)
      | some c' ↦ param_body fuel c' p container a >>= λ r. after_end (end_tag container) r
    ]

    pub param_body : ℕ → Text → Param → ParamContainerType → Answers → Parsed
    param_body zero c p container a = no_fuel
    param_body (suc fuel) c p container_struct a = array_add_elem a p >>= λ (ok, p', a'). elim ok [
      | true ↦ into_last p' a' (λ e b. struct_member_from_xml fuel c e b)
      | false ↦ done (minus_one, c, p', a')
    ]
    param_body (suc fuel) c p container_none a = param_value_from_xml fuel c p container_none a
    param_body (suc fuel) c p container_array a = param_value_from_xml fuel c p container_array a

    pub param_value_from_xml : ℕ → Text → Param → ParamContainerType → Answers → Parsed
    param_value_from_xml zero c p container a = no_fuel
    param_value_from_xml (suc fuel) c p container a = elim (scan type_at c) [
      | none ↦ done (minus_one, [], p, a)
      | some (k, typed ty c') ↦ typed_from_xml fuel ty c' p container a
      | some (k, empty_struct c') ↦
          in_new container set_struct c' p a (λ e b. done (pos 0, c', e, b))
      | some (k, untyped) ↦ end_value (pos 0) unknown container c p a
    ]

    pub typed_from_xml : ℕ → ParamType → Text → Param → ParamContainerType → Answers → Parsed
    typed_from_xml zero ty c p container a = no_fuel
    typed_from_xml (suc fuel) boolean c p container a = read_bool container c p a
    typed_from_xml (suc fuel) integer c p container a = read_integer container c p a
    typed_from_xml (suc fuel) double c p container a = read_double container c p a
    typed_from_xml (suc fuel) string c p container a = end_value (pos 0) string container c p a
    typed_from_xml (suc fuel) array c p container a =
        in_new container set_array c p a
          (λ e b. array_from_xml fuel c e b >>= λ r. end_container array container r)
    typed_from_xml (suc fuel) struct c p container a =
        in_new container set_struct c p a
          (λ e b. struct_from_xml fuel c e b >>= λ r. end_container struct container r)
    typed_from_xml (suc fuel) datetime c p container a =
        end_value minus_one datetime container c p a
    typed_from_xml (suc fuel) binary c p container a = end_value minus_one binary container c p a
    typed_from_xml (suc fuel) unknown c p container a = end_value (pos 0) unknown container c p a

    pub array_from_xml : ℕ → Text → Param → Answers → Parsed
    array_from_xml zero c p a = no_fuel
    array_from_xml (suc fuel) c p a = elim (scan data_at c) [
      | none ↦ done (minus_one, c, p, a)
      | some (k, empty_data c') ↦ done (pos 0, c', p, a)
      | some (k, data_begun c') ↦
          elems_from_xml fuel c' p container_array a >>= λ (c1, p', a'). done (end_data c1 p' a')
    ]

    -- The loops `while (paramFromXml(...) != -1);`.
    pub elems_from_xml :
        ℕ → Text → Param → ParamContainerType → Answers → Run (Text × Param × Answers)
    elems_from_xml zero c p container a = no_fuel
    elems_from_xml (suc fuel) c p container a =
        param_from_xml fuel c p container a >>= λ (ret, c', p', a'). elim (is_minus_one ret) [
          | true ↦ done (c', p', a')
          | false ↦ elems_from_xml fuel c' p' container a'
        ]

    pub struct_from_xml : ℕ → Text → Param → Answers → Parsed
    struct_from_xml zero c p a = no_fuel
    struct_from_xml (suc fuel) c p a =
        elems_from_xml fuel c p container_struct a >>= λ (c', p', a'). done (pos 0, c', p', a')

    pub struct_member_from_xml : ℕ → Text → Param → Answers → Parsed
    struct_member_from_xml zero c p a = no_fuel
    struct_member_from_xml (suc fuel) c p a = elim (member_name_at c) [
      | none ↦ done (minus_one, c, p, a)
      | some (name, c1) ↦ set_member_name name a p >>= λ (ret, p', a'). elim ret [
        | negsuc r ↦ done (minus_one, c, p', a')
        | pos r ↦ elim (scan (tagged value_tag (λ t. t)) c1) [
          | none ↦ done (minus_one, c, p', a')
          | some (k, c2) ↦
              param_value_from_xml fuel c2 p' container_struct a' >>= λ r. after_end value_etag r
        ]
      ]
    ]

-- Every level of the recursion reads a tag; eight rounds lead from one value to the next inside it.
abbrev pub xml_fuel : Text → ℕ
xml_fuel text = length text + 8

-- xmlrpcParamFromXml, which reads from the start of the message and puts the cursor back.
unfoldable pub from_xml : DoubleText → Text → Param → Answers → Run (ℤ × Param × Answers)
from_xml double_text message p a =
    param_from_xml double_text (xml_fuel message) message p container_none a >>= λ (ret, c, p', a').
    done (ret, p', a')
